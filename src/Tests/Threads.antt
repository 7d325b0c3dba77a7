-- ===== src/Tests/Threads.antt =====
-- Tests of the triggers (trigger_manager.c), and of the start and the stop of a local node
-- (local_node.c), with the identity in place of the digest.
use round.Common.{
  inl, sym, subst, ℕ, ◌≡◌, refl, Bool, true, false, ◌&&◌, some, List, [], ◌∷◌, arith, if◌then◌else◌,
}
use round.Text.{streq, strlen, strcmp_bytes}
use round.Node.{getclustername, seed, full_seed, print_int, digits_from}
use round.Cluster.{Nodes, hasnode}
use round.Cluster.Members.{IsManager, IsKnown}
use round.Cluster.Add.{addnode-hasnode}
use round.NodeThreads.{
  RoundThread, thread_restart, thread_start, thread_stop, getthreadbyname, settrigger,
  manager_isrunning, exec_action_ends, thread_proc, thread_init, trigger_new, NodeRun,
  local_isrunning, local_start,
}
use round.NodeThreads.Triggers.{IsTriggers, getthreadbyname-settrigger}
use round.NodeThreads.Running.{
  Later, local_start_lem, joined, restarted, local_isrunning-restarted, local_start-hasnode,
}
use round.Tests.Node.{same, null_text, at_port, at_port-IsAddressed}

abbrev called : List ℕ → RoundThread
called name = record {
  name = some name;
  runnable = false;
  running = false;
  has_action = true;
  action_returns = true;
  loop = true;
  stop_time = false;
  started = 0;
}

-- A trigger that is started runs no more once its action has returned.
trigger_ends : (thread_proc (thread_start true (trigger_new true)).0).running ≡ false
unfolding trigger_new thread_init thread_start thread_proc exec_action_ends
trigger_ends = refl

abbrev tick : List ℕ
tick = b't' ∷ []

abbrev other : List ℕ
other = b'o' ∷ []

-- A thread that the system refuses to start is taken for one that runs.
refused_start : (thread_restart false (called tick)).0 ≡ record (called tick) { running = true }
unfolding thread_restart thread_start thread_stop
refused_start = refl

abbrev triggers : List RoundThread
triggers = called other ∷ called tick ∷ []

triggers-IsTriggers : IsTriggers triggers
unfolding getthreadbyname streq strcmp_bytes
triggers-IsTriggers = (refl, (refl, tt))

getthreadbyname-settrigger_example :
    ((settrigger triggers (restarted (called tick))).1 ≡ true)
    × IsTriggers (settrigger triggers (restarted (called tick))).0
    × ((k : List ℕ)
        → getthreadbyname (settrigger triggers (restarted (called tick))).0 (some k) ≡ (
            if streq (some tick) (some k)
            then some (restarted (called tick))
            else getthreadbyname triggers (some k)))
getthreadbyname-settrigger_example =
    getthreadbyname-settrigger (restarted (called tick)) tick refl triggers triggers-IsTriggers
      (λ e. cc)

abbrev club : List ℕ
club = b'c' ∷ []

-- "h:3"
abbrev three : List ℕ
three = b'h' ∷ b':' ∷ b'3' ∷ []

-- "h:5"
abbrev five : List ℕ
five = b'h' ∷ b':' ∷ b'5' ∷ []

abbrev by_port : Nodes
by_port n = at_port n club

abbrev halted : NodeRun
halted = record { threads = called other ∷ []; triggers = triggers; clusters = []; nodes = by_port }

three-IsKnown : IsKnown by_port 3 club three
unfolding getclustername strlen seed full_seed print_int digits_from
three-IsKnown = record { nonnull = omega arith; in_cluster = refl; has_id = refl }

five-IsKnown : IsKnown by_port 5 club five
unfolding getclustername strlen seed full_seed print_int digits_from
five-IsKnown = record { nonnull = omega arith; in_cluster = refl; has_id = refl }

abbrev run : NodeRun × Bool
run = local_start same null_text true halted 3 100 9

-- The thread has not ended.
abbrev later : List RoundThread
later = restarted (called other) ∷ []

later-Later : Later run.0.threads later
later-Later =
    subst (λ (r : NodeRun × Bool). Later r.0.threads later)
      (sym (local_start_lem same null_text halted 3 100 9 joined_true)) (inl refl, refl)
  where
    joined_true : (joined same null_text halted 3 100 9).2 ≡ true
    joined_true =
        (addnode-hasnode same null_text by_port 3 9 (at_port-IsAddressed 3 b'c' [] (omega arith))
          club three three-IsKnown (omega arith) [] 100 5 club five tt tt tt (omega arith)
          five-IsKnown).0

local_start-hasnode_example :
    (run.1 ≡ true)
    × (manager_isrunning later ≡ true)
    × IsManager run.0.nodes run.0.clusters
    × (hasnode run.0.nodes run.0.clusters 5
        ≡ (streq (some club) (some club) && streq (some five) (some three)))
unfolding exec_action_ends
local_start-hasnode_example =
    local_start-hasnode same null_text halted 3 100 9 club three 5 club five later
      (at_port-IsAddressed 3 b'c' [] (omega arith)) three-IsKnown (omega arith) (omega arith)
      five-IsKnown ((refl, refl), tt) later-Later

abbrev busy : NodeRun
busy = record halted { threads = restarted (called other) ∷ [] }

local_isrunning-restarted_test : local_isrunning true busy ≡ (
    if manager_isrunning busy.threads
    then (record busy { threads = restarted (restarted (called other)) ∷ [] }, true)
    else (busy, false))
local_isrunning-restarted_test = local_isrunning-restarted busy
