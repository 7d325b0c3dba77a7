-- ===== src/NodeThreads.antt =====
-- The threads of src/round/util/thread.c, their manager (src/round/util/thread_manager.c), the
-- triggers (src/round/trigger.c, trigger_manager.c and the macros of trigger.h), and the start and
-- the stop of a local node (src/round/local_node.c). A thread is its name, its flags, what is
-- known of its action, and the number of times the system has started it; whether the system
-- starts a thread is a parameter. The threads of a manager are the list of them, and a write
-- through a pointer to one is a write into that list. Nothing is NULL.
pub mod Triggers
pub mod Running
use round.Common.{
  ℕ, zero, suc, ◌+◌, Bool, true, false, not, ◌&&◌, ◌||◌, Option, none, some, List, [], ◌∷◌, ◌++◌,
  ◌==◌, if◌then◌else◌,
}
use round.Text.{CString, streq, strlen}
use round.Node.{RoundNode}
use round.Cluster.{Cluster, Nodes, addnode, manager_clear}

-- `RoundThread`: for the action, whether there is one and whether each of its calls returns;
-- whether the thread calls it in a loop, and whether a stop time is set.
pub record RoundThread : Type 0 where
  pub name : CString
  pub runnable : Bool
  pub running : Bool
  pub has_action : Bool
  pub action_returns : Bool
  pub loop : Bool
  pub stop_time : Bool
  pub started : ℕ

-- `round_thread_init`; the running flag of new memory is a parameter.
unfoldable pub thread_init : Bool → RoundThread
thread_init garbage = record {
  name = none;
  runnable = false;
  running = garbage;
  has_action = false;
  action_returns = true;
  loop = false;
  stop_time = false;
  started = 0;
}

-- `round_trigger_new`: the calls of `round_trigger_action` return.
unfoldable pub trigger_new : Bool → RoundThread
unfolding thread_init
trigger_new garbage = record (thread_init garbage) { has_action = true; action_returns = true }

-- Whether `RoundExecThreadAction` returns in the end, where nothing else writes to the thread: a
-- stop time comes at last.
unfoldable pub exec_action_ends : RoundThread → Bool
exec_action_ends thread =
    if not thread.has_action
    then true
    else thread.action_returns && (not (thread.loop && thread.runnable) || thread.stop_time)

-- The thread of the system, `RoundPosixThreadProc`, once it can do no more: it takes the running
-- flag down behind `RoundExecThreadAction`. It may do so at any time after the start of the
-- thread.
unfoldable pub thread_proc : RoundThread → RoundThread
unfolding exec_action_ends
thread_proc thread = if exec_action_ends thread then record thread { running = false } else thread

-- `round_thread_start`, where the thread of the system has not ended yet (`thread_proc`)
unfoldable pub thread_start : Bool → RoundThread → RoundThread × Bool
thread_start creates thread =
    if creates
    then (record thread { runnable = true; running = true; started = suc thread.started }, true)
    else (record thread { runnable = false; running = true }, false)

-- `round_thread_stop`
unfoldable pub thread_stop : RoundThread → RoundThread × Bool
thread_stop thread = (record thread { runnable = false; running = false }, true)

-- `round_thread_restart`
unfoldable pub thread_restart : Bool → RoundThread → RoundThread × Bool
unfolding thread_start thread_stop
thread_restart creates thread = thread_start creates (thread_stop thread).0

-- The loop of `round_thread_manager_start`, which drops the results
unfoldable pub start_from : Bool → List RoundThread → List RoundThread
unfolding thread_start
start_from creates [] = []
start_from creates (t ∷ threads) = (thread_start creates t).0 ∷ start_from creates threads

-- `round_thread_manager_start`
unfoldable pub manager_start : Bool → List RoundThread → List RoundThread × Bool
unfolding start_from
manager_start creates threads = (start_from creates threads, true)

-- The loop of `round_thread_manager_stop`
unfoldable pub stop_from : List RoundThread → List RoundThread
unfolding thread_stop
stop_from [] = []
stop_from (t ∷ threads) = (thread_stop t).0 ∷ stop_from threads

-- `round_thread_manager_stop`
unfoldable pub manager_stop : List RoundThread → List RoundThread × Bool
unfolding stop_from
manager_stop threads = (stop_from threads, true)

-- `round_thread_manager_isrunning`
unfoldable pub manager_isrunning : List RoundThread → Bool
manager_isrunning [] = true
manager_isrunning (t ∷ threads) = if not t.running then false else manager_isrunning threads

-- `round_string_isvalue` of the name of a thread
unfoldable pub isname : RoundThread → CString → Bool
isname thread name = streq thread.name name

-- `round_thread_manager_getthreadbyname`
unfoldable pub getthreadbyname : List RoundThread → CString → Option RoundThread
unfolding isname
getthreadbyname [] name = none
getthreadbyname (t ∷ threads) name = if isname t name then some t else getthreadbyname threads name

-- `round_thread_remove` of the thread that `round_thread_manager_removethreadbyname` finds
unfoldable pub remove_from : List RoundThread → CString → List RoundThread
unfolding isname
remove_from [] name = []
remove_from (t ∷ threads) name = if isname t name then threads else t ∷ remove_from threads name

-- `round_thread_manager_removethreadbyname`
unfoldable pub removethreadbyname : List RoundThread → CString → List RoundThread × Bool
unfolding getthreadbyname remove_from
removethreadbyname threads name = elim (getthreadbyname threads name) [
  | none ↦ (threads, false)
  | some _ ↦ (remove_from threads name, true)
]

-- `round_trigger_manager_settrigger`; the trigger gets the routes of the manager, which are not
-- modelled.
unfoldable pub settrigger : List RoundThread → RoundThread → List RoundThread × Bool
unfolding getthreadbyname removethreadbyname
settrigger triggers trigger =
    let others : List RoundThread = elim (getthreadbyname triggers trigger.name) [
      | none ↦ triggers
      | some _ ↦ (removethreadbyname triggers trigger.name).0
    ] in
    if strlen trigger.name == 0 then (triggers, false) else (others ++ trigger ∷ [], true)

-- `round_trigger_manager_start`, `round_trigger_manager_stop` and
-- `round_trigger_manager_isrunning`: in trigger.h all three stand for
-- `round_thread_manager_start`.
unfoldable pub trigger_manager_start : Bool → List RoundThread → List RoundThread × Bool
unfolding manager_start
trigger_manager_start creates triggers = manager_start creates triggers

unfoldable pub trigger_manager_stop : Bool → List RoundThread → List RoundThread × Bool
unfolding manager_start
trigger_manager_stop creates triggers = manager_start creates triggers

unfoldable pub trigger_manager_isrunning : Bool → List RoundThread → List RoundThread × Bool
unfolding manager_start
trigger_manager_isrunning creates triggers = manager_start creates triggers

-- The parts of a local node that its start and its stop write to.
pub record NodeRun : Type 0 where
  pub threads : List RoundThread
  pub triggers : List RoundThread
  pub clusters : List Cluster
  pub nodes : Nodes

-- `round_local_node_stop`
unfoldable pub local_stop : Bool → NodeRun → NodeRun × Bool
unfolding manager_stop trigger_manager_stop
local_stop creates node =
    let stopped : List RoundThread × Bool = manager_stop node.threads in
    let triggers : List RoundThread × Bool = trigger_manager_stop creates node.triggers in
    (record node { threads = stopped.0; triggers = triggers.0 }, stopped.1 && triggers.1)

-- `round_local_node_clear`
unfoldable pub local_clear : NodeRun → NodeRun × Bool
unfolding manager_clear
local_clear node = (record node { clusters = (manager_clear node.clusters).0 }, true)

-- `round_local_node_isrunning`, whose test of the triggers is given the threads
unfoldable pub local_isrunning : Bool → NodeRun → NodeRun × Bool
unfolding manager_isrunning trigger_manager_isrunning
local_isrunning creates node =
    let tested : List RoundThread × Bool = trigger_manager_isrunning creates node.threads in
    if not (manager_isrunning node.threads)
    then (node, false)
    else if not tested.1
    then (record node { threads = tested.0 }, false)
    else (record node { threads = tested.0 }, true)

module _ (digest_func : List ℕ → List ℕ) (null_text : List ℕ) where
  -- The part of `round_local_node_start` behind its stop: the node itself is added to its clusters.
  unfoldable pub start_parts : Bool → NodeRun → ℕ → ℕ → ℕ → NodeRun × Bool
  unfolding local_clear manager_start trigger_manager_start
  start_parts creates node self new_cluster new_node =
      let cleared : NodeRun × Bool = local_clear node in
      let added : List Cluster × Nodes × Bool =
        addnode digest_func null_text node.nodes cleared.0.clusters self new_cluster new_node in
      let threads : List RoundThread × Bool = manager_start creates node.threads in
      let triggers : List RoundThread × Bool = trigger_manager_start creates node.triggers in
      (
        record { threads = threads.0; triggers = triggers.0; clusters = added.0; nodes = added.1 },
        cleared.1 && added.2 && threads.1 && triggers.1,
      )

  -- `round_local_node_start`
  unfoldable pub local_start : Bool → NodeRun → ℕ → ℕ → ℕ → NodeRun × Bool
  unfolding local_stop start_parts
  local_start creates node self new_cluster new_node =
      let stopped : NodeRun × Bool = local_stop creates node in
      let started : NodeRun × Bool = start_parts creates stopped.0 self new_cluster new_node in
      if not stopped.1
      then (stopped.0, false)
      else if not started.1
      then ((local_stop creates started.0).0, false)
      else started
