-- ===== src/NodeThreads/Running.antt =====
-- The threads and the clusters of a local node after its start, its stop, and the test whether it
-- runs (src/round/local_node.c).
use round.Common.{
  ℕ, suc, ◌≡◌, ◌≢◌, refl, ap, ◌∙◌, Bool, true, false, ◌&&◌, ◌⊎◌, inl, inr, All, subst, some, List,
  [], ◌∷◌, arith, if◌then◌else◌, map,
}
use round.Text.{streq}
use round.Node.Remote.{IsAddressed}
use round.Cluster.{
  Cluster, Nodes, addnode, manager_clear, hasnode, getclusterbynode, getclusterbyname,
}
use round.Cluster.Members.{IsManager, IsKnown}
use round.Cluster.Add.{addnode-hasnode}
use round.NodeThreads.{
  RoundThread, exec_action_ends, thread_proc, NodeRun, start_from, stop_from, manager_isrunning,
  local_stop, local_clear, local_isrunning, start_parts, local_start,
}

-- A thread that is started once more, and one that is stopped.
abbrev pub restarted : RoundThread → RoundThread
restarted t = record t { runnable = true; running = true; started = suc t.started }

abbrev pub stopped : RoundThread → RoundThread
stopped t = record t { runnable = false; running = false }

start_from-map : (threads : List RoundThread) → start_from true threads ≡ map restarted threads
unfolding start_from
start_from-map [] = refl
start_from-map (t ∷ threads) = ap (λ l. restarted t ∷ l) (start_from-map threads)

stop_from-map : (threads : List RoundThread) → stop_from threads ≡ map stopped threads
unfolding stop_from
stop_from-map [] = refl
stop_from-map (t ∷ threads) = ap (λ l. stopped t ∷ l) (stop_from-map threads)

manager_isrunning-restarted :
    (threads : List RoundThread) → manager_isrunning (map restarted threads) ≡ true
unfolding manager_isrunning
manager_isrunning-restarted [] = refl
manager_isrunning-restarted (t ∷ threads) = manager_isrunning-restarted threads

-- A thread that was never started, and whose action never comes to its end once it is.
abbrev pub IsEndless : RoundThread → Type 0
IsEndless t = (t.started ≡ 0) × (exec_action_ends (restarted t) ≡ false)

-- What threads have become at a later time: the thread of the system has ended, or not yet.
abbrev pub Later : List RoundThread → List RoundThread → Type 0
Later [] later = later ≡ []
Later (t ∷ threads) [] = ⊥
Later (t ∷ threads) (u ∷ later) = ((u ≡ t) ⊎ (u ≡ thread_proc t)) × Later threads later

thread_proc-endless : (t : RoundThread) → IsEndless t → thread_proc (restarted t) ≡ restarted t
unfolding thread_proc
thread_proc-endless t e = rw e.1 refl

-- The threads started that never come to their end run at every later time.
Later-running :
    (threads later : List RoundThread)
    → All IsEndless threads
    → Later (map restarted (map stopped threads)) later
    → manager_isrunning later ≡ true
unfolding manager_isrunning exec_action_ends
Later-running [] later a l = rw l refl
Later-running (t ∷ threads) [] a l = absurd l
Later-running (t ∷ threads) (u ∷ later) a l =
    let rest = Later-running threads later a.1 l.1 in
    elim l.0 [ inl e ↦ rw e rest | inr e ↦ rw (e ∙ thread_proc-endless (stopped t) a.0) rest ]

-- The stop of a node stops its threads and starts its triggers once more.
pub local_stop-restarted :
    (node : NodeRun)
    → local_stop true node ≡ (
      record node { threads = map stopped node.threads; triggers = map restarted node.triggers },
      true,
    )
unfolding local_stop
local_stop-restarted node = rw (stop_from-map node.threads, start_from-map node.triggers) refl

-- Where the system starts every thread, isrunning of a local node whose threads all run starts
-- each thread once more and gives true; where one does not run, it gives false and changes
-- nothing.
pub local_isrunning-restarted :
    (node : NodeRun)
    → local_isrunning true node ≡ (
        if manager_isrunning node.threads
        then (record node { threads = map restarted node.threads }, true)
        else (node, false))
unfolding local_isrunning
local_isrunning-restarted node = rw (start_from-map node.threads) (ground arith)

nowhere : (nodes : Nodes) (x : ℕ) → hasnode nodes [] x ≡ false
unfolding hasnode getclusterbynode getclusterbyname
nowhere nodes x = ground arith

clear_empty : (l : List Cluster) → (manager_clear l).0 ≡ []
unfolding manager_clear
clear_empty [] = refl
clear_empty (c ∷ l) = refl

module _ (digest_func : List ℕ → List ℕ) (null_text : List ℕ) (node : NodeRun)
    (self new_cluster new_node : ℕ) where
  abbrev pub run : NodeRun × Bool
  run = local_start digest_func null_text true node self new_cluster new_node

  abbrev pub joined : List Cluster × Nodes × Bool
  joined = addnode digest_func null_text node.nodes [] self new_cluster new_node

  pub local_start_lem :
      joined.2 ≡ true
      → run ≡ (
        record {
          threads = map restarted (map stopped node.threads);
          triggers = map restarted (map restarted node.triggers);
          clusters = joined.0;
          nodes = joined.1;
        },
        true,
      )
  unfolding local_start start_parts local_clear
  local_start_lem ok =
      rw
        (
          clear_empty node.clusters,
          stop_from-map node.threads,
          start_from-map (map stopped node.threads),
          start_from-map node.triggers,
          start_from-map (map restarted node.triggers),
          ok,
        )
        refl

  -- Where the system starts every thread, new memory is not NULL, no thread of a local node was
  -- ever started and the action of none comes to an end by itself, and the node has an address, a
  -- name of a cluster and the identifier of its address and port, start succeeds, all its threads
  -- run at every later time, and the clusters are well formed and hold of all other known nodes
  -- those with the cluster and the identifier of the node itself, whatever they held before.
  pub local_start-hasnode :
      (name id : List ℕ) (x : ℕ) (n i : List ℕ) (later : List RoundThread)
      → IsAddressed digest_func null_text (node.nodes self)
      → IsKnown node.nodes self name id
      → new_node ≢ 0
      → x ≢ new_node
      → IsKnown node.nodes x n i
      → All IsEndless node.threads
      → Later run.0.threads later
      → (run.1 ≡ true)
        × (manager_isrunning later ≡ true)
        × IsManager run.0.nodes run.0.clusters
        × (hasnode run.0.nodes run.0.clusters x
            ≡ (streq (some n) (some name) && streq (some i) (some id)))
  local_start-hasnode name id x n i later a k n0 xn kx endless l =
      let (ok, m, h) =
        addnode-hasnode digest_func null_text node.nodes self new_node a name id k n0 [] new_cluster
          x n i tt tt tt xn kx in
      let started = local_start_lem ok in
      (
        ap (λ r. r.1) started,
        Later-running node.threads later endless
            (subst (λ (r : NodeRun × Bool). Later r.0.threads later) started l),
        rw started m,
        rw started (h ∙ rw (nowhere node.nodes x) refl),
      )
