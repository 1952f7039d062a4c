-- ===== src/Cluster/Leader.antt =====
-- Who leads: at most one node, a running one after an election, and none once all have crashed.
use offline_pay.Prelude.{
  String, ◌≡◌, refl, Bool, true, false, none, some, List, [], ◌∷◌, arith, inl, inr, Bool-cases,
  Option-cases,
}
use offline_pay.Database.{find, exists, find-key}
use offline_pay.Cluster.Nodes.{
  SettlementNode, Cluster, node_key, each, only, propose_to, propose_command, unavailable,
  recover_node, set_crashed, sync_from, sync_with, run_election, best_candidate, better, set_leader,
  install, new_cluster,
}
use offline_pay.Cluster.Search.{Every, Every-find, Every-each}
use offline_pay.Cluster.System.{elect, Step, AnyStep, AnyReach}
use offline_pay.Cluster.Change.{Leads, HasLeader, new_cluster-IsConsistent}
use offline_pay.Cluster.Propose.{propose_command-leader}
use offline_pay.Cluster.Log.{reach-HasLeader}
use offline_pay.Prelude.{◌<◌}

-- From the new cluster on, cancelled proposals and late appends included, at most one node leads: two nodes that have the flag have the same id.
pub one_leader :
    {c : Cluster} (i j : String) (m n : SettlementNode)
    → AnyReach new_cluster c
    → find node_key i c.nodes ≡ some m
    → find node_key j c.nodes ≡ some n
    → m.is_leader ≡ true
    → n.is_leader ≡ true
    → i ≡ j
one_leader {c} i j m n r p q a b =
    let v = reach-HasLeader new_cluster-IsConsistent.has r in
    let first = Every-find (Leads c.leader_id) i c.nodes m v.single p a in
    let second = Every-find (Leads c.leader_id) j c.nodes n v.single q b in
    cc (find-key node_key i c.nodes m p, find-key node_key j c.nodes n q)

abbrev HasCrashed : SettlementNode → Type 0
HasCrashed n = n.crashed ≡ true

abbrev Follows : SettlementNode → Type 0
Follows n = n.is_leader ≡ false

better-none :
    (nodes : List SettlementNode) (id : String)
    → Every HasCrashed nodes
    → better none (find node_key id nodes) ≡ none
unfolding better
better-none nodes id h = elim (Option-cases (find node_key id nodes)) [
  | inl e ↦ rw e refl
  | inr (n, e) ↦ rw (e, Every-find HasCrashed id nodes n h e) refl
]

best_candidate-none :
    (nodes : List SettlementNode) (ids : List String)
    → Every HasCrashed nodes
    → best_candidate nodes ids none ≡ none
unfolding best_candidate
best_candidate-none nodes [] h = refl
best_candidate-none nodes (id ∷ ids) h =
    rw (better-none nodes id h) (best_candidate-none nodes ids h)

-- `RecoverNode` of each of these nodes in turn.
pub recover_all : List String → Cluster → Cluster
recover_all [] c = c
recover_all (id ∷ ids) c = recover_all ids (recover_node id c)

recover_node-Follows :
    (id : String) (c : Cluster) → Every Follows c.nodes → Every Follows (recover_node id c).nodes
unfolding recover_node set_crashed sync_with sync_from
recover_node-Follows id c h =
    let nodes : List SettlementNode = each (only id (set_crashed false)) c.nodes in
    let h1 : Every Follows nodes =
      Every-each Follows Follows (only id (set_crashed false)) (λ n p. ground arith) c.nodes h in
    elim (Bool-cases (exists node_key id c.nodes)) [
      | inl e ↦ elim (Option-cases (find node_key c.leader_id nodes)) [
        | inl none_there ↦ rw (e, none_there) h1
        | inr (l, there) ↦
            rw (e, there)
              (Every-each Follows Follows (only id (sync_from l)) (λ n p. ground arith) nodes h1)
      ]
      | inr e ↦ rw e h
    ]

recover_all-Follows :
    (ids : List String) (c : Cluster)
    → Every Follows c.nodes
    → Every Follows (recover_all ids c).nodes
unfolding recover_all
recover_all-Follows [] c h = h
recover_all-Follows (id ∷ ids) c h =
    recover_all-Follows ids (recover_node id c) (recover_node-Follows id c h)

Every-true :
    (P : SettlementNode → Type 0)
    → ((n : SettlementNode) → P n)
    → (nodes : List SettlementNode) → Every P nodes
Every-true P h [] = tt
Every-true P h (n ∷ rest) = (h n, Every-true P h rest)

elect-Follows :
    (visit : List String) (c : Cluster)
    → Every HasCrashed c.nodes
    → Every Follows (elect visit c).nodes
unfolding elect run_election install set_leader
elect-Follows visit c h = rw (best_candidate-none c.nodes visit h) (
    Every-each (λ _. Unit {0}) Follows (set_leader false) (λ n p. refl) c.nodes
      (Every-true (λ _. Unit {0}) (λ n. tt) c.nodes))

reach-recover_all :
    (ids : List String) {a c : Cluster} → AnyReach a c → AnyReach a (recover_all ids c)
unfolding recover_all
reach-recover_all [] r = r
reach-recover_all (id ∷ ids) r =
    reach-recover_all ids (AnyReach.then_any r (AnyStep.step (Step.recover id)))

refused :
    (is_done : Bool) (cmd : String) (c : Cluster)
    → HasLeader c
    → Every Follows c.nodes
    → propose_command is_done cmd c ≡ (unavailable, c)
unfolding propose_to
refused is_done cmd c v h =
    let e : v.leader.is_leader ≡ false =
      Every-find Follows c.leader_id c.nodes v.leader h v.found in
    ground (arith, propose_command-leader is_done cmd c v)

-- From the new cluster on, once an election has run while every node was crashed, the cluster
-- refuses every proposal, however many nodes `RecoverNode` brings back afterwards.
pub no_election_after_recovery :
    {c : Cluster} (visit ids : List String) (is_done : Bool) (cmd : String)
    → AnyReach new_cluster c
    → 0 < c.elections
    → Every HasCrashed c.nodes
    → propose_command is_done cmd (recover_all ids (elect visit c))
      ≡ (unavailable, recover_all ids (elect visit c))
no_election_after_recovery {c} visit ids is_done cmd r waits h =
    let d : Cluster = recover_all ids (elect visit c) in
    let later : AnyReach new_cluster d =
      reach-recover_all ids (AnyReach.then_any r (AnyStep.step (Step.election visit waits))) in
    refused is_done cmd d (reach-HasLeader new_cluster-IsConsistent.has later)
      (recover_all-Follows ids (elect visit c) (elect-Follows visit c h))
