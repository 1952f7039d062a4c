-- ===== src/Cluster/Election.antt =====
-- An election with a running node ends the outage.
use offline_pay.Prelude.{
  String, ◌≡◌, refl, ◌≢◌, true, false, not, ◌||◌, Option, none, some, List, [], ◌∷◌, str_dec, arith,
  subst, sym, ap, ◌∙◌, ◌⊎◌, inl, inr, Bool-cases,
}
use offline_pay.Database.{find, find-key}
use offline_pay.Cluster.Nodes.{
  SettlementNode, Cluster, node_key, each, only, check_quorum, propose_to, propose_command,
  follower_acks, Outcome, committed, run_election, best_candidate, better, exceeds, set_leader,
  install,
}
use offline_pay.Cluster.Search.{find-each}
use offline_pay.Cluster.System.{elect}
use offline_pay.Cluster.Change.{each-each}
use offline_pay.Prelude.{◌<◌}
use offline_pay.Cluster.Failover.{Runs, best_candidate-Runs, elected}

IsFound : Option SettlementNode → Type 0
IsFound none = ⊥
IsFound (some n) = Unit {0}

better-IsFound : (best o : Option SettlementNode) → IsFound best → IsFound (better best o)
unfolding better IsFound
better-IsFound (some b) none h = h
better-IsFound (some b) (some n) h = elim (Bool-cases (n.crashed || not (exceeds n (some b)))) [
  | inl e ↦ rw e tt
  | inr e ↦ rw e tt
]
better-IsFound none o h = absurd h

better-running :
    (best : Option SettlementNode) (n : SettlementNode)
    → n.crashed ≡ false
    → IsFound (better best (some n))
unfolding better IsFound exceeds
better-running none n up = rw up tt
better-running (some b) n up = elim (Bool-cases (n.crashed || not (exceeds n (some b)))) [
  | inl e ↦ rw e tt
  | inr e ↦ rw e tt
]

best_candidate-keeps :
    (nodes : List SettlementNode) (ids : List String) (best : Option SettlementNode)
    → IsFound best
    → IsFound (best_candidate nodes ids best)
unfolding best_candidate
best_candidate-keeps nodes [] best h = h
best_candidate-keeps nodes (id ∷ ids) best h =
    best_candidate-keeps nodes ids (better best (find node_key id nodes))
      (better-IsFound best (find node_key id nodes) h)

-- The search meets these ids.
abbrev pub Visits : String → List String → Type 0
Visits id [] = ⊥
Visits id (x ∷ rest) = (id ≡ x) ⊎ Visits id rest

best_candidate-IsFound :
    (nodes : List SettlementNode) (ids : List String) (id : String) (n : SettlementNode)
    (best : Option SettlementNode)
    → Visits id ids
    → find node_key id nodes ≡ some n
    → n.crashed ≡ false
    → IsFound (best_candidate nodes ids best)
unfolding best_candidate
best_candidate-IsFound nodes [] id n best h at up = absurd h
best_candidate-IsFound nodes (x ∷ ids) id n best (inl e) at up =
    best_candidate-keeps nodes ids (better best (find node_key x nodes))
      (rw (← e, at) (better-running best n up))
best_candidate-IsFound nodes (x ∷ ids) id n best (inr h) at up =
    best_candidate-IsFound nodes ids id n (better best (find node_key x nodes)) h at up

found-some : (o : Option SettlementNode) → IsFound o → (n : SettlementNode) × (o ≡ some n)
unfolding IsFound
found-some none h = absurd h
found-some (some n) h = (n, refl)

follower_acks-pos :
    (leader_id k : String) (nodes : List SettlementNode) (n : SettlementNode)
    → find node_key k nodes ≡ some n
    → n.id ≢ leader_id
    → n.crashed ≡ false
    → 0 < follower_acks leader_id nodes
unfolding follower_acks
follower_acks-pos leader_id k [] n e h up = absurd (cc)
follower_acks-pos leader_id k (x ∷ rest) n e h up =
    ground (arith, follower_acks-pos leader_id k rest n)

module _ (c : Cluster) (visit : List String) (best : SettlementNode) where
  -- The nodes after an election that this node has won.
  won :
      best_candidate c.nodes visit none ≡ some best
      → ((elect visit c).nodes ≡ each (elected best) c.nodes)
        × ((elect visit c).leader_id ≡ best.id)
  unfolding elect run_election install elected
  won e = rw e (each-each (set_leader false) (only best.id (set_leader true)) c.nodes, refl)

  -- A second running node acknowledges the leader's proposal.
  acknowledged :
      (k : String) (n : SettlementNode)
      → find node_key k c.nodes ≡ some n
      → k ≢ best.id
      → n.crashed ≡ false
      → 0 < follower_acks best.id (each (elected best) c.nodes)
  unfolding elected set_leader
  acknowledged k n at other up =
      let f : SettlementNode → SettlementNode = elected best in
      let found = find-each f (λ x. ground arith) k c.nodes n at in
      follower_acks-pos best.id k (each f c.nodes) (f n) found
        (λ h. other (ground (arith, find-key node_key k c.nodes n at))) (ground arith)

propose_to-committed :
    (cmd : String) (leader : SettlementNode) (d : Cluster)
    → leader.crashed ≡ false
    → leader.is_leader ≡ true
    → 0 < follower_acks d.leader_id d.nodes
    → (propose_to false cmd leader d).0 ≡ committed
unfolding propose_to check_quorum
propose_to-committed cmd leader d up leads acks = ground arith

propose_found :
    (cmd : String) (leader : SettlementNode) (d : Cluster)
    → find node_key d.leader_id d.nodes ≡ some leader
    → propose_command false cmd d ≡ propose_to false cmd leader d
unfolding propose_command
propose_found cmd leader d e = ground (arith, e)

-- After an election that meets a running node, a proposal whose context does not end is committed
-- if a second node runs.
pub election_accepts :
    (c : Cluster) (visit : List String) (cmd i j : String) (m n : SettlementNode)
    → find node_key i c.nodes ≡ some m
    → find node_key j c.nodes ≡ some n
    → i ≢ j
    → m.crashed ≡ false
    → n.crashed ≡ false
    → Visits i visit
    → (propose_command false cmd (elect visit c)).0 ≡ committed
unfolding elected set_leader
election_accepts c visit cmd i j m n at at' ne up up' seen =
    let (best, e) =
      found-some (best_candidate c.nodes visit none)
        (best_candidate-IsFound c.nodes visit i m none seen at up) in
    let runs : Runs c.nodes (some best) =
      subst (Runs c.nodes) e (best_candidate-Runs c.nodes visit none tt) in
    let (nodes, leads) = won c visit best e in
    let f : SettlementNode → SettlementNode = elected best in
    let found = find-each f (λ x. ground arith) best.id c.nodes best runs.1 in
    let acks : 0 < follower_acks best.id (each f c.nodes) = elim (str_dec i best.id) [
      | yes same ↦ acknowledged c visit best j n at' (λ h. ne (same ∙ sym h)) up'
      | no other ↦ acknowledged c visit best i m at other up
    ] in
    let d : Cluster = elect visit c in
    let at_leader : find node_key d.leader_id d.nodes ≡ some (f best) = rw (nodes, leads) found in
    ap (λ (r : Outcome × Cluster). r.0) (propose_found cmd (f best) d at_leader)
    ∙ propose_to-committed cmd (f best) d (ground arith) (ground arith) (rw (nodes, leads) acks)
