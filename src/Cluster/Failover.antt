-- ===== src/Cluster/Failover.antt =====
-- `CrashNode`, `RecoverNode` and `runElection` keep the nodes consistent.
use offline_pay.Prelude.{
  ◌-◌, String, ◌≡◌, refl, true, false, not, ◌||◌, Option, none, some, List, [], ◌∷◌, arith, subst,
  sym, ap, inl, inr, Bool-cases,
}
use offline_pay.Database.{find, exists, find-key}
use offline_pay.Cluster.Nodes.{
  SettlementNode, Cluster, node_key, each, only, crash_node, recover_node, set_crashed, sync_from,
  sync_with, run_election, best_candidate, better, exceeds, set_leader, install,
}
use offline_pay.Cluster.Search.{Every-find, Every-each, find-each}
use offline_pay.Cluster.System.{leader_log, LogStep, stays}
use offline_pay.Cluster.Change.{
  Agrees, Leads, HasLeader, each-HasLeader, IsConsistent, Kept, each-Kept, same-Kept, each-each,
}

pub crash_node-HasLeader : (id : String) (c : Cluster) → HasLeader c → HasLeader (crash_node id c)
unfolding crash_node set_crashed
crash_node-HasLeader id c v = elim (Bool-cases (exists node_key id c.nodes)) [
  | inl e ↦ rw e (
      each-HasLeader (only id (set_crashed true)) c _ v (λ n. ground arith) (λ n h. ground arith)
        refl refl)
  | inr e ↦ rw e v
]

pub crash_node-Kept : (id : String) (c : Cluster) → IsConsistent c → Kept c (crash_node id c)
unfolding crash_node set_crashed leader_log
crash_node-Kept id c v = elim (Bool-cases (exists node_key id c.nodes)) [
  | inl e ↦ rw e (
      each-Kept (only id (set_crashed true)) c _ v (λ n. ground arith) (λ n h. ground arith)
        (λ n h. ground arith) (subst (λ l. LogStep v.has.leader.log l) (ground arith) stays) refl
        refl)
  | inr e ↦ rw e (same-Kept c v)
]

recovered : String → SettlementNode → SettlementNode → SettlementNode
unfolding set_crashed sync_from
recovered id from n = only id (sync_from from) (only id (set_crashed false) n)

-- The leader's node as it is when the log is copied.
revived : String → SettlementNode → SettlementNode
unfolding set_crashed
revived id n = only id (set_crashed false) n

recover_node-eq :
    (id : String) (c : Cluster) (v : HasLeader c)
    → exists node_key id c.nodes ≡ true
    → recover_node id c ≡ record c { nodes = each (recovered id (revived id v.leader)) c.nodes }
unfolding recover_node recovered revived sync_with set_crashed sync_from
recover_node-eq id c v e =
    let f : SettlementNode → SettlementNode = only id (set_crashed false) in
    let g : SettlementNode → SettlementNode = only id (sync_from (f v.leader)) in
    let found = find-each f (λ n. ground arith) c.leader_id c.nodes v.leader v.found in
    rw (e, found) (ap (λ ns. record c { nodes = ns }) (each-each f g c.nodes))

recover_node-same :
    (id : String) (c : Cluster) → exists node_key id c.nodes ≡ false → recover_node id c ≡ c
unfolding recover_node
recover_node-same id c e = rw e refl

pub recover_node-HasLeader :
    (id : String) (c : Cluster) → HasLeader c → HasLeader (recover_node id c)
unfolding recovered revived set_crashed sync_from
recover_node-HasLeader id c v = elim (Bool-cases (exists node_key id c.nodes)) [
  | inl e ↦ rw (recover_node-eq id c v e) (
      each-HasLeader (recovered id (revived id v.leader)) c _ v (λ n. ground arith)
        (λ n h. ground arith) refl refl)
  | inr e ↦ rw (recover_node-same id c e) v
]

pub recover_node-Kept : (id : String) (c : Cluster) → IsConsistent c → Kept c (recover_node id c)
unfolding recover_node recovered revived set_crashed sync_from leader_log
recover_node-Kept id c v = elim (Bool-cases (exists node_key id c.nodes)) [
  | inl e ↦
      let f : SettlementNode → SettlementNode = recovered id (revived id v.has.leader) in
      rw (recover_node-eq id c v.has e) (
        each-Kept f c _ v (λ n. ground arith) (λ n h. ground arith) (λ n h. ground arith)
          (subst (λ l. LogStep v.has.leader.log l) (ground arith) stays) refl refl)
  | inr e ↦ rw e (same-Kept c v)
]

-- The best candidate so far runs, and is a node of the map.
abbrev pub Runs : List SettlementNode → Option SettlementNode → Type 0
Runs nodes none = Unit {0}
Runs nodes (some best) = (best.crashed ≡ false) × (find node_key best.id nodes ≡ some best)

better-Runs :
    (nodes : List SettlementNode) (id : String) (best o : Option SettlementNode)
    → find node_key id nodes ≡ o
    → Runs nodes best
    → Runs nodes (better best o)
unfolding better
better-Runs nodes id best none e h = h
better-Runs nodes id best (some n) e h = elim (Bool-cases (n.crashed || not (exceeds n best))) [
  | inl worse ↦ rw worse h
  | inr wins ↦
      let key = find-key node_key id nodes n e in
      rw wins (ground arith, subst (λ k. find node_key k nodes ≡ some n) (sym key) e)
]

pub best_candidate-Runs :
    (nodes : List SettlementNode) (ids : List String) (best : Option SettlementNode)
    → Runs nodes best
    → Runs nodes (best_candidate nodes ids best)
unfolding best_candidate
best_candidate-Runs nodes [] best h = h
best_candidate-Runs nodes (id ∷ ids) best h =
    best_candidate-Runs nodes ids (better best (find node_key id nodes))
      (better-Runs nodes id best (find node_key id nodes) refl h)

-- What an election does to a node when this node wins, and when none does.
unfoldable pub elected : SettlementNode → SettlementNode → SettlementNode
unfolding set_leader
elected best n = only best.id (set_leader true) (set_leader false n)

module _ (c : Cluster) (v : HasLeader c) (visit : List String) where
  install-HasLeader :
      (o : Option SettlementNode)
      → Runs c.nodes o
      → HasLeader (record (install o (record c { nodes = each (set_leader false) c.nodes })) {
        elections = c.elections - 1;
      })
  unfolding install set_leader elected
  install-HasLeader none h =
      each-HasLeader (set_leader false) c _ v (λ n. refl) (λ n a e. absurd (cc)) refl refl
  install-HasLeader (some best) (up, at) =
      let f : SettlementNode → SettlementNode = elected best in
      rw (each-each (set_leader false) (only best.id (set_leader true)) c.nodes) (record {
        leader = f best;
        found = find-each f (λ n. ground arith) best.id c.nodes best at;
        single =
            Every-each (Leads c.leader_id) (Leads best.id) f (λ n h. ground arith) c.nodes v.single;
      })

  pub run_election-HasLeader :
      HasLeader (record (run_election visit c) { elections = c.elections - 1 })
  unfolding run_election
  run_election-HasLeader =
      install-HasLeader (best_candidate c.nodes visit none)
        (best_candidate-Runs c.nodes visit none tt)

module _ (c : Cluster) (v : IsConsistent c) (visit : List String) where
  install-Kept :
      (o : Option SettlementNode)
      → Runs c.nodes o
      → Kept c (record (install o (record c { nodes = each (set_leader false) c.nodes })) {
        elections = c.elections - 1;
      })
  unfolding install set_leader leader_log elected
  install-Kept none h =
      each-Kept (set_leader false) c _ v (λ n. refl) (λ n a. a) (λ n a e. absurd (cc)) stays refl
        refl
  install-Kept (some best) (up, at) =
      let same_log : best.log ≡ v.has.leader.log =
        Every-find (Agrees v.has.leader.log) best.id c.nodes best v.agree at up in
      let f : SettlementNode → SettlementNode = elected best in
      let found = find-each f (λ n. ground arith) best.id c.nodes best at in
      let agree : (n : SettlementNode) → Agrees v.has.leader.log n → Agrees (f best).log (f n) =
        λ n h. ground arith in
      let nodes = each-each (set_leader false) (only best.id (set_leader true)) c.nodes in
      rw nodes (
        record {
          has = record {
            leader = f best;
            found = found;
            single =
                Every-each (Leads c.leader_id) (Leads best.id) f (λ n h. ground arith) c.nodes
                  v.has.single;
          };
          agree =
              Every-each (Agrees v.has.leader.log) (Agrees (f best).log) f agree c.nodes v.agree;
        },
        rw (found, v.has.found) (subst (λ l. LogStep v.has.leader.log l) (ground arith) stays),
      )

  pub run_election-Kept : Kept c (record (run_election visit c) { elections = c.elections - 1 })
  unfolding run_election
  run_election-Kept =
      install-Kept (best_candidate c.nodes visit none) (best_candidate-Runs c.nodes visit none tt)
