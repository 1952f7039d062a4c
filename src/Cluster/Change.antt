-- ===== src/Cluster/Change.antt =====
-- Consistent nodes, and the changes of every node that keep them so.
use offline_pay.Prelude.{
  String, ◌≡◌, refl, true, false, some, List, [], ◌∷◌, str_dec, ap, Bool-cases,
}
use offline_pay.Database.{find}
use offline_pay.Cluster.Nodes.{SettlementNode, Cluster, node_key, each, new_cluster, new_node}
use offline_pay.Cluster.Search.{Every, Every-each, find-each}
use offline_pay.Cluster.System.{leader_log, LogStep, stays}

-- A node that runs has this log.
abbrev pub Agrees : List String → SettlementNode → Type 0
Agrees log n = n.crashed ≡ false → n.log ≡ log

abbrev pub Leads : String → SettlementNode → Type 0
Leads leader_id n = n.is_leader ≡ true → n.id ≡ leader_id

-- The map has the leader's id, and no other node leads.
pub record HasLeader (c : Cluster) : Type 0 where
  pub leader : SettlementNode
  pub found : find node_key c.leader_id c.nodes ≡ some leader
  pub single : Every (Leads c.leader_id) c.nodes

-- The nodes that run agree with the leader too.
pub record IsConsistent (c : Cluster) : Type 0 where
  pub has : HasLeader c
  pub agree : Every (Agrees has.leader.log) c.nodes

pub new_cluster-IsConsistent : IsConsistent new_cluster
unfolding new_cluster new_node str_dec Bool-cases
new_cluster-IsConsistent = record {
  has = record {
    leader = new_node "node-a" true;
    found = refl;
    single = (λ _. refl, (λ h. absurd (cc), (λ h. absurd (cc), tt)));
  };
  agree = (λ _. refl, (λ _. refl, (λ _. refl, tt)));
}

-- A change that leaves ids, flags of the leader and the choice of the leader alone.
pub each-HasLeader :
    (f : SettlementNode → SettlementNode) (c c' : Cluster) (v : HasLeader c)
    → ((n : SettlementNode) → (f n).id ≡ n.id)
    → ((n : SettlementNode) → Leads c.leader_id n → Leads c.leader_id (f n))
    → c'.nodes ≡ each f c.nodes
    → c'.leader_id ≡ c.leader_id
    → HasLeader c'
each-HasLeader f c c' v same single e i = record {
  leader = f v.leader;
  found = rw (e, i) (find-each f same c.leader_id c.nodes v.leader v.found);
  single = rw (e, i) (Every-each (Leads c.leader_id) (Leads c.leader_id) f single c.nodes v.single);
}

pub each-IsConsistent :
    (f : SettlementNode → SettlementNode) (c c' : Cluster) (v : IsConsistent c)
    → ((n : SettlementNode) → (f n).id ≡ n.id)
    → ((n : SettlementNode) → Agrees v.has.leader.log n → Agrees (f v.has.leader).log (f n))
    → ((n : SettlementNode) → Leads c.leader_id n → Leads c.leader_id (f n))
    → c'.nodes ≡ each f c.nodes
    → c'.leader_id ≡ c.leader_id
    → IsConsistent c'
unfolding each-HasLeader
each-IsConsistent f c c' v same agree single e i = record {
  has = each-HasLeader f c c' v.has same single e i;
  agree =
      rw e (
        Every-each (Agrees v.has.leader.log) (Agrees (f v.has.leader).log) f agree c.nodes v.agree);
}

-- An operation keeps the nodes consistent, and the leader's log stays or gains one command.
abbrev pub Kept : Cluster → Cluster → Type 0
Kept c c' = IsConsistent c' × LogStep (leader_log c) (leader_log c')

pub each-Kept :
    (f : SettlementNode → SettlementNode) (c c' : Cluster) (v : IsConsistent c)
    → ((n : SettlementNode) → (f n).id ≡ n.id)
    → ((n : SettlementNode) → Agrees v.has.leader.log n → Agrees (f v.has.leader).log (f n))
    → ((n : SettlementNode) → Leads c.leader_id n → Leads c.leader_id (f n))
    → LogStep v.has.leader.log (f v.has.leader).log
    → c'.nodes ≡ each f c.nodes
    → c'.leader_id ≡ c.leader_id
    → Kept c c'
unfolding leader_log
each-Kept f c c' v same agree single grows e i = (
  each-IsConsistent f c c' v same agree single e i,
  rw (v.has.found, e, i, find-each f same c.leader_id c.nodes v.has.leader v.has.found) grows,
)

pub same-Kept : (c : Cluster) → IsConsistent c → Kept c c
same-Kept c v = (v, stays)

pub each-each :
    (f g : SettlementNode → SettlementNode) (nodes : List SettlementNode)
    → each g (each f nodes) ≡ each (λ n. g (f n)) nodes
each-each f g [] = refl
each-each f g (n ∷ rest) = ap (λ r. g (f n) ∷ r) (each-each f g rest)
