-- ===== src/Cluster/Search.antt =====
-- Lemmas on the map of nodes: reading it after each kind of change, and predicates of every node.
use offline_pay.Prelude.{String, ◌≡◌, some, List, [], ◌∷◌, str_dec, arith, subst}
use offline_pay.Database.{find}
use offline_pay.Cluster.Nodes.{SettlementNode, node_key, each}

abbrev pub Every : (SettlementNode → Type 0) → List SettlementNode → Type 0
Every P [] = Unit {0}
Every P (n ∷ rest) = P n × Every P rest

pub Every-find :
    (P : SettlementNode → Type 0) (k : String) (nodes : List SettlementNode) (n : SettlementNode)
    → Every P nodes
    → find node_key k nodes ≡ some n
    → P n
Every-find P k [] n h e = absurd (cc)
Every-find P k (x ∷ rest) n (p, h) e = elim (str_dec x.id k) [
  | yes hit ↦ let q : x ≡ n = ground arith in subst P q p
  | no miss ↦ Every-find P k rest n h (ground arith)
]

pub Every-each :
    (P Q : SettlementNode → Type 0) (f : SettlementNode → SettlementNode)
    → ((n : SettlementNode) → P n → Q (f n))
    → (nodes : List SettlementNode) → Every P nodes
    → Every Q (each f nodes)
Every-each P Q f keep [] h = tt
Every-each P Q f keep (x ∷ rest) (p, h) = (keep x p, Every-each P Q f keep rest h)

-- The lookup after a change of every node that leaves the ids alone.
pub find-each :
    (f : SettlementNode → SettlementNode)
    → ((n : SettlementNode) → (f n).id ≡ n.id)
    → (k : String) (nodes : List SettlementNode) (n : SettlementNode)
    → find node_key k nodes ≡ some n
    → find node_key k (each f nodes) ≡ some (f n)
find-each f same k [] n e = absurd (cc)
find-each f same k (x ∷ rest) n e = ground (arith, find-each f same k rest n, same x)
