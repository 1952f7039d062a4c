-- ===== src/Cluster/Nodes.antt =====
-- The nodes, `GetStatus`, `NewCluster`, `ProposeCommand`, `CrashNode`, `RecoverNode` and
-- `runElection`. Each call is one step; an election runs after the call that starts it.
use offline_pay.Prelude.{
  length, ℕ, suc, ◌+◌, String, Bool, true, false, not, ◌||◌, Option, none, some, List, [], ◌∷◌,
  ◌++◌, ite, str_dec, if◌then◌else◌, ltb, leb,
}
use offline_pay.Database.{find, exists}

pub record SettlementNode : Type 0 where
  pub id : String
  pub is_leader : Bool
  pub crashed : Bool
  pub log : List String
  pub commit_idx : ℕ

-- An append that the goroutine of a follower has still to do.
pub record Append : Type 0 where
  pub target : String
  pub cmd : String
  pub log_idx : ℕ

-- `nodes` is the map by id. `elections` counts the `go c.runElection()` that have not run yet, and
-- `in_flight` has the appends of the goroutines whose call has already returned.
pub record Cluster : Type 0 where
  pub nodes : List SettlementNode
  pub leader_id : String
  pub elections : ℕ
  pub in_flight : List Append

abbrev pub node_key : SettlementNode → String
node_key n = n.id

-- What a call does to each node of the map; it leaves the ids alone.
abbrev pub each : (SettlementNode → SettlementNode) → List SettlementNode → List SettlementNode
each f [] = []
each f (n ∷ rest) = f n ∷ each f rest

abbrev pub only : String → (SettlementNode → SettlementNode) → SettlementNode → SettlementNode
only id f n = ite (str_dec n.id id) (f n) n

pub record NodeStatus : Type 0 where
  pub id : String
  pub is_leader : Bool
  pub crashed : Bool
  pub log_size : ℕ
  pub commit_idx : ℕ

pub record ClusterStatus : Type 0 where
  pub leader_id : String
  pub nodes : List NodeStatus

unfoldable pub node_status : SettlementNode → NodeStatus
node_status n = record {
  id = n.id;
  is_leader = n.is_leader;
  crashed = n.crashed;
  log_size = length n.log;
  commit_idx = n.commit_idx;
}

abbrev pub statuses : List SettlementNode → List NodeStatus
statuses [] = []
statuses (n ∷ rest) = node_status n ∷ statuses rest

-- `GetStatus`
unfoldable pub get_status : Cluster → ClusterStatus
get_status c = record { leader_id = c.leader_id; nodes = statuses c.nodes }

unfoldable pub new_node : String → Bool → SettlementNode
new_node id is_leader = record {
  id = id;
  is_leader = is_leader;
  crashed = false;
  log = [];
  commit_idx = 0;
}

-- `NewCluster`
unfoldable pub new_cluster : Cluster
unfolding new_node
new_cluster = record {
  nodes = new_node "node-a" true ∷ new_node "node-b" false ∷ new_node "node-c" false ∷ [];
  leader_id = "node-a";
  elections = 0;
  in_flight = [];
}

-- `nil_leader` is the panic of a map without the leader's id.
pub data Outcome : Type 0 where
  committed unavailable cancelled no_quorum nil_leader : Outcome

-- The leader's own append.
unfoldable pub append_entry : String → SettlementNode → SettlementNode
append_entry cmd n = record n { log = n.log ++ (cmd ∷ []) }

-- What the goroutine of one follower does.
unfoldable pub follow : String → String → ℕ → SettlementNode → SettlementNode
follow leader_id cmd log_idx n =
    ite (str_dec n.id leader_id) n
      (if n.crashed then n else record n { log = n.log ++ (cmd ∷ []); commit_idx = log_idx })

-- The followers that acknowledge.
unfoldable pub follower_acks : String → List SettlementNode → ℕ
follower_acks leader_id [] = 0
follower_acks leader_id (n ∷ rest) =
    let acks = follower_acks leader_id rest in
    ite (str_dec n.id leader_id) acks (if n.crashed then acks else suc acks)

unfoldable pub set_commit : ℕ → SettlementNode → SettlementNode
set_commit log_idx n = record n { commit_idx = log_idx }

-- The leader's log and those of the followers that run, with the new entry.
unfoldable pub replicate : String → ℕ → Cluster → Cluster
unfolding append_entry follow
replicate cmd log_idx c = record c {
  nodes =
      each (follow c.leader_id cmd log_idx) (each (only c.leader_id (append_entry cmd)) c.nodes);
}

-- The quorum is two of three nodes, the leader included.
unfoldable pub check_quorum : ℕ → ℕ → Cluster → Outcome × Cluster
unfolding set_commit
check_quorum acks log_idx c =
    if leb 2 acks
    then (committed, record c { nodes = each (only c.leader_id (set_commit log_idx)) c.nodes })
    else (no_quorum, c)

-- The goroutines of a proposal, one for each follower.
unfoldable pub pending_appends : String → String → ℕ → List SettlementNode → List Append
pending_appends leader_id cmd log_idx [] = []
pending_appends leader_id cmd log_idx (n ∷ rest) =
    let others = pending_appends leader_id cmd log_idx rest in
    ite (str_dec n.id leader_id) others
      (record { target = n.id; cmd = cmd; log_idx = log_idx } ∷ others)

-- The leader has appended, and no goroutine has run yet.
unfoldable pub start_replication : String → ℕ → Cluster → Cluster
unfolding append_entry pending_appends
start_replication cmd log_idx c = record c {
  nodes = each (only c.leader_id (append_entry cmd)) c.nodes;
  in_flight = c.in_flight ++ pending_appends c.leader_id cmd log_idx c.nodes;
}

unfoldable pub late_append : Append → SettlementNode → SettlementNode
late_append a n =
    if n.crashed then n else record n { log = n.log ++ (a.cmd ∷ []); commit_idx = a.log_idx }

-- A goroutine of a call that has returned does its append; `rest` are the others.
unfoldable pub land : Append → List Append → Cluster → Cluster
unfolding late_append
land a rest c = record c { nodes = each (only a.target (late_append a)) c.nodes; in_flight = rest }

-- When the context ends first, the call returns while the goroutines of the followers wait; each
-- of them appends later, or at once, as a step of its own.
unfoldable pub propose_to : Bool → String → SettlementNode → Cluster → Outcome × Cluster
unfolding replicate start_replication check_quorum follower_acks
propose_to is_done cmd leader c =
    if leader.crashed || not leader.is_leader
    then (unavailable, c)
    else (if is_done
        then (cancelled, start_replication cmd (length leader.log) c)
        else check_quorum (1 + follower_acks c.leader_id c.nodes) (length leader.log)
            (replicate cmd (length leader.log) c))

-- `ProposeCommand`; `is_done` says that the context ends before the replication.
unfoldable pub propose_command : Bool → String → Cluster → Outcome × Cluster
unfolding propose_to
propose_command is_done cmd c = elim (find node_key c.leader_id c.nodes) [
  | none ↦ (nil_leader, c)
  | some leader ↦ propose_to is_done cmd leader c
]

unfoldable pub set_crashed : Bool → SettlementNode → SettlementNode
set_crashed b n = record n { crashed = b }

-- `CrashNode`
unfoldable pub crash_node : String → Cluster → Cluster
unfolding set_crashed
crash_node id c =
    if exists node_key id c.nodes
    then record c {
      nodes = each (only id (set_crashed true)) c.nodes;
      elections = ite (str_dec id c.leader_id) (suc c.elections) c.elections;
    }
    else c

unfoldable pub sync_from : SettlementNode → SettlementNode → SettlementNode
sync_from leader n = record n { log = leader.log; commit_idx = leader.commit_idx }

unfoldable pub sync_with : String → Cluster → Option SettlementNode → Cluster
unfolding sync_from
sync_with id c none = c
sync_with id c (some leader) = record c { nodes = each (only id (sync_from leader)) c.nodes }

-- `RecoverNode`
unfoldable pub recover_node : String → Cluster → Cluster
unfolding set_crashed sync_with
recover_node id c =
    if exists node_key id c.nodes
    then (let c' = record c { nodes = each (only id (set_crashed false)) c.nodes } in
        sync_with id c' (find node_key c.leader_id c'.nodes))
    else c

-- `maxLogSize` is that of the best candidate so far, or -1.
unfoldable pub exceeds : SettlementNode → Option SettlementNode → Bool
exceeds n none = true
exceeds n (some best) = ltb (length best.log) (length n.log)

unfoldable pub better : Option SettlementNode → Option SettlementNode → Option SettlementNode
unfolding exceeds
better best none = best
better best (some n) = if n.crashed || not (exceeds n best) then best else some n

-- The search over the map; the range statement visits the ids in an order of its own.
unfoldable pub best_candidate :
    List SettlementNode → List String → Option SettlementNode → Option SettlementNode
unfolding better
best_candidate nodes [] best = best
best_candidate nodes (id ∷ ids) best =
    best_candidate nodes ids (better best (find node_key id nodes))

unfoldable pub set_leader : Bool → SettlementNode → SettlementNode
set_leader b n = record n { is_leader = b }

unfoldable pub install : Option SettlementNode → Cluster → Cluster
unfolding set_leader
install none c = c
install (some best) c = record c {
  nodes = each (only best.id (set_leader true)) c.nodes;
  leader_id = best.id;
}

-- `runElection`
unfoldable pub run_election : List String → Cluster → Cluster
unfolding best_candidate set_leader install
run_election visit c =
    install (best_candidate c.nodes visit none)
      (record c { nodes = each (set_leader false) c.nodes })
