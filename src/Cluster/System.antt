-- ===== src/Cluster/System.antt =====
-- The steps of the cluster: the calls, one after the other, and the elections that a crash of the
-- leader has started. The abstract view of it is one log, that of the node under the leader's id.
use offline_pay.Prelude.{
  ◌-◌, ◌<◌, String, ◌≡◌, true, false, Option, none, some, List, [], ◌∷◌, ◌++◌,
}
use offline_pay.Database.{find}
use offline_pay.Cluster.Nodes.{
  SettlementNode, Cluster, Append, node_key, propose_command, land, crash_node, recover_node,
  run_election,
}

-- One of the elections that wait.
unfoldable pub elect : List String → Cluster → Cluster
elect visit c = record (run_election visit c) { elections = c.elections - 1 }

-- The steps while no context ends before its replication. `visit` is the order in which the range
-- statement of the election meets the ids.
pub data Step (c : Cluster) : Cluster → Type 0 where
  propose : (cmd : String) → Step c (propose_command false cmd c).1
  crash : (id : String) → Step c (crash_node id c)
  recover : (id : String) → Step c (recover_node id c)
  election : (visit : List String) → 0 < c.elections → Step c (elect visit c)

-- All steps: a proposal may be cancelled, and its followers append later, in any order.
pub data AnyStep (c : Cluster) : Cluster → Type 0 where
  step : {d : Cluster} → Step c d → AnyStep c d
  cancel : (cmd : String) → AnyStep c (propose_command true cmd c).1
  late :
      (before after : List Append) (a : Append)
      → c.in_flight ≡ before ++ (a ∷ after)
      → AnyStep c (land a (before ++ after) c)

pub data Reach (c : Cluster) : Cluster → Type 0 where
  here : Reach c c
  then_step : {d e : Cluster} → Reach c d → Step d e → Reach c e

pub data AnyReach (c : Cluster) : Cluster → Type 0 where
  start : AnyReach c c
  then_any : {d e : Cluster} → AnyReach c d → AnyStep d e → AnyReach c e

abbrev pub log_of : Option SettlementNode → List String
log_of none = []
log_of (some n) = n.log

unfoldable pub leader_log : Cluster → List String
leader_log c = log_of (find node_key c.leader_id c.nodes)

-- What the cluster promises: a log that stays, or gains one command.
pub data LogStep (log : List String) : List String → Type 0 where
  stays : LogStep log log
  gains : (cmd : String) → LogStep log (log ++ (cmd ∷ []))
