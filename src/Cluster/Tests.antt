-- ===== src/Cluster/Tests.antt =====
-- Runs of the cluster, and the theorems on them.
use offline_pay.Prelude.{
  String, ◌≡◌, refl, ◌≢◌, true, false, List, [], ◌∷◌, ◌++◌, arith, str_dec, Bool-cases, ◌⊎◌, inl,
  inr,
}
use text.Mathlib.TextEquality.{eq_iff}
use offline_pay.Cluster.Nodes.{
  SettlementNode, Cluster, new_cluster, new_node, propose_command, propose_to, replicate,
  check_quorum, follower_acks, append_entry, follow, set_commit, crash_node, set_crashed, committed,
  unavailable, nil_leader,
}
use offline_pay.Cluster.System.{Step, AnyStep, Reach, AnyReach, elect, leader_log, LogStep}
use offline_pay.Cluster.Log.{Step-refines, running_log, committed_stays, propose_command-appends}
use offline_pay.Cluster.Leader.{one_leader, no_election_after_recovery, recover_all}
use offline_pay.Cluster.Election.{election_accepts}

abbrev ids : List String
ids = "node-a" ∷ "node-b" ∷ "node-c" ∷ []

-- One command is committed, then the leader crashes.
abbrev paid : Cluster
paid = (propose_command false "pay" new_cluster).1

abbrev down : Cluster
down = crash_node "node-a" paid

abbrev failed_over : Cluster
failed_over = elect ids down

paid_reached : Reach new_cluster paid
paid_reached = Reach.then_step Reach.here (Step.propose "pay")

paid_any : AnyReach new_cluster paid
paid_any = AnyReach.then_any AnyReach.start (AnyStep.step (Step.propose "pay"))

down_reached : Reach paid down
down_reached = Reach.then_step Reach.here (Step.crash "node-a")

abbrev node_b : SettlementNode
node_b = record {
  id = "node-b";
  is_leader = false;
  crashed = false;
  log = "pay" ∷ [];
  commit_idx = 0;
}

abbrev node_a : SettlementNode
node_a = record node_b { id = "node-a"; is_leader = true }

Step-refines_example : LogStep (leader_log paid) (leader_log (crash_node "node-a" paid))
Step-refines_example = Step-refines paid_reached (Step.crash "node-a")

running_log_example : ◌≡◌ {A = List String} ("pay" ∷ []) (leader_log paid)
unfolding new_cluster new_node propose_command propose_to replicate check_quorum follower_acks
    append_entry follow set_commit str_dec Bool-cases
running_log_example = running_log "node-b" node_b paid_reached refl refl

committed_stays_example :
    (rest : List String) × (leader_log down ≡ leader_log new_cluster ++ ("pay" ∷ rest))
unfolding new_cluster new_node propose_command propose_to replicate check_quorum follower_acks
    append_entry follow set_commit str_dec Bool-cases
committed_stays_example = committed_stays "pay" Reach.here refl down_reached

propose_command-appends_example :
    ((committed ≡ unavailable) × (paid ≡ new_cluster))
    ⊎ ((committed ≢ unavailable)
        × (committed ≢ nil_leader)
        × (leader_log paid ≡ leader_log new_cluster ++ ("pay" ∷ [])))
unfolding new_cluster new_node propose_command propose_to replicate check_quorum follower_acks
    append_entry follow set_commit str_dec Bool-cases
propose_command-appends_example = propose_command-appends false "pay" committed AnyReach.start refl

one_leader_example : ◌≡◌ {A = String} "node-a" "node-a"
unfolding new_cluster new_node propose_command propose_to replicate check_quorum follower_acks
    append_entry follow set_commit str_dec Bool-cases
one_leader_example = one_leader "node-a" "node-a" node_a node_a paid_any refl refl refl refl

abbrev all_down : Cluster
all_down = crash_node "node-a" (crash_node "node-b" (crash_node "node-c" new_cluster))

all_down_reached : AnyReach new_cluster all_down
all_down_reached =
    AnyReach.then_any
      (AnyReach.then_any (AnyReach.then_any AnyReach.start (AnyStep.step (Step.crash "node-c")))
        (AnyStep.step (Step.crash "node-b")))
      (AnyStep.step (Step.crash "node-a"))

no_election_after_recovery_example :
    propose_command false "pay" (recover_all ids (elect ids all_down))
    ≡ (unavailable, recover_all ids (elect ids all_down))
unfolding new_cluster new_node crash_node set_crashed str_dec Bool-cases
no_election_after_recovery_example =
    no_election_after_recovery ids ids false "pay" all_down_reached (omega arith)
      (refl, (refl, (refl, tt)))

election_accepts_example : (propose_command false "again" failed_over).0 ≡ committed
unfolding new_cluster new_node propose_command propose_to replicate check_quorum follower_acks
    append_entry follow set_commit str_dec Bool-cases crash_node set_crashed
election_accepts_example =
    election_accepts down ids "again" "node-b" "node-c" node_b (record node_b { id = "node-c" })
      refl refl (λ h. cc ((eq_iff "node-b" "node-c").1 h)) refl refl (inr (inl refl))
