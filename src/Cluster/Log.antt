-- ===== src/Cluster/Log.antt =====
-- What sequences of steps keep. While no proposal is cancelled, the nodes that run share one log,
-- and it only grows.
use offline_pay.Prelude.{
  arith, String, ◌≡◌, refl, ◌≢◌, Bool, true, false, some, List, [], ◌∷◌, ◌++◌, subst, sym, ◌⊎◌, inl,
  inr,
}
use mathlib.Core.List.{append-nil, append_assoc}
use offline_pay.Database.{find}
use offline_pay.Cluster.Nodes.{
  SettlementNode, Cluster, Append, node_key, only, land, late_append, propose_command, Outcome,
  committed, unavailable, nil_leader, new_cluster,
}
use offline_pay.Cluster.Search.{Every-find}
use offline_pay.Cluster.System.{elect, Step, AnyStep, Reach, AnyReach, leader_log, LogStep}
use offline_pay.Cluster.Change.{
  Agrees, HasLeader, each-HasLeader, IsConsistent, new_cluster-IsConsistent, Kept,
}
use offline_pay.Cluster.Propose.{
  propose_command-Kept, propose_command-log, propose_command-HasLeader,
}
use offline_pay.Cluster.Failover.{
  crash_node-Kept, recover_node-Kept, run_election-Kept, crash_node-HasLeader,
  recover_node-HasLeader, run_election-HasLeader,
}

-- Every step keeps the nodes consistent, and the leader's log stays or gains one command.
Step-Kept : {c d : Cluster} → IsConsistent c → Step c d → Kept c d
unfolding elect
Step-Kept {c} v (Step.propose cmd) = propose_command-Kept cmd c v
Step-Kept {c} v (Step.crash id) = crash_node-Kept id c v
Step-Kept {c} v (Step.recover id) = recover_node-Kept id c v
Step-Kept {c} v (Step.election visit h) = run_election-Kept c v visit

land-HasLeader :
    (a : Append) (rest : List Append) (c : Cluster) → HasLeader c → HasLeader (land a rest c)
unfolding land late_append
land-HasLeader a rest c v =
    each-HasLeader (only a.target (late_append a)) c (land a rest c) v (λ n. ground arith)
      (λ n h. ground arith) refl refl

Step-HasLeader : {c d : Cluster} → HasLeader c → Step c d → HasLeader d
unfolding elect
Step-HasLeader {c} v (Step.propose cmd) = propose_command-HasLeader false cmd c v
Step-HasLeader {c} v (Step.crash id) = crash_node-HasLeader id c v
Step-HasLeader {c} v (Step.recover id) = recover_node-HasLeader id c v
Step-HasLeader {c} v (Step.election visit h) = run_election-HasLeader c v visit

pub reach-HasLeader : {c d : Cluster} → HasLeader c → AnyReach c d → HasLeader d
reach-HasLeader v AnyReach.start = v
reach-HasLeader v (AnyReach.then_any r (AnyStep.step s)) = Step-HasLeader (reach-HasLeader v r) s
reach-HasLeader v (AnyReach.then_any {d} r (AnyStep.cancel cmd)) =
    propose_command-HasLeader true cmd d (reach-HasLeader v r)
reach-HasLeader v (AnyReach.then_any {d} r (AnyStep.late before after a e)) =
    land-HasLeader a (before ++ after) d (reach-HasLeader v r)

pub reach-IsConsistent : {c d : Cluster} → IsConsistent c → Reach c d → IsConsistent d
reach-IsConsistent v Reach.here = v
reach-IsConsistent v (Reach.then_step r s) = (Step-Kept (reach-IsConsistent v r) s).0

-- From the new cluster on, while every proposal waits for its replication and whatever the crashes,
-- recoveries and elections have been, each further step refines that of a single log: the log of the node under the leader's id stays,
-- or gains one command at its end.
pub Step-refines :
    {c d : Cluster} → Reach new_cluster c → Step c d → LogStep (leader_log c) (leader_log d)
Step-refines r s = (Step-Kept (reach-IsConsistent new_cluster-IsConsistent r) s).1

-- From the new cluster on, while every proposal waits for its replication, all nodes that run have
-- the same log, that of the node under the leader's id.
pub running_log :
    {c : Cluster} (id : String) (n : SettlementNode)
    → Reach new_cluster c
    → find node_key id c.nodes ≡ some n
    → n.crashed ≡ false
    → n.log ≡ leader_log c
unfolding leader_log
running_log {c} id n r found up =
    let v = reach-IsConsistent new_cluster-IsConsistent r in
    rw v.has.found (Every-find (Agrees v.has.leader.log) id c.nodes n v.agree found up)

step-prefix :
    (log log' : List String) → LogStep log log' → (rest : List String) × (log' ≡ log ++ rest)
step-prefix log _ LogStep.stays = ([], sym (append-nil log))
step-prefix log _ (LogStep.gains cmd) = (cmd ∷ [], refl)

reach-prefix :
    {c d : Cluster}
    → IsConsistent c
    → Reach c d
    → (rest : List String) × (leader_log d ≡ leader_log c ++ rest)
reach-prefix {c} v Reach.here = ([], sym (append-nil (leader_log c)))
reach-prefix {c} v (Reach.then_step {d} {e} r s) =
    let (rest, h) = reach-prefix v r in
    let (more, k) =
      step-prefix (leader_log d) (leader_log e) (Step-Kept (reach-IsConsistent v r) s).1 in
    (rest ++ more, rw (k, h) (append_assoc (leader_log c) rest more))

-- From the new cluster on, while every proposal waits for its replication, a command that a proposal
-- has committed is never lost: after any further proposals, crashes, recoveries and elections it stands at its place in the log of the node under
-- the leader's id.
pub committed_stays :
    {c d e : Cluster} (cmd : String)
    → Reach new_cluster c
    → propose_command false cmd c ≡ (committed, d)
    → Reach d e
    → (rest : List String) × (leader_log e ≡ leader_log c ++ (cmd ∷ rest))
committed_stays {c} {d} {e} cmd r h later =
    let v = reach-IsConsistent new_cluster-IsConsistent r in
    let kept = propose_command-Kept cmd c v in
    let v' : IsConsistent d = subst (λ (x : Outcome × Cluster). IsConsistent x.1) h kept.0 in
    let (rest, k) = reach-prefix v' later in
    elim (propose_command-log false cmd c d committed v.has h) [
      | inl (p, _) ↦ absurd (cc)
      | inr (_, _, p) ↦ (rest, rw (k, p) (append_assoc (leader_log c) (cmd ∷ []) rest))
    ]

-- From the new cluster on, cancelled proposals and late appends included, a proposal either finds no leader, is refused and changes nothing, or
-- appends its command once to the log of the node under the leader's id, also when it then reports
-- that the context has ended or that there was no quorum; it never panics for lack of a node.
pub propose_command-appends :
    {c d : Cluster} (is_done : Bool) (cmd : String) (o : Outcome)
    → AnyReach new_cluster c
    → propose_command is_done cmd c ≡ (o, d)
    → ((o ≡ unavailable) × (d ≡ c))
      ⊎ ((o ≢ unavailable) × (o ≢ nil_leader) × (leader_log d ≡ leader_log c ++ (cmd ∷ [])))
propose_command-appends {c} {d} is_done cmd o r h =
    propose_command-log is_done cmd c d o (reach-HasLeader new_cluster-IsConsistent.has r) h
