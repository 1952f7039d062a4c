-- ===== src/Cluster/Propose.antt =====
-- `ProposeCommand` keeps the nodes consistent.
use offline_pay.Prelude.{
  length, ℕ, ◌+◌, String, ◌≡◌, refl, ◌≢◌, Bool, true, false, not, ◌||◌, [], ◌∷◌, ◌++◌, arith, subst,
  sym, ◌∙◌, ◌⊎◌, inl, inr, leb, if◌then◌else◌, Bool-cases,
}
use offline_pay.Database.{find-key}
use offline_pay.Cluster.Nodes.{
  SettlementNode, Cluster, node_key, each, only, append_entry, follow, set_commit, replicate,
  start_replication, check_quorum, propose_to, propose_command, follower_acks, Outcome, unavailable,
  cancelled, nil_leader,
}
use offline_pay.Cluster.Search.{find-each}
use offline_pay.Cluster.System.{leader_log, LogStep, gains}
use offline_pay.Cluster.Change.{
  Agrees, HasLeader, each-HasLeader, IsConsistent, each-IsConsistent, Kept, each-Kept, same-Kept,
  each-each,
}

-- What a proposal does to a node, without and with the leader's commit.
abbrev extend : String → String → ℕ → SettlementNode → SettlementNode
extend leader_id cmd idx n = follow leader_id cmd idx (only leader_id (append_entry cmd) n)

module _ (c : Cluster) (v : HasLeader c) (cmd : String) (idx : ℕ) where
  own_id : v.leader.id ≡ c.leader_id
  own_id = find-key node_key c.leader_id c.nodes v.leader v.found

  pub extend-leader : (extend c.leader_id cmd idx v.leader).log ≡ v.leader.log ++ (cmd ∷ [])
  unfolding follow append_entry
  extend-leader = ground (arith, own_id)

  extend-Agrees :
      v.leader.crashed ≡ false
      → (n : SettlementNode) → Agrees v.leader.log n
      → Agrees (extend c.leader_id cmd idx v.leader).log (extend c.leader_id cmd idx n)
  unfolding follow append_entry
  extend-Agrees up n h = ground (arith, own_id)

  replicate-nodes : (replicate cmd idx c).nodes ≡ each (extend c.leader_id cmd idx) c.nodes
  unfolding replicate append_entry follow
  replicate-nodes =
      each-each (only c.leader_id (append_entry cmd)) (follow c.leader_id cmd idx) c.nodes

  pub replicate-HasLeader : HasLeader (replicate cmd idx c)
  unfolding replicate follow append_entry
  replicate-HasLeader =
      each-HasLeader (extend c.leader_id cmd idx) c (replicate cmd idx c) v (λ n. ground arith)
        (λ n h. ground arith) replicate-nodes refl

pub replicate-Kept :
    (c : Cluster) (v : IsConsistent c) (cmd : String) (idx : ℕ)
    → v.has.leader.crashed ≡ false
    → Kept c (replicate cmd idx c)
unfolding replicate follow append_entry
replicate-Kept c v cmd idx up =
    each-Kept (extend c.leader_id cmd idx) c (replicate cmd idx c) v (λ n. ground arith)
      (extend-Agrees c v.has cmd idx up) (λ n h. ground arith)
      (rw (extend-leader c v.has cmd idx) (gains cmd)) (replicate-nodes c v.has cmd idx) refl

commit_own : ℕ → Cluster → Cluster
unfolding set_commit
commit_own idx c = record c { nodes = each (only c.leader_id (set_commit idx)) c.nodes }

-- The leader's commit index changes no log.
commit_own-log :
    (idx : ℕ) (c : Cluster)
    → HasLeader c
    → HasLeader (commit_own idx c) × (leader_log (commit_own idx c) ≡ leader_log c)
unfolding commit_own set_commit leader_log
commit_own-log idx c v =
    let f : SettlementNode → SettlementNode = only c.leader_id (set_commit idx) in
    let same : (n : SettlementNode) → (f n).id ≡ n.id = λ n. ground arith in
    (
      each-HasLeader f c (commit_own idx c) v same (λ n h. ground arith) refl refl,
      rw (v.found, find-each f same c.leader_id c.nodes v.leader v.found) (ground arith),
    )

commit_own-Kept :
    (idx : ℕ) (c : Cluster)
    → IsConsistent c
    → IsConsistent (commit_own idx c) × (leader_log (commit_own idx c) ≡ leader_log c)
unfolding commit_own set_commit
commit_own-Kept idx c v = (
  each-IsConsistent (only c.leader_id (set_commit idx)) c (commit_own idx c) v (λ n. ground arith)
      (λ n h. ground arith) (λ n h. ground arith) refl refl,
  (commit_own-log idx c v.has).1,
)

check_quorum-Kept : (acks idx : ℕ) (c d : Cluster) → Kept c d → Kept c (check_quorum acks idx d).1
unfolding check_quorum commit_own
check_quorum-Kept acks idx c d (v, grows) = elim (Bool-cases (leb 2 acks)) [
  | inl e ↦
      let (v', same) = commit_own-Kept idx d v in
      rw e (v', subst (λ l. LogStep (leader_log c) l) (sym same) grows)
  | inr e ↦ rw e (v, grows)
]

propose_to-Kept :
    (cmd : String) (c : Cluster) (v : IsConsistent c)
    → Kept c (propose_to false cmd v.has.leader c).1
unfolding propose_to
propose_to-Kept cmd c v =
    let leader = v.has.leader in
    elim (Bool-cases (leader.crashed || not leader.is_leader)) [
      | inl e ↦ rw e (same-Kept c v)
      | inr e ↦ rw e (
          check_quorum-Kept (1 + follower_acks c.leader_id c.nodes) (length leader.log) c
            (replicate cmd (length leader.log) c)
            (replicate-Kept c v cmd (length leader.log) (ground arith)))
    ]

pub propose_command-leader :
    (is_done : Bool) (cmd : String) (c : Cluster) (v : HasLeader c)
    → propose_command is_done cmd c ≡ propose_to is_done cmd v.leader c
unfolding propose_command
propose_command-leader is_done cmd c v = ground (arith, v.found)

pub propose_command-Kept :
    (cmd : String) (c : Cluster) → IsConsistent c → Kept c (propose_command false cmd c).1
propose_command-Kept cmd c v =
    subst (λ (r : Outcome × Cluster). Kept c r.1) (sym (propose_command-leader false cmd c v.has))
      (propose_to-Kept cmd c v)

module _ (cmd : String) (idx : ℕ) (c : Cluster) (v : HasLeader c) where
  replicate-log : leader_log (replicate cmd idx c) ≡ leader_log c ++ (cmd ∷ [])
  unfolding leader_log replicate append_entry follow
  replicate-log =
      let f : SettlementNode → SettlementNode = extend c.leader_id cmd idx in
      let nodes =
        each-each (only c.leader_id (append_entry cmd)) (follow c.leader_id cmd idx) c.nodes in
      let found = find-each f (λ n. ground arith) c.leader_id c.nodes v.leader v.found in
      rw (nodes, found, v.found) (extend-leader c v cmd idx)

  start_replication-nodes :
      ((start_replication cmd idx c).nodes ≡ each (only c.leader_id (append_entry cmd)) c.nodes)
      × ((start_replication cmd idx c).leader_id ≡ c.leader_id)
  unfolding start_replication append_entry
  start_replication-nodes = (refl, refl)

  pub start_replication-HasLeader : HasLeader (start_replication cmd idx c)
  unfolding append_entry
  start_replication-HasLeader =
      let (nodes, same) = start_replication-nodes in
      each-HasLeader (only c.leader_id (append_entry cmd)) c (start_replication cmd idx c) v
        (λ n. ground arith) (λ n h. ground arith) nodes same

  start_replication-log : leader_log (start_replication cmd idx c) ≡ leader_log c ++ (cmd ∷ [])
  unfolding leader_log append_entry
  start_replication-log =
      let f : SettlementNode → SettlementNode = only c.leader_id (append_entry cmd) in
      let (nodes, same) = start_replication-nodes in
      let found = find-each f (λ n. ground arith) c.leader_id c.nodes v.leader v.found in
      let own = find-key node_key c.leader_id c.nodes v.leader v.found in
      rw (nodes, same, found, v.found) (ground (arith, own))

  check_quorum-log :
      (acks : ℕ)
      → leader_log (check_quorum acks idx (replicate cmd idx c)).1 ≡ leader_log c ++ (cmd ∷ [])
  unfolding check_quorum commit_own
  check_quorum-log acks =
      let kept = replicate-HasLeader c v cmd idx in
      elim (Bool-cases (leb 2 acks)) [
        | inl e ↦ rw e ((commit_own-log idx (replicate cmd idx c) kept).1 ∙ replicate-log)
        | inr e ↦ rw e replicate-log
      ]

  Ended : Outcome × Cluster → Type 0
  Ended r = (r.0 ≢ unavailable) × (r.0 ≢ nil_leader) × (leader_log r.1 ≡ leader_log c ++ (cmd ∷ []))

  check_quorum-outcome :
      (acks : ℕ) (d : Cluster)
      → ((check_quorum acks idx d).0 ≢ unavailable) × ((check_quorum acks idx d).0 ≢ nil_leader)
  unfolding check_quorum
  check_quorum-outcome acks d = (λ h. ground arith, λ h. ground arith)

  replicated-Ended :
      (is_done : Bool) (acks : ℕ)
      → Ended (
          if is_done
          then (cancelled, start_replication cmd idx c)
          else check_quorum acks idx (replicate cmd idx c))
  unfolding Ended
  replicated-Ended true acks = (λ h. cc, λ h. cc, start_replication-log)
  replicated-Ended false acks =
      let (a, b) = check_quorum-outcome acks (replicate cmd idx c) in (a, b, check_quorum-log acks)

-- A proposal is refused and changes nothing, or appends its command to the leader's log.
pub propose_command-log :
    (is_done : Bool) (cmd : String) (c d : Cluster) (o : Outcome)
    → HasLeader c
    → propose_command is_done cmd c ≡ (o, d)
    → ((o ≡ unavailable) × (d ≡ c))
      ⊎ ((o ≢ unavailable) × (o ≢ nil_leader) × (leader_log d ≡ leader_log c ++ (cmd ∷ [])))
unfolding propose_to Ended
propose_command-log is_done cmd c d o v h =
    let e : propose_to is_done cmd v.leader c ≡ (o, d) =
      sym (propose_command-leader is_done cmd c v) ∙ h in
    let idx : ℕ = length v.leader.log in
    let acks : ℕ = 1 + follower_acks c.leader_id c.nodes in
    elim (Bool-cases (v.leader.crashed || not v.leader.is_leader)) [
      | inl refused ↦ inl (ground arith)
      | inr accepted ↦
          let ended = replicated-Ended cmd idx c v is_done acks in
          inr (subst (λ (r : Outcome × Cluster). Ended cmd idx c v r) (ground arith) ended)
    ]

check_quorum-HasLeader :
    (acks idx : ℕ) (d : Cluster) → HasLeader d → HasLeader (check_quorum acks idx d).1
unfolding check_quorum commit_own
check_quorum-HasLeader acks idx d v = elim (Bool-cases (leb 2 acks)) [
  | inl e ↦ rw e ((commit_own-log idx d v).0)
  | inr e ↦ rw e v
]

propose_to-HasLeader :
    (is_done : Bool) (cmd : String) (c : Cluster) (v : HasLeader c)
    → HasLeader (propose_to is_done cmd v.leader c).1
unfolding propose_to
propose_to-HasLeader is_done cmd c v =
    let idx : ℕ = length v.leader.log in
    elim (Bool-cases (v.leader.crashed || not v.leader.is_leader)) [
      | inl e ↦ rw e v
      | inr e ↦ elim (Bool-cases is_done) [
        | inl done ↦ rw (e, done) (start_replication-HasLeader cmd idx c v)
        | inr more ↦
            rw (e, more)
              (check_quorum-HasLeader (1 + follower_acks c.leader_id c.nodes) idx
                (replicate cmd idx c) (replicate-HasLeader c v cmd idx))
      ]
    ]

pub propose_command-HasLeader :
    (is_done : Bool) (cmd : String) (c : Cluster)
    → HasLeader c
    → HasLeader (propose_command is_done cmd c).1
propose_command-HasLeader is_done cmd c v =
    subst (λ (r : Outcome × Cluster). HasLeader r.1) (sym (propose_command-leader is_done cmd c v))
      (propose_to-HasLeader is_done cmd c v)
