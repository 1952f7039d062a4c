-- ===== src/Relay/Forward.antt =====
-- How often an envelope is forwarded, and when it is acknowledged.
use offline_pay.Prelude.{
  ℕ, zero, suc, ◌+◌, ◌≤◌, ◌<◌, ◌≡◌, refl, ap, arith, String, str_append, Bool, true, false, not,
  ◌&&◌, ◌==◌, Bool-cases, inl, inr,
}
use offline_pay.Prelude.Int.{ℤ, pos, pos_part, add64, wrap64, ◌+ℤ◌, leb_ℤ}
use offline_pay.Domain.{EncryptedEnvelope}
use offline_pay.Database.{World, Error, ok, err}
use offline_pay.Database.Rows.{result-cases}
use offline_pay.Relay.Service.{
  Client, Service, Forwarded, acked, nacked, panicked, first_backoff, note_status, try_settle,
  forward_loop, forward_with_retry,
}

-- The backoff after so many doublings.
backoff_at : ℕ → ℤ
backoff_at zero = first_backoff
backoff_at (suc k) = let b = backoff_at k in add64 b b

all_positive : ℕ → Bool
unfolding backoff_at
all_positive zero = true
all_positive (suc k) = not (leb_ℤ (backoff_at k) (pos 0)) && all_positive k

positive_below : (n k : ℕ) → all_positive n ≡ true → k < n → leb_ℤ (backoff_at k) (pos 0) ≡ false
unfolding all_positive
positive_below zero k h lt = absurd (omega (arith, lt))
positive_below (suc n) k h lt = elim (Bool-cases (k == n)) [
  | inl e ↦ ground (arith, e)
  | inr ne ↦ positive_below n k (ground arith) (ground (arith, ne))
]

-- It overflows at the 37th doubling.
all_positive_37 : all_positive 37 ≡ true
unfolding all_positive backoff_at add64 wrap64 ◌+ℤ◌
all_positive_37 = refl

overflows : leb_ℤ (backoff_at 37) (pos 0) ≡ true
unfolding backoff_at add64 wrap64 ◌+ℤ◌
overflows = refl

backoff_at-over : (k : ℕ) → k ≤ 37 → leb_ℤ (backoff_at k) (pos 0) ≡ true → k ≡ 37
backoff_at-over k le h = ground (arith, positive_below 37 k all_positive_37)

backoff_at-fine : (k : ℕ) → k ≤ 37 → leb_ℤ (backoff_at k) (pos 0) ≡ false → suc k ≤ 37
backoff_at-fine k le h = elim (Bool-cases (k == 37)) [
  | inl e ↦ ground (arith, e, overflows)
  | inr ne ↦ ground (arith, ne)
]

module _ (client : Client) (s : Service) (env : EncryptedEnvelope) (hop_count : ℤ) where
  -- So many attempts fail, one after the other.
  pub data Failing (w : World) : ℕ → World → Type 0 where
    no_attempt : Failing w zero w
    one_more :
        {n : ℕ} {w1 w2 : World} (e : Error)
        → Failing w n w1
        → try_settle client s env hop_count w1 ≡ (err e, w2)
        → Failing w (suc n) w2

  -- What the result of a forwarding says of its attempts, and the status that it records last.
  abbrev pub Explains : World → ℕ → Forwarded → World → Type 0
  Explains w limit (acked status n) w' =
      (k : ℕ) × (n ≡ suc k)
      × (n ≤ limit)
      × ((w1 : World) × (w2 : World) × Failing w k w1
          × (try_settle client s env hop_count w1 ≡ (ok status, w2))
          × (w' ≡ (note_status s env hop_count (str_append "ACK_" status) w2).1))
  Explains w limit (nacked zero) w' = (limit ≡ 0) × (w' ≡ w)
  Explains w limit (nacked (suc n)) w' =
      (limit ≡ suc n)
      × ((w1 : World) × Failing w (suc n) w1
          × (w' ≡ (note_status s env hop_count "NACK_FAILED" w1).1))
  Explains w limit (panicked n) w' = (n ≡ 38) × (38 < limit) × Failing w n w'

  Ends : ℕ → ℕ → ℤ → World → World → ℕ → Type 0
  Ends left number backoff w w0 limit =
      (r : Forwarded) × (w' : World) × (forward_loop client s env hop_count left number backoff w
        ≡ (ok r, w'))
      × Explains w0 limit r w'

  acknowledged :
      (left k : ℕ) (w0 w w1 : World) (limit : ℕ) (status : String)
      → Failing w0 k w
      → suc k ≤ limit
      → try_settle client s env hop_count w ≡ (ok status, w1)
      → Ends (suc left) (suc k) (backoff_at k) w w0 limit
  unfolding forward_loop Ends
  acknowledged left k w0 w w1 limit status f le h = (
    acked status (suc k),
    (note_status s env hop_count (str_append "ACK_" status) w1).1,
    rw h refl,
    (k, refl, le, (w, w1, f, h, refl)),
  )

  looped :
      (left k : ℕ) (w0 w : World) (limit : ℕ)
      → Failing w0 k w
      → suc left + k ≡ limit
      → k ≤ 37
      → Ends (suc left) (suc k) (backoff_at k) w w0 limit
  unfolding forward_loop Ends backoff_at
  looped zero k w0 w limit f e small =
      result-cases (try_settle client s env hop_count w)
        (λ status w1 h. acknowledged zero k w0 w w1 limit status f (omega (arith, e)) h)
        (λ x w1 h. (
          nacked (suc k),
          (note_status s env hop_count "NACK_FAILED" w1).1,
          rw h refl,
          (omega (arith, e), (w1, Failing.one_more x f h, refl)),
        ))
  looped (suc left) k w0 w limit f e small =
      result-cases (try_settle client s env hop_count w)
        (λ status w1 h. acknowledged (suc left) k w0 w w1 limit status f (omega (arith, e)) h)
        (λ x w1 h. elim (Bool-cases (leb_ℤ (backoff_at k) (pos 0))) [
          | inl over ↦
              let last : k ≡ 37 = backoff_at-over k small over in
              (
                panicked (suc k),
                w1,
                rw (h, over) refl,
                (ap suc last, omega (arith, e, last), Failing.one_more x f h),
              )
          | inr fine ↦
              let (r, w', run, why) =
                looped left (suc k) w0 w1 limit (Failing.one_more x f h) (omega (arith, e))
                  (backoff_at-fine k small fine) in
              (r, w', rw (h, fine) run, why)
        ])

  -- A forwarding ends in one of three ways: acknowledged with the status of the first attempt that
  -- succeeds, all before it having failed and at most the retry limit of attempts in all, with that
  -- status recorded as ACK_; with a failure recorded as NACK_FAILED after exactly the retry limit
  -- of failed attempts; or, only if that limit is above 38, with a panic after 38 failed attempts,
  -- when the backoff has overflowed. With a limit of 0 or less nothing is tried.
  pub forward_with_retry-Explains :
      (w : World)
      → (r : Forwarded) × (w' : World) × (forward_with_retry client s env hop_count w ≡ (ok r, w'))
        × Explains w (pos_part s.retry_limit) r w'
  unfolding forward_with_retry Ends backoff_at
  forward_with_retry-Explains w = started (pos_part s.retry_limit)
    where
      started : (limit : ℕ) → Ends limit 1 first_backoff w w limit
      started zero = (nacked 0, w, refl, (refl, refl))
      started (suc left) =
          looped left 0 w w (suc left) Failing.no_attempt (omega arith) (omega arith)
