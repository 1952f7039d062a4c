-- ===== src/Token/Limit.antt =====
-- The bounds of an owner's credit limit (`ComputeOfflineCreditLimit` of internal/token/service.go).
use offline_pay.Prelude.{◌≡◌, refl, true, false, List, [], ◌∷◌, arith}
use offline_pay.Prelude.Int.{ℤ, pos, ◌≤ℤ◌}
use offline_pay.Domain.{Device, DeviceStatus}
use offline_pay.Token.Issue.{Standing, see, survey, limit_at, limit_of, limit_for, nothing_seen}

-- No device has a trust score above 1.
abbrev pub AllTrusted : List Device → Type 0
AllTrusted [] = Unit
AllTrusted (d ∷ devices) = (d.trust_score ≤ℤ pos 1000) × AllTrusted devices

see-bound :
    (status : DeviceStatus) (trust : ℤ) (s : Standing)
    → trust ≤ℤ pos 1000
    → s.best_trust_score ≤ℤ pos 1000
    → (see status trust s).best_trust_score ≤ℤ pos 1000
see-bound DeviceStatus.active trust s h b = ground arith
see-bound DeviceStatus.revoked trust s h b = b
see-bound DeviceStatus.compromised trust s h b = b
see-bound (DeviceStatus.other _) trust s h b = b

survey-bound :
    (devices : List Device) (s : Standing)
    → AllTrusted devices
    → s.best_trust_score ≤ℤ pos 1000
    → (survey s devices).best_trust_score ≤ℤ pos 1000
unfolding survey
survey-bound [] s all b = b
survey-bound (d ∷ devices) s (h, all) b =
    survey-bound devices (see d.status d.trust_score s) all (see-bound d.status d.trust_score s h b)

limit_at-bound : (t : ℤ) → t ≤ℤ pos 1000 → limit_at t ≤ℤ pos 5000
unfolding limit_at
limit_at-bound t h = ground arith

limit_at-nonneg : (t : ℤ) → pos 0 ≤ℤ limit_at t
unfolding limit_at
limit_at-nonneg t = ground arith

-- If no device has a trust score above 1, the credit limit is between 0 and 5000 cents.
pub limit_for-bounds :
    (devices : List Device)
    → AllTrusted devices
    → (pos 0 ≤ℤ limit_for devices) × (limit_for devices ≤ℤ pos 5000)
unfolding limit_for limit_of
limit_for-bounds [] all = (ground arith, ground arith)
limit_for-bounds (d ∷ devices) all =
    let b = limit_at-bound _ (survey-bound (d ∷ devices) nothing_seen all (ground arith)) in
    let n = limit_at-nonneg (survey nothing_seen (d ∷ devices)).best_trust_score in
    (ground arith, ground arith)

abbrev Withdrawn : DeviceStatus → Type 0
Withdrawn DeviceStatus.active = ⊥
Withdrawn DeviceStatus.revoked = Unit {0}
Withdrawn DeviceStatus.compromised = Unit {0}
Withdrawn (DeviceStatus.other _) = ⊥

-- Every device of the list is revoked or compromised.
abbrev pub AllWithdrawn : List Device → Type 0
AllWithdrawn [] = Unit
AllWithdrawn (d ∷ devices) = Withdrawn d.status × AllWithdrawn devices

see-inactive :
    (status : DeviceStatus) (trust : ℤ) (s : Standing)
    → Withdrawn status
    → s.has_active ≡ false
    → ((see status trust s).has_active ≡ false) × ((see status trust s).has_compromised ≡ true)
see-inactive DeviceStatus.active trust s h a = absurd h
see-inactive (DeviceStatus.other _) trust s h a = absurd h
see-inactive DeviceStatus.revoked trust s h a = (a, refl)
see-inactive DeviceStatus.compromised trust s h a = (a, refl)

survey-inactive :
    (devices : List Device) (s : Standing)
    → AllWithdrawn devices
    → s.has_active ≡ false
    → s.has_compromised ≡ true
    → ((survey s devices).has_active ≡ false) × ((survey s devices).has_compromised ≡ true)
unfolding survey
survey-inactive [] s none a c = (a, c)
survey-inactive (d ∷ devices) s (h, none) a c =
    let (a', c') = see-inactive d.status d.trust_score s h a in
    survey-inactive devices (see d.status d.trust_score s) none a' c'

-- An owner all of whose devices are revoked or compromised has no credit, however high their
-- trust scores are.
pub limit_for-inactive :
    (d : Device) (devices : List Device)
    → AllWithdrawn (d ∷ devices)
    → limit_for (d ∷ devices) ≡ pos 0
unfolding limit_for limit_of survey
limit_for-inactive d devices (h, none) =
    let (a', c') = see-inactive d.status d.trust_score nothing_seen h refl in
    let (a, c) = survey-inactive devices (see d.status d.trust_score nothing_seen) none a' c' in
    ground arith
