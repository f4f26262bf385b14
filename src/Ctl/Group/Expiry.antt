-- ===== src/Ctl/Group/Expiry.antt =====
-- When an invite code runs out: the expiry that a reset asks for, and the test that a join makes.
use lanet.Base.{
  zero, suc, ◌^◌, ◌≤◌, Time, pos, negsuc, pos_part, neg_part, scale, wrap_int64-in, ◌+ℤ◌, ◌≤ℤ◌,
  ◌<ℤ◌, ◌≡◌, ◌≢◌, refl, ap, subst, ◌⊎◌, true, false, Option, none, some, arith,
}
use lanet.Ctl.Group.Methods.{has_expired, expiry}

-- A number of seconds, of either sign, that a `time.Duration` can hold.
abbrev pub FitsDuration : Time → Type 0
FitsDuration v = (pos_part v ≤ 9223372036) × (neg_part v ≤ 9223372036)

-- The expiry of a code that is asked for `v` seconds at the time `now`.
abbrev pub IsExpiry : Time → Time → Option Time → Type 0
IsExpiry now v none = v ≡ pos 0
IsExpiry now v (some t) = (v ≢ pos 0) × (t ≡ now +ℤ scale (10 ^ 9) v)

pub expiry-IsExpiry : (now v : Time) → FitsDuration v → IsExpiry now v (expiry now v)
expiry-IsExpiry now (pos zero) fits = refl
expiry-IsExpiry now (pos (suc n)) fits = (
  (λ e. cc),
  ap (λ d. now +ℤ d) (wrap_int64-in (scale (10 ^ 9) (pos (suc n))) (ground arith) (ground arith)),
)
expiry-IsExpiry now (negsuc n) fits = (
  (λ e. cc),
  ap (λ d. now +ℤ d) (wrap_int64-in (scale (10 ^ 9) (negsuc n)) (ground arith) (ground arith)),
)

-- A code with this expiry is refused at that time.
abbrev pub IsPast : Option Time → Time → Type 0
IsPast none now = ⊥
IsPast (some t) now = t <ℤ now

-- A code with this expiry is still good at that time.
abbrev pub IsGood : Option Time → Time → Type 0
IsGood none now = Unit {0}
IsGood (some t) now = now ≤ℤ t

pub has_expired-IsPast : (e : Option Time) (now : Time) → has_expired e now ≡ true → IsPast e now
has_expired-IsPast none now h = cc
has_expired-IsPast (some t) now h = ground arith

pub has_expired-IsGood : (e : Option Time) (now : Time) → has_expired e now ≡ false → IsGood e now
has_expired-IsGood none now h = tt
has_expired-IsGood (some t) now h = ground arith

-- What holds past an expiry, and what else, in terms of the deadline.
pub by_deadline :
    (e : Option Time) (now v later : Time) (A B : Type 0)
    → IsExpiry now v e
    → v ≢ pos 0
    → (IsPast e later × A) ⊎ (IsGood e later × B)
    → ((now +ℤ scale (10 ^ 9) v <ℤ later) × A) ⊎ ((later ≤ℤ now +ℤ scale (10 ^ 9) v) × B)
by_deadline none now v later A B e timed h = absurd (timed e)
by_deadline (some t) now v later A B (timed', e) timed h =
    subst (λ d. ((d <ℤ later) × A) ⊎ ((later ≤ℤ d) × B)) e h
