-- ===== src/Serverless/Quarantine.antt =====
-- pkg/serverless/member_quarantine.go: members whose records expired must shake hands again. The
-- set is a list without repetition, an absent map an empty one; Discovery.mu makes a call a step.
pub mod Memory
use lanet.Base.{
  ℕ, suc, ◌+◌, ◌≤◌, ◌<◌, ◌≡◌, ◌≢◌, refl, ap, ◌⊎◌, inl, inr, Bool, true, false, ◌||◌, not, List, [],
  ◌∷◌, arith, leb, if◌then◌else◌, length, filter, any, All, Text, text_eq, text_eq_refl, text_eq→eq,
  Bool-cases,
}

-- `expiredMemberLimit`.
abbrev pub expired_member_limit : ℕ
expired_member_limit = 4096

pub record MemberQuarantine : Type 0 where
  pub ids : List Text
  pub full : Bool

unfoldable pub contains_id : List Text → Text → Bool
contains_id ids id = any (λ other. text_eq other id) ids

-- `remember`.
unfoldable pub remember : MemberQuarantine → Text → MemberQuarantine
remember q id =
    if contains_id q.ids id
    then q
    else if leb expired_member_limit (length q.ids)
    then record { ids = q.ids; full = true }
    else record { ids = id ∷ q.ids; full = q.full }

-- `requiresHandshake`.
unfoldable pub requires_handshake : MemberQuarantine → Text → Bool
requires_handshake q id = q.full || contains_id q.ids id

-- `verified`.
unfoldable pub verified : MemberQuarantine → Text → MemberQuarantine
verified q id = record { ids = filter (λ other. not (text_eq other id)) q.ids; full = q.full }

pub data Call : Type 0 where
  remembers : Text → Call
  verifies : Text → Call

unfoldable pub step : MemberQuarantine → Call → MemberQuarantine
step q (remembers id) = remember q id
step q (verifies id) = verified q id

unfoldable pub run : MemberQuarantine → List Call → MemberQuarantine
run q [] = q
run q (c ∷ calls) = run (step q c) calls

abbrev pub empty_quarantine : MemberQuarantine
empty_quarantine = record { ids = []; full = false }
