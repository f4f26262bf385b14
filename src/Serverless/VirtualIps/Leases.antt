-- ===== src/Serverless/VirtualIps/Leases.antt =====
-- The leases that the decision leaves: where each address comes from, and that a member who must
-- move has moved or is marked.
use lanet.Base.{
  ℕ, ◌≤◌, ◌≡◌, refl, ap, subst, ◌∙◌, inl, inr, Bool, true, false, ◌||◌, not, Option, none, some,
  List, [], ◌∷◌, arith, ◌==◌, if◌then◌else◌, All, Text, text_eq, text_eq→eq, text_eq_iff, Dict,
  lookup, insert, lookup-insert, has, Bool-cases,
}
use lanet.Serverless.VirtualIps.{
  salt_max, Lease, Pending, alter, picked, settled, grow, pick, reassign, base_lease, base_leases,
  set_losers,
}
use lanet.Serverless.VirtualIps.Moves.{lookup-alter, pick-free}
use lanet.Serverless.VirtualIps.Groups.{has_pending}

-- The member moved, or its conflict is marked.
unfoldable pub is_settled : Lease → Bool
is_settled lease = not (lease.salt == 0) || lease.unresolved

is_settled-settled : (base : Text) (lease : Lease) → is_settled (settled base lease) ≡ true
unfolding is_settled settled
is_settled-settled base lease = ground arith

-- A property of the lease at a key, when there is one.
abbrev pub At : Text → (Lease → Type 0) → Dict Lease → Type 0
At id P out = (lease : Lease) × (lookup id out ≡ some lease) × P lease

pub At-lookup :
    (P : Lease → Type 0) (id : Text) (out : Dict Lease) (lease : Lease)
    → lookup id out ≡ some lease
    → At id P out
    → P lease
At-lookup P id out lease e (found, at, h) = subst P (ground arith) h

At-alter :
    (P Q : Lease → Type 0) (id k : Text) (f : Lease → Lease) (out : Dict Lease)
    → ((lease : Lease) → k ≡ id → P lease → Q (f lease))
    → ((lease : Lease) → text_eq k id ≡ false → P lease → Q lease)
    → At id P out
    → At id Q (alter k f out)
At-alter P Q id k f out change keep (lease, e, h) = elim (Bool-cases (text_eq k id)) [
  | inl same ↦
      (f lease, lookup-alter k id f out ∙ rw (e, same) refl, change lease (text_eq→eq k id same) h)
  | inr other ↦ (lease, lookup-alter k id f out ∙ rw (e, other) refl, keep lease other h)
]

-- The first pass sets losers only.
pub At-set_losers :
    (P : Lease → Type 0) (id : Text) (groups : Dict (List Text)) (out : Dict Lease)
    → ((lease : Lease) (losers : List Text) → P lease → P (record lease { losers = losers }))
    → At id P out
    → At id P (set_losers groups out)
unfolding set_losers
At-set_losers P id [] out keep h = h
At-set_losers P id ((b, []) ∷ groups) out keep h = At-set_losers P id groups out keep h
At-set_losers P id ((b, w ∷ []) ∷ groups) out keep h = At-set_losers P id groups out keep h
At-set_losers P id ((b, w ∷ l ∷ others) ∷ groups) out keep h =
    At-set_losers P id groups _ keep
      (At-alter P P id w _ out (λ lease same. keep lease (l ∷ others)) (λ lease other k. k) h)

module _ (derive : Text → ℕ → Text) where
  -- The address is derived from the member's id, with a salt in range.
  unfoldable pub IsLease : Text → Lease → Type 0
  IsLease id lease =
      (lease.base_ip ≡ derive id 0) × (lease.ip ≡ derive id lease.salt) × (lease.salt ≤ salt_max)

  -- Every member to reassign stands with its base address.
  unfoldable pub IsPending : Pending → Type 0
  IsPending p = p.base ≡ derive p.id 0

  pick-valid :
      (taken : List Text) (id ip : Text) (s : ℕ)
      → pick derive taken id salt_max 1 ≡ some (ip, s)
      → (ip ≡ derive id s) × (s ≤ salt_max)
  pick-valid taken id ip s e =
      let (free, same, low, high) = pick-free derive taken id salt_max 1 ip s e in
      (same, omega (arith, high))

  pub At-reassign :
      (P : Lease → Type 0) (id : Text) (taken : List Text) (ps : List Pending) (out : Dict Lease)
      → All IsPending ps
      → ((lease : Lease) (base : Text) (choice : Option (Text × ℕ))
          → base ≡ derive id 0
          → ((ip : Text) (s : ℕ) → choice ≡ some (ip, s) → (ip ≡ derive id s) × (s ≤ salt_max))
          → P lease
          → P (settled base (picked choice lease)))
      → At id P out
      → At id P (reassign derive taken ps out)
  unfolding reassign IsPending
  At-reassign P id taken [] out known keep h = h
  At-reassign P id taken (p ∷ ps) out known keep h =
      let choice = pick derive taken p.id salt_max 1 in
      let valid = λ (ip : Text) (s : ℕ) (e : choice ≡ some (ip, s)). pick-valid taken p.id ip s e in
      At-reassign P id (grow choice taken) ps _ known.1 keep (
        At-alter P P id p.id _ out
          (λ lease same k.
            keep lease p.base choice (known.0 ∙ ap (λ x. derive x 0) same)
              (λ ip s e. subst (λ x. (ip ≡ derive x s) × (s ≤ salt_max)) same (valid ip s e)) k)
          (λ lease other k. k) h)

  pub settled-IsLease :
      (id base : Text) (lease : Lease) (choice : Option (Text × ℕ))
      → base ≡ derive id 0
      → ((ip : Text) (s : ℕ) → choice ≡ some (ip, s) → (ip ≡ derive id s) × (s ≤ salt_max))
      → IsLease id lease
      → IsLease id (settled base (picked choice lease))
  unfolding settled picked IsLease
  settled-IsLease id base lease none e f h = ground (arith, h)
  settled-IsLease id base lease (some (ip, s)) e f h = ground (arith, h, f ip s refl)

  -- A member to reassign is settled in the end.
  pub reassign-is_settled :
      (id : Text) (taken : List Text) (ps : List Pending) (out : Dict Lease)
      → All IsPending ps
      → has_pending id ps ≡ true
      → At id (λ lease. Unit {0}) out
      → At id (λ lease. is_settled lease ≡ true) (reassign derive taken ps out)
  unfolding reassign has_pending
  reassign-is_settled id taken [] out known here h = absurd cc
  reassign-is_settled id taken (p ∷ ps) out known here h =
      let choice = pick derive taken p.id salt_max 1 in
      let now = λ (l : Lease). settled p.base (picked choice l) in
      elim (Bool-cases (text_eq p.id id)) [
        | inl same ↦
            At-reassign _ id (grow choice taken) ps _ known.1
              (λ lease base choice' e f k. is_settled-settled base (picked choice' lease))
              (At-alter _ _ id p.id now out
                (λ lease same' k. is_settled-settled p.base (picked choice lease))
                (λ lease other k. absurd (ground arith)) h)
        | inr other ↦
            reassign-is_settled id (grow choice taken) ps _ known.1 (ground arith)
              (At-alter _ _ id p.id now out (λ lease same' k. tt) (λ lease other' k. tt) h)
      ]

  pub lookup-base_leases :
      (id : Text) (out : Dict Lease) (ids : List Text)
      → lookup id (base_leases derive out ids)
        ≡ (if has id ids then some (base_lease (derive id 0)) else lookup id out)
  unfolding base_leases has
  lookup-base_leases id out [] = refl
  lookup-base_leases id out (x ∷ ids) =
      let lease = base_lease (derive x 0) in
      ground (
        arith,
        lookup-base_leases id (insert x lease out) ids,
        lookup-insert x id lease out,
        text_eq_iff x id,
      )
