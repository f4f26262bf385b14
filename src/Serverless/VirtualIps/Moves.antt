-- ===== src/Serverless/VirtualIps/Moves.antt =====
-- The second pass of the address decision: which address a moved member gets.
use lanet.Base.{
  ℕ, zero, suc, ◌+◌, ◌≤◌, ◌<◌, ◌≡◌, ◌≢◌, refl, sym, ◌∙◌, subst, ap, ◌⊎◌, inl, inr, Bool, true,
  false, Option, none, some, List, [], ◌∷◌, arith, ◌==◌, if◌then◌else◌, Text, text_eq, text_eq_refl,
  text_eq→eq, text_eq_iff, Dict, lookup, has, Bool-cases,
}
use lanet.Serverless.VirtualIps.{
  salt_max, Lease, Pending, alter, picked, settled, grow, pick, reassign,
}

-- The lease that an update leaves.
abbrev pub altered : Bool → (Lease → Lease) → Option Lease → Option Lease
altered hit f none = none
altered hit f (some lease) = if hit then some (f lease) else some lease

pub lookup-alter :
    (k j : Text) (f : Lease → Lease) (out : Dict Lease)
    → lookup j (alter k f out) ≡ altered (text_eq k j) f (lookup j out)
unfolding lookup alter altered
lookup-alter k j f [] = refl
lookup-alter k j f ((i, lease) ∷ out) = elim (Bool-cases (text_eq i j)) [
  | inl e ↦ ground (arith, text_eq_iff k j, text_eq_iff i k, text_eq_iff i j)
  | inr e ↦
      ground (arith, text_eq_iff k j, text_eq_iff i k, text_eq_iff i j, lookup-alter k j f out)
]

unfoldable pub or_else : Option (Text × ℕ) → Option (Text × ℕ) → Option (Text × ℕ)
or_else none o = o
or_else (some a) o = some a

-- The address of a lease, with its salt, unless it is the base address.
unfoldable pub address : Lease → Option (Text × ℕ)
address lease = if lease.salt == 0 then none else some (lease.ip, lease.salt)

unfoldable pub address_at : Option Lease → Option (Text × ℕ)
address_at none = none
address_at (some lease) = address lease

-- The address of a salted lease that comes from an unsalted one is the one picked.
pub picked-address :
    (o : Option (Text × ℕ)) (first lease : Lease)
    → first.salt ≡ 0
    → 1 ≤ lease.salt
    → address lease ≡ or_else o (address first)
    → o ≡ some (lease.ip, lease.salt)
unfolding address or_else
picked-address none first lease bare h e = absurd (ground arith)
picked-address (some x) first lease bare h e = ground arith

or_else-cases :
    (o choice : Option (Text × ℕ)) {P : Type 0} (own : Bool) (x : Text × ℕ)
    → (own ≡ true → P)
    → or_else o (if own then choice else none) ≡ some x
    → (o ≡ some x) ⊎ (P × (choice ≡ some x))
unfolding or_else
or_else-cases none choice true x f h = inr (f refl, h)
or_else-cases none choice false x f h = absurd cc
or_else-cases (some y) choice own x f h = inl h

or_else_assoc : (a b c : Option (Text × ℕ)) → or_else (or_else a b) c ≡ or_else a (or_else b c)
unfolding or_else
or_else_assoc none b c = refl
or_else_assoc (some x) b c = refl

module _ (derive : Text → ℕ → Text) where
  -- An address that the loop over the salts picks is free and derived with a salt in range.
  pub pick-free :
      (taken : List Text) (id : Text) (left salt : ℕ) (ip : Text) (s : ℕ)
      → pick derive taken id left salt ≡ some (ip, s)
      → (has ip taken ≡ false) × (ip ≡ derive id s) × (salt ≤ s) × (s < salt + left)
  unfolding pick
  pick-free taken id zero salt ip s h = absurd cc
  pick-free taken id (suc left) salt ip s h = elim (Bool-cases (has (derive id salt) taken)) [
    | inl used ↦ ground (arith, pick-free taken id left (suc salt) ip s)
    | inr free ↦ ground arith
  ]

  -- Where none is picked, every salted address is taken.
  pub pick-none :
      (taken : List Text) (id : Text) (left salt : ℕ)
      → pick derive taken id left salt ≡ none
      → (s : ℕ) → salt ≤ s
      → s < salt + left
      → has (derive id s) taken ≡ true
  unfolding pick
  pick-none taken id zero salt h s low high = absurd (omega arith)
  pick-none taken id (suc left) salt h s low high = elim (Bool-cases (has (derive id salt) taken)) [
    | inl used ↦ elim (Bool-cases (s == salt)) [
      | inl here ↦ ground arith
      | inr later ↦ ground (arith, pick-none taken id left (suc salt) _ s)
    ]
    | inr free ↦ absurd (ground arith)
  ]

  -- The address that the second pass picks for a member, its last if it had several.
  unfoldable pub moved : List Text → List Pending → Text → Option (Text × ℕ)
  moved taken [] id = none
  moved taken (p ∷ ps) id =
      let choice = pick derive taken p.id salt_max 1 in
      let own = if text_eq p.id id then choice else none in
      or_else (moved (grow choice taken) ps id) own

  has-grow :
      (choice : Option (Text × ℕ)) (ip : Text) (taken : List Text)
      → has ip (grow choice taken) ≡ false
      → has ip taken ≡ false
  unfolding has grow
  has-grow none ip taken h = h
  has-grow (some (c, s)) ip taken h = ground arith

  pick-not :
      (taken : List Text) (id ip : Text) (s : ℕ)
      → pick derive taken id salt_max 1 ≡ some (ip, s)
      → (has ip taken ≡ false) × (ip ≡ derive id s) × (1 ≤ s) × (s ≤ salt_max)
  pick-not taken id ip s h =
      let (free, same, low, high) = pick-free taken id salt_max 1 ip s h in
      (free, same, low, omega (arith, high))

  -- An address comes from a later entry or from the first one.
  moved-cases :
      (taken : List Text) (p : Pending) (ps : List Pending) (id : Text) (x : Text × ℕ)
      → moved taken (p ∷ ps) id ≡ some x
      → (moved (grow (pick derive taken p.id salt_max 1) taken) ps id ≡ some x)
        ⊎ ((p.id ≡ id) × (pick derive taken p.id salt_max 1 ≡ some x))
  unfolding moved
  moved-cases taken p ps id x h = or_else-cases _ _ (text_eq p.id id) x (text_eq→eq p.id id) h

  -- It is free beforehand and derived from the member's id with a salt in range.
  pub moved-free :
      (taken : List Text) (ps : List Pending) (id ip : Text) (s : ℕ)
      → moved taken ps id ≡ some (ip, s)
      → (has ip taken ≡ false) × (ip ≡ derive id s) × (1 ≤ s) × (s ≤ salt_max)
  unfolding moved
  moved-free taken [] id ip s h = absurd cc
  moved-free taken (p ∷ ps) id ip s h =
      let choice = pick derive taken p.id salt_max 1 in
      elim (moved-cases taken p ps id (ip, s) h) [
        | inl later ↦
            let found = moved-free (grow choice taken) ps id ip s later in
            (has-grow choice ip taken found.0, found.1, found.2, found.3)
        | inr (same, own) ↦
            subst (λ x. (has ip taken ≡ false) × (ip ≡ derive x s) × (1 ≤ s) × (s ≤ salt_max)) same
              (pick-not taken p.id ip s own)
      ]

  -- What the first entry picks is not picked later.
  moved-grow :
      (choice : Option (Text × ℕ)) (taken : List Text) (ps : List Pending) (id ip : Text) (s s' : ℕ)
      → choice ≡ some (ip, s)
      → ¬ (moved (grow choice taken) ps id ≡ some (ip, s'))
  unfolding has grow
  moved-grow none taken ps id ip s s' e h = cc
  moved-grow (some (c, t)) taken ps id ip s s' e h =
      ground (arith, moved-free (c ∷ taken) ps id ip s' h, text_eq_refl ip)

  -- Two members never get one address.
  pub moved-distinct :
      (taken : List Text) (ps : List Pending) (id id' ip : Text) (s s' : ℕ)
      → id ≢ id'
      → moved taken ps id ≡ some (ip, s)
      → ¬ (moved taken ps id' ≡ some (ip, s'))
  unfolding moved
  moved-distinct taken [] id id' ip s s' ne h h' = cc
  moved-distinct taken (p ∷ ps) id id' ip s s' ne h h' =
      let choice = pick derive taken p.id salt_max 1 in
      elim (moved-cases taken p ps id (ip, s) h) [
        | inl later ↦ elim (moved-cases taken p ps id' (ip, s') h') [
          | inl later' ↦ moved-distinct (grow choice taken) ps id id' ip s s' ne later later'
          | inr own' ↦ moved-grow choice taken ps id ip s' s own'.1 later
        ]
        | inr own ↦ elim (moved-cases taken p ps id' (ip, s') h') [
          | inl later' ↦ moved-grow choice taken ps id' ip s s' own.1 later'
          | inr own' ↦ ne (sym own.0 ∙ own'.0)
        ]
      ]

  address-settled :
      (choice : Option (Text × ℕ)) (base : Text) (lease : Lease)
      → ((ip : Text) (s : ℕ) → choice ≡ some (ip, s) → 1 ≤ s)
      → address (settled base (picked choice lease)) ≡ or_else choice (address lease)
  unfolding address settled picked or_else
  address-settled none base lease h = ground arith
  address-settled (some (c, s)) base lease h = ground (arith, h c s refl)

  -- It is the address of the lease that the second pass leaves.
  pub address-reassign :
      (taken : List Text) (ps : List Pending) (out : Dict Lease) (id : Text) (lease : Lease)
      → lookup id out ≡ some lease
      → address_at (lookup id (reassign derive taken ps out))
        ≡ or_else (moved taken ps id) (address lease)
  unfolding reassign moved address_at or_else altered
  address-reassign taken [] out id lease h = rw h refl
  address-reassign taken (p ∷ ps) out id lease h =
      let choice = pick derive taken p.id salt_max 1 in
      let now = λ (l : Lease). settled p.base (picked choice l) in
      let later = moved (grow choice taken) ps id in
      let next = λ (l : Lease). address-reassign (grow choice taken) ps (alter p.id now out) id l in
      let positive =
        λ (ip : Text) (s : ℕ) (e : choice ≡ some (ip, s)). (pick-not taken p.id ip s e).2 in
      elim (Bool-cases (text_eq p.id id)) [
        | inl here ↦
            let at : lookup id (alter p.id now out) ≡ some (now lease) =
              lookup-alter p.id id now out ∙ rw (h, here) refl in
            rw here (
              next (now lease) at
              ∙ (ap (or_else later) (address-settled choice p.base lease positive)
                  ∙ sym (or_else_assoc later choice (address lease))))
        | inr other ↦
            let at : lookup id (alter p.id now out) ≡ some lease =
              lookup-alter p.id id now out ∙ rw (h, other) refl in
            rw other (next lease at ∙ sym (or_else_assoc later none (address lease)))
      ]
