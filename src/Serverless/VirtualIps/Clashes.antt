-- ===== src/Serverless/VirtualIps/Clashes.antt =====
-- When two members of a decision have one address.
use lanet.Base.{
  ℕ, ◌≤◌, ◌≡◌, ◌≢◌, refl, sym, ap, subst, ◌∙◌, ◌⊎◌, inl, inr, true, false, some, List, [], ◌++◌,
  arith, ◌==◌, Text, lookup, has, has-append, has-sort_texts, Bool-cases,
}
use lanet.Serverless.VirtualIps.{Lease, group_from, conflict_heads, decide_sorted}
use lanet.Serverless.VirtualIps.Moves.{moved, moved-free, moved-distinct}
use lanet.Serverless.VirtualIps.Groups.{group_of_two_ids}
use lanet.Serverless.VirtualIps.Leases.{At-lookup, IsLease, is_settled}
use lanet.Serverless.VirtualIps.Decision.{
  has-decide_sorted, decide_sorted-IsLease, salted-moved, base-is_settled, taken_first, movers,
}

module _ (derive : Text → ℕ → Text) where
  -- Two members whose conflicts are resolved have one address only where one of them kept its base
  -- address and the other moved.
  pub decide_sorted-clash :
      (id id' : Text) (ids blocked : List Text) (lease lease' : Lease)
      → id ≢ id'
      → lookup id (decide_sorted derive ids blocked) ≡ some lease
      → lookup id' (decide_sorted derive ids blocked) ≡ some lease'
      → lease.unresolved ≡ false
      → lease'.unresolved ≡ false
      → lease.ip ≡ lease'.ip
      → ((lease.salt ≡ 0) × (1 ≤ lease'.salt)) ⊎ ((1 ≤ lease.salt) × (lease'.salt ≡ 0))
  unfolding is_settled IsLease
  decide_sorted-clash id id' ids blocked lease lease' ne e e' r r' same =
      let valid =
        λ (x : Text) (l : Lease) (f : lookup x (decide_sorted derive ids blocked) ≡ some l).
          At-lookup (IsLease derive x) x _ l f (
            decide_sorted-IsLease derive x ids blocked
              (has-decide_sorted derive x ids blocked l f)) in
      elim (Bool-cases (lease.salt == 0)) [
        | inl bare ↦ elim (Bool-cases (lease'.salt == 0)) [
          | inl bare' ↦
              let bases : derive id 0 ≡ derive id' 0 =
                ap (derive id) (ground arith)
                ∙ (sym (valid id lease e).1
                    ∙ (same ∙ ((valid id' lease' e').1 ∙ ap (derive id') (ground arith)))) in
              absurd (
                ground
                  (arith, base-is_settled derive id id' ids blocked lease lease' ne e e' bases))
          | inr far' ↦ inl (ground arith)
        ]
        | inr far ↦ elim (Bool-cases (lease'.salt == 0)) [
          | inl bare' ↦ inr (ground arith)
          | inr far' ↦
              let own = salted-moved derive id ids blocked lease e (ground arith) in
              let own' = salted-moved derive id' ids blocked lease' e' (ground arith) in
              absurd (
                moved-distinct derive _ _ id id' lease.ip lease.salt lease'.salt ne own (
                  subst
                    (λ ip.
                      moved derive (taken_first derive ids blocked) (movers derive ids) id'
                      ≡ some (ip, lease'.salt))
                    (sym same) own'))
        ]
      ]

  taken-clash :
      (ip base : Text) (heads blocked : List Text)
      → ip ≡ base
      → has base heads ≡ true
      → ¬ (has ip (heads ++ blocked) ≡ false)
  taken-clash ip base heads blocked e h free = ground (arith, has-append base heads blocked)

  -- A member that moved does not have the base address that two members share.
  pub decide_sorted-shared :
      (id a b : Text) (ids blocked : List Text) (lease : Lease)
      → lookup id (decide_sorted derive ids blocked) ≡ some lease
      → 1 ≤ lease.salt
      → a ≢ b
      → has a ids ≡ true
      → has b ids ≡ true
      → derive a 0 ≡ derive b 0
      → lease.ip ≢ derive a 0
  unfolding taken_first
  decide_sorted-shared id a b ids blocked lease e h ne ha hb same hit =
      let heads = (group_of_two_ids derive (derive b 0) a b ids ne ha hb same refl).0 in
      let free = (moved-free derive _ _ id _ _ (salted-moved derive id ids blocked lease e h)).0 in
      let heads' =
        has-sort_texts (derive b 0) (conflict_heads (group_from derive [] ids)) ∙ heads in
      taken-clash lease.ip (derive b 0) _ blocked (hit ∙ same) heads' free
