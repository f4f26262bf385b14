-- ===== src/Serverless/VirtualIps/Decision.antt =====
-- What `decideVirtualIPs` decides: who has an address, where it comes from, who moves, and that the
-- order in which the members were found does not matter.
use lanet.Base.{
  ℕ, ◌≤◌, ◌≡◌, ◌≢◌, refl, sym, ap, ◌∙◌, ◌⊎◌, inl, inr, true, false, ◌&&◌, not, none, some, List, [],
  ◌∷◌, ◌++◌, arith, Text, is_empty, Dict, lookup, has, has-unique_from, has-sort_texts, unique_from,
  unique_from-AreDistinct, sort_texts, sort_texts-same, Bool-cases,
}
use lanet.Serverless.VirtualIps.{
  salt_max, grow, pick, Lease, Pending, reassign, base_lease, base_leases, set_losers, group_from,
  conflict_heads, to_reassign, sort_pending, sorted_ids, decide_sorted, decide_blocked,
}
use lanet.Serverless.VirtualIps.Moves.{
  lookup-alter, moved, picked-address, address_at, address-reassign,
}
use lanet.Serverless.VirtualIps.Groups.{has_pending, has-sort_pending, group_of_two_ids}
use lanet.Serverless.VirtualIps.Leases.{
  At, At-lookup, At-set_losers, At-reassign, IsLease, settled-IsLease, is_settled,
  reassign-is_settled, lookup-base_leases,
}
use lanet.Serverless.VirtualIps.Pendings.{to_reassign_of-IsPending}

module _ (derive : Text → ℕ → Text) where
  -- Two lists of peer ids with the same ids that are not empty get the same decision, however they
  -- are ordered and however often an id stands in them.
  pub decide_blocked-same :
      (peer_ids peer_ids' blocked : List Text)
      → ((id : Text) → is_empty id ≡ false → has id peer_ids ≡ has id peer_ids')
      → decide_blocked derive peer_ids blocked ≡ decide_blocked derive peer_ids' blocked
  unfolding decide_blocked
  decide_blocked-same peer_ids peer_ids' blocked same =
      let kept : (id : Text)
          → has id (unique_from [] peer_ids) ≡ has id (unique_from [] peer_ids') =
        λ id.
          unfold has in
          ground
            (arith, has-unique_from id [] peer_ids, has-unique_from id [] peer_ids', same id) in
      ap (λ ids. decide_sorted derive ids blocked)
        (sort_texts-same (unique_from [] peer_ids) (unique_from [] peer_ids')
          (unique_from-AreDistinct [] peer_ids) (unique_from-AreDistinct [] peer_ids') kept)

  pub has-sorted_ids :
      (id : Text) (peer_ids : List Text)
      → has id (sorted_ids derive peer_ids) ≡ (not (is_empty id) && has id peer_ids)
  has-sorted_ids id peer_ids =
      unfold has in
      ground (arith, has-sort_texts id (unique_from [] peer_ids), has-unique_from id [] peer_ids)

  -- The leases before the second pass.
  first_pass : List Text → Dict Lease
  first_pass ids = set_losers (group_from derive [] ids) (base_leases derive [] ids)

  first_pass-At :
      (P : Lease → Type 0) (id : Text) (ids : List Text)
      → has id ids ≡ true
      → P (base_lease (derive id 0))
      → ((lease : Lease) (losers : List Text) → P lease → P (record lease { losers = losers }))
      → At id P (first_pass ids)
  unfolding first_pass
  first_pass-At P id ids h start keep =
      At-set_losers P id (group_from derive [] ids) (base_leases derive [] ids) keep
        (base_lease (derive id 0), lookup-base_leases derive id [] ids ∙ rw h refl, start)

  -- Every member has a lease: its base address, or one derived with a salt from 1 to 64.
  pub decide_sorted-IsLease :
      (id : Text) (ids blocked : List Text)
      → has id ids ≡ true
      → At id (IsLease derive id) (decide_sorted derive ids blocked)
  unfolding decide_sorted first_pass IsLease base_lease
  decide_sorted-IsLease id ids blocked h =
      At-reassign derive (IsLease derive id) id _ _ (first_pass ids)
        (to_reassign_of-IsPending derive ids)
        (λ lease base choice e f k. settled-IsLease derive id base lease choice e f k)
        (first_pass-At (IsLease derive id) id ids h (refl, refl, omega arith) (λ lease losers k. k))

  lookup-set_losers-none :
      (id : Text) (groups : Dict (List Text)) (out : Dict Lease)
      → lookup id out ≡ none
      → lookup id (set_losers groups out) ≡ none
  unfolding set_losers
  lookup-set_losers-none id [] out h = h
  lookup-set_losers-none id ((b, []) ∷ groups) out h = lookup-set_losers-none id groups out h
  lookup-set_losers-none id ((b, w ∷ []) ∷ groups) out h = lookup-set_losers-none id groups out h
  lookup-set_losers-none id ((b, w ∷ l ∷ others) ∷ groups) out h =
      lookup-set_losers-none id groups _ (lookup-alter w id _ out ∙ rw h refl)

  lookup-reassign-none :
      (id : Text) (taken : List Text) (ps : List Pending) (out : Dict Lease)
      → lookup id out ≡ none
      → lookup id (reassign derive taken ps out) ≡ none
  unfolding reassign
  lookup-reassign-none id taken [] out h = h
  lookup-reassign-none id taken (p ∷ ps) out h =
      lookup-reassign-none id (grow (pick derive taken p.id salt_max 1) taken) ps _
        (lookup-alter p.id id _ out ∙ rw h refl)

  pub lookup-decide_sorted-none :
      (id : Text) (ids blocked : List Text)
      → has id ids ≡ false
      → lookup id (decide_sorted derive ids blocked) ≡ none
  unfolding decide_sorted lookup
  lookup-decide_sorted-none id ids blocked h = lookup-reassign-none id _ _ _ (
      lookup-set_losers-none id (group_from derive [] ids) _
        (lookup-base_leases derive id [] ids ∙ rw h refl))

  -- The ids with a lease are the members'.
  pub has-decide_sorted :
      (id : Text) (ids blocked : List Text) (lease : Lease)
      → lookup id (decide_sorted derive ids blocked) ≡ some lease
      → has id ids ≡ true
  has-decide_sorted id ids blocked lease e = elim (Bool-cases (has id ids)) [
    | inl h ↦ h
    | inr h ↦ absurd (ground (arith, lookup-decide_sorted-none id ids blocked h))
  ]

  -- The addresses that no member may move to, and the members that must move.
  unfoldable pub taken_first : List Text → List Text → List Text
  taken_first ids blocked = sort_texts (conflict_heads (group_from derive [] ids)) ++ blocked

  unfoldable pub movers : List Text → List Pending
  movers ids = sort_pending (to_reassign (group_from derive [] ids))

  -- A salted address is one that the second pass picks.
  pub salted-moved :
      (id : Text) (ids blocked : List Text) (lease : Lease)
      → lookup id (decide_sorted derive ids blocked) ≡ some lease
      → 1 ≤ lease.salt
      → moved derive (taken_first ids blocked) (movers ids) id ≡ some (lease.ip, lease.salt)
  unfolding decide_sorted taken_first movers first_pass base_lease address_at
  salted-moved id ids blocked lease e h =
      let (first, at, bare) =
        first_pass-At (λ l. l.salt ≡ 0) id ids (has-decide_sorted id ids blocked lease e) refl
          (λ l losers k. k) in
      let found =
        address-reassign derive (taken_first ids blocked) (movers ids) (first_pass ids) id first
          at in
      picked-address _ first lease bare h (sym (ap address_at e) ∙ found)

  mover-is_settled :
      (id : Text) (ids blocked : List Text) (lease : Lease)
      → has id ids ≡ true
      → has_pending id (to_reassign (group_from derive [] ids)) ≡ true
      → lookup id (decide_sorted derive ids blocked) ≡ some lease
      → is_settled lease ≡ true
  unfolding decide_sorted first_pass movers
  mover-is_settled id ids blocked lease inside h e =
      At-lookup (λ l. is_settled l ≡ true) id _ lease e
        (reassign-is_settled derive id _ (movers ids) (first_pass ids)
          (to_reassign_of-IsPending derive ids) (has-sort_pending id _ ∙ h)
          (first_pass-At (λ l. Unit {0}) id ids inside tt (λ l losers k. tt)))

  -- Two members with one base address: one of them has moved or is marked.
  pub base-is_settled :
      (id id' : Text) (ids blocked : List Text) (lease lease' : Lease)
      → id ≢ id'
      → lookup id (decide_sorted derive ids blocked) ≡ some lease
      → lookup id' (decide_sorted derive ids blocked) ≡ some lease'
      → derive id 0 ≡ derive id' 0
      → (is_settled lease ≡ true) ⊎ (is_settled lease' ≡ true)
  base-is_settled id id' ids blocked lease lease' ne e e' same =
      let inside = has-decide_sorted id ids blocked lease e in
      let inside' = has-decide_sorted id' ids blocked lease' e' in
      let pair = group_of_two_ids derive (derive id' 0) id id' ids ne inside inside' same refl in
      elim pair.1 [
        | inl h ↦ inl (mover-is_settled id ids blocked lease inside h e)
        | inr h ↦ inr (mover-is_settled id' ids blocked lease' inside' h e')
      ]
