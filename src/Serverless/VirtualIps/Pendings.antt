-- ===== src/Serverless/VirtualIps/Pendings.antt =====
-- The members to reassign stand with the base address of their group.
use lanet.Base.{
  ℕ, ◌≡◌, refl, sym, subst, inl, inr, List, [], ◌∷◌, ◌++◌, All, All-append, Text, text_eq,
  text_eq→eq, text_lt, Dict, lookup, insert, Bool-cases,
}
use lanet.Serverless.VirtualIps.{
  members_of, Pending, place_pending, sort_pending, with_pending, to_reassign, group_from,
}
use lanet.Serverless.VirtualIps.Leases.{IsPending}

module _ (derive : Text → ℕ → Text) where
  -- Every member stands in the group of its base address.
  abbrev pub Grouped : Dict (List Text) → Type 0
  Grouped groups = All (λ entry. All (λ id. entry.0 ≡ derive id 0) entry.1) groups

  place_pending-All :
      (p : Pending) (ps : List Pending)
      → IsPending derive p
      → All (IsPending derive) ps
      → All (IsPending derive) (place_pending p ps)
  unfolding place_pending
  place_pending-All p [] h hs = (h, tt)
  place_pending-All p (q ∷ ps) h hs = elim (Bool-cases (text_lt q.id p.id)) [
    | inl e ↦ rw e (hs.0, place_pending-All p ps h hs.1)
    | inr e ↦ rw e (h, hs)
  ]

  pub sort_pending-All :
      (ps : List Pending) → All (IsPending derive) ps → All (IsPending derive) (sort_pending ps)
  unfolding sort_pending
  sort_pending-All [] h = tt
  sort_pending-All (p ∷ ps) h = place_pending-All p (sort_pending ps) h.0 (sort_pending-All ps h.1)

  with_pending-All :
      (base : Text) (ids : List Text) (ps : List Pending)
      → All (λ id. base ≡ derive id 0) ids
      → All (IsPending derive) ps
      → All (IsPending derive) (with_pending base ids ps)
  unfolding with_pending IsPending
  with_pending-All base [] ps h hs = hs
  with_pending-All base (id ∷ ids) ps h hs = (h.0, with_pending-All base ids ps h.1 hs)

  to_reassign-IsPending :
      (groups : Dict (List Text)) → Grouped groups → All (IsPending derive) (to_reassign groups)
  unfolding to_reassign
  to_reassign-IsPending [] h = tt
  to_reassign-IsPending ((base, []) ∷ groups) h = to_reassign-IsPending groups h.1
  to_reassign-IsPending ((base, w ∷ others) ∷ groups) h =
      with_pending-All base others (to_reassign groups) h.0.1 (to_reassign-IsPending groups h.1)

  members_of-All :
      (base : Text) (groups : Dict (List Text))
      → Grouped groups
      → All (λ id. base ≡ derive id 0) (members_of base groups)
  unfolding members_of lookup
  members_of-All base [] h = tt
  members_of-All base ((b, group) ∷ groups) h = elim (Bool-cases (text_eq b base)) [
    | inl e ↦ rw e (subst (λ x. All (λ id. x ≡ derive id 0) group) (text_eq→eq b base e) h.0)
    | inr e ↦ rw e (members_of-All base groups h.1)
  ]

  insert-Grouped :
      (base : Text) (group : List Text) (groups : Dict (List Text))
      → All (λ id. base ≡ derive id 0) group
      → Grouped groups
      → Grouped (insert base group groups)
  unfolding insert
  insert-Grouped base group [] h hs = (h, tt)
  insert-Grouped base group ((b, g) ∷ groups) h hs = elim (Bool-cases (text_eq b base)) [
    | inl e ↦
        rw e (subst (λ x. All (λ id. x ≡ derive id 0) group) (sym (text_eq→eq b base e)) h, hs.1)
    | inr e ↦ rw e (hs.0, insert-Grouped base group groups h hs.1)
  ]

  pub group_from-Grouped :
      (groups : Dict (List Text)) (ids : List Text)
      → Grouped groups
      → Grouped (group_from derive groups ids)
  unfolding group_from
  group_from-Grouped groups [] h = h
  group_from-Grouped groups (id ∷ ids) h =
      let base = derive id 0 in
      let group = members_of base groups in
      group_from-Grouped (insert base (group ++ id ∷ []) groups) ids (
        insert-Grouped base (group ++ id ∷ []) groups
          (All-append _ group (id ∷ []) (members_of-All base groups h) (refl, tt)) h)

  pub to_reassign_of-IsPending :
      (ids : List Text)
      → All (IsPending derive) (sort_pending (to_reassign (group_from derive [] ids)))
  to_reassign_of-IsPending ids =
      sort_pending-All _ (to_reassign-IsPending _ (group_from-Grouped [] ids tt))
