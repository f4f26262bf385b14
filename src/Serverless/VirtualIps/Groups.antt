-- ===== src/Serverless/VirtualIps/Groups.antt =====
-- The groups of members with one base address, and whom the first pass sets aside.
use lanet.Base.{
  ℕ, ◌≡◌, ◌≢◌, refl, sym, ◌∙◌, ap, ◌⊎◌, inl, inr, Bool, true, false, ◌||◌, some, List, [], ◌∷◌,
  ◌++◌, arith, if◌then◌else◌, filter, Text, text_eq, text_eq_refl, text_eq→eq, text_eq_iff, Dict,
  lookup, lookup-insert, insert, has, has-filter, Bool-cases, Option-cases,
}
use lanet.Serverless.VirtualIps.{
  or_nil, members_of, Pending, place_pending, sort_pending, with_pending, conflict_heads,
  to_reassign, group_from,
}
use mathlib.Core.List.{append_assoc, append-nil}

-- A member among those to reassign.
unfoldable pub has_pending : Text → List Pending → Bool
has_pending id [] = false
has_pending id (p ∷ ps) = text_eq p.id id || has_pending id ps

has-place_pending :
    (id : Text) (p : Pending) (ps : List Pending)
    → has_pending id (place_pending p ps) ≡ has_pending id (p ∷ ps)
unfolding has_pending place_pending
has-place_pending id p [] = refl
has-place_pending id p (q ∷ ps) = ground (arith, has-place_pending id p ps)

pub has-sort_pending :
    (id : Text) (ps : List Pending) → has_pending id (sort_pending ps) ≡ has_pending id ps
unfolding has_pending sort_pending
has-sort_pending id [] = refl
has-sort_pending id (p ∷ ps) =
    ground (arith, has-place_pending id p (sort_pending ps), has-sort_pending id ps)

has-with_pending :
    (id base : Text) (ids : List Text) (ps : List Pending)
    → has_pending id (with_pending base ids ps) ≡ (has id ids || has_pending id ps)
unfolding has_pending has with_pending
has-with_pending id base [] ps = refl
has-with_pending id base (x ∷ ids) ps = ground (arith, has-with_pending id base ids ps)

-- A member behind the first of its group must move.
pub tail-has_pending :
    (id base winner : Text) (others : List Text) (groups : Dict (List Text))
    → lookup base groups ≡ some (winner ∷ others)
    → has id others ≡ true
    → has_pending id (to_reassign groups) ≡ true
unfolding to_reassign lookup
tail-has_pending id base winner others [] h m = absurd cc
tail-has_pending id base winner others ((b, []) ∷ groups) h m =
    ground (arith, tail-has_pending id base winner others groups)
tail-has_pending id base winner others ((b, w ∷ rest) ∷ groups) h m = ground (
  arith,
  tail-has_pending id base winner others groups,
  has-with_pending id b rest (to_reassign groups),
)

-- A group of two or more is one of the conflicts.
pub has-conflict_heads :
    (base a b : Text) (rest : List Text) (groups : Dict (List Text))
    → lookup base groups ≡ some (a ∷ b ∷ rest)
    → has base (conflict_heads groups) ≡ true
unfolding conflict_heads lookup has
has-conflict_heads base a b rest [] h = absurd cc
has-conflict_heads base a b rest ((c, group) ∷ groups) h =
    ground (arith, has-conflict_heads base a b rest groups)

pub members_of-insert :
    (base key : Text) (group : List Text) (groups : Dict (List Text))
    → members_of base (insert key group groups)
      ≡ (if text_eq key base then group else members_of base groups)
unfolding members_of
members_of-insert base key group groups = elim (Bool-cases (text_eq key base)) [
  | inl e ↦ rw (lookup-insert key base group groups, e) refl
  | inr e ↦ rw (lookup-insert key base group groups, e) refl
]

-- A group that is not empty is the entry of its address.
lookup-members_of :
    (base winner : Text) (others : List Text) (groups : Dict (List Text))
    → members_of base groups ≡ winner ∷ others
    → lookup base groups ≡ some (winner ∷ others)
unfolding members_of
lookup-members_of base winner others groups h = elim (Option-cases (lookup base groups)) [
  | inl e ↦ absurd (ground (arith, ap or_nil e))
  | inr (group, e) ↦ e ∙ ap some (sym (ap or_nil e) ∙ h)
]

module _ (derive : Text → ℕ → Text) where
  -- A group has its members in the order of the ids.
  pub members_of-group_from :
      (base : Text) (groups : Dict (List Text)) (ids : List Text)
      → members_of base (group_from derive groups ids)
        ≡ members_of base groups ++ filter (λ id. text_eq (derive id 0) base) ids
  unfolding group_from
  members_of-group_from base groups [] = sym (append-nil (members_of base groups))
  members_of-group_from base groups (id ∷ ids) =
      let key = derive id 0 in
      let group = members_of key groups ++ id ∷ [] in
      let same = λ (x : Text). text_eq (derive x 0) base in
      let next = members_of-group_from base (insert key group groups) ids in
      elim (Bool-cases (text_eq key base)) [
        | inl e ↦ rw e (
            next
            ∙ (rw (members_of-insert base key group groups, e, text_eq→eq key base e) refl
                ∙ append_assoc (members_of base groups) (id ∷ []) (filter same ids)))
        | inr e ↦ rw e (next ∙ rw (members_of-insert base key group groups, e) refl)
      ]

  -- Two members with one base address: their group has two, and one of them must move.
  group_of_two :
      (base id id' : Text) (members : List Text) (groups : Dict (List Text))
      → id ≢ id'
      → members_of base groups ≡ members
      → has id members ≡ true
      → has id' members ≡ true
      → (has base (conflict_heads groups) ≡ true)
        × ((has_pending id (to_reassign groups) ≡ true)
            ⊎ (has_pending id' (to_reassign groups) ≡ true))
  unfolding has
  group_of_two base id id' [] groups ne e h h' = absurd cc
  group_of_two base id id' (w ∷ []) groups ne e h h' =
      absurd (ground (arith, text_eq_iff w id, text_eq_iff w id'))
  group_of_two base id id' (w ∷ l ∷ others) groups ne e h h' =
      let at = lookup-members_of base w (l ∷ others) groups e in
      let moves = λ (x : Text). tail-has_pending x base w (l ∷ others) groups at in
      (
        has-conflict_heads base w l others groups at,
        elim (Bool-cases (text_eq w id)) [
          | inl here ↦ inr (moves id' (ground (arith, text_eq_iff w id, text_eq_iff w id')))
          | inr other ↦ inl (moves id (ground arith))
        ],
      )

  pub group_of_two_ids :
      (base id id' : Text) (ids : List Text)
      → id ≢ id'
      → has id ids ≡ true
      → has id' ids ≡ true
      → derive id 0 ≡ base
      → derive id' 0 ≡ base
      → (has base (conflict_heads (group_from derive [] ids)) ≡ true)
        × ((has_pending id (to_reassign (group_from derive [] ids)) ≡ true)
            ⊎ (has_pending id' (to_reassign (group_from derive [] ids)) ≡ true))
  unfolding members_of lookup
  group_of_two_ids base id id' ids ne h h' e e' =
      let same = λ (x : Text). text_eq (derive x 0) base in
      group_of_two base id id' (filter same ids) (group_from derive [] ids) ne
        (members_of-group_from base [] ids)
        (ground (arith, has-filter same id ids, text_eq_refl base))
        (ground (arith, has-filter same id' ids, text_eq_refl base))
