-- ===== src/Serverless/VirtualIps/Orders.antt =====
-- The loop over `byBase` visits the groups in an order that Go leaves open. What the decision makes
-- of the groups is the same in every order.
use lanet.Base.{
  ℕ, ◌≡◌, refl, sym, ap, ◌∙◌, false, List, [], ◌∷◌, ◌++◌, map, arith, ltb, if◌then◌else◌, length,
  All, Text, text_eq, text_eq_iff, text_lt_irrefl, text_lt_trans, text_lt_total, Dict, place,
  sort_texts,
}
use lanet.Serverless.VirtualIps.{
  Lease, alter, Pending, place_pending, sort_pending, with_pending, conflict_heads, to_reassign,
  set_losers, base_leases, decide_in_order,
}
use lanet.Serverless.VirtualIps.Pendings.{Grouped}

-- Another order of the entries of a map; the keys of a map differ.
pub data Reordered : Dict (List Text) → Dict (List Text) → Type 0 where
  all_done : Reordered [] []
  same_head :
      (b : Text) (g : List Text) (x y : Dict (List Text))
      → Reordered x y
      → Reordered ((b, g) ∷ x) ((b, g) ∷ y)
  exchange :
      (b b' : Text) (g g' : List Text) (x : Dict (List Text))
      → text_eq b b' ≡ false
      → Reordered ((b, g) ∷ (b', g') ∷ x) ((b', g') ∷ (b, g) ∷ x)
  and_then : (x y z : Dict (List Text)) → Reordered x y → Reordered y z → Reordered x z

place_comm : (x y : Text) (zs : List Text) → place x (place y zs) ≡ place y (place x zs)
unfolding place
place_comm x y [] = ground (arith, text_lt_total x y, text_lt_trans x y x, text_lt_irrefl x)
place_comm x y (z ∷ zs) = ground (
  arith,
  place_comm x y zs,
  text_lt_total x y,
  text_lt_trans x y x,
  text_lt_irrefl x,
  text_lt_trans z x y,
  text_lt_trans z y x,
)

unfoldable place_all : List Text → List Text → List Text
place_all [] zs = zs
place_all (x ∷ xs) zs = place x (place_all xs zs)

sort_texts-append : (xs ys : List Text) → sort_texts (xs ++ ys) ≡ place_all xs (sort_texts ys)
unfolding sort_texts place_all
sort_texts-append [] ys = refl
sort_texts-append (x ∷ xs) ys = ap (place x) (sort_texts-append xs ys)

place-place_all :
    (x : Text) (ys zs : List Text) → place x (place_all ys zs) ≡ place_all ys (place x zs)
unfolding place_all
place-place_all x [] zs = refl
place-place_all x (y ∷ ys) zs =
    place_comm x y (place_all ys zs) ∙ ap (place y) (place-place_all x ys zs)

place_all_comm :
    (xs ys zs : List Text) → place_all xs (place_all ys zs) ≡ place_all ys (place_all xs zs)
unfolding place_all
place_all_comm [] ys zs = refl
place_all_comm (x ∷ xs) ys zs =
    ap (place x) (place_all_comm xs ys zs) ∙ place-place_all x ys (place_all xs zs)

-- The texts that a loop over the groups collects.
unfoldable flat : (Text → List Text → List Text) → Dict (List Text) → List Text
flat f [] = []
flat f ((b, g) ∷ x) = f b g ++ flat f x

sort-flat :
    (f : Text → List Text → List Text) (x y : Dict (List Text))
    → Reordered x y
    → sort_texts (flat f x) ≡ sort_texts (flat f y)
unfolding flat
sort-flat f _ _ all_done = refl
sort-flat f _ _ (same_head b g x y s) =
    sort_texts-append (f b g) (flat f x)
    ∙ ap (place_all (f b g)) (sort-flat f x y s)
    ∙ sym (sort_texts-append (f b g) (flat f y))
sort-flat f _ _ (exchange b b' g g' x ne) =
    sort_texts-append (f b g) _
    ∙ ap (place_all (f b g)) (sort_texts-append (f b' g') (flat f x))
    ∙ place_all_comm (f b g) (f b' g') (sort_texts (flat f x))
    ∙ sym (ap (place_all (f b' g')) (sort_texts-append (f b g) (flat f x)))
    ∙ sym (sort_texts-append (f b' g') _)
sort-flat f _ _ (and_then x y z s t) = sort-flat f x y s ∙ sort-flat f y z t

abbrev head_of : Text → List Text → List Text
head_of b g = if ltb (length g) 2 then [] else b ∷ []

conflict_heads-flat : (x : Dict (List Text)) → conflict_heads x ≡ flat head_of x
unfolding conflict_heads flat
conflict_heads-flat [] = refl
conflict_heads-flat ((b, g) ∷ x) = ground (arith, conflict_heads-flat x)

abbrev behind_first : Text → List Text → List Text
behind_first b [] = []
behind_first b (w ∷ others) = others

-- Exchanged updates of two different entries.
alter_comm :
    (j k : Text) (f g : Lease → Lease) (out : Dict Lease)
    → text_eq j k ≡ false
    → alter j f (alter k g out) ≡ alter k g (alter j f out)
unfolding alter
alter_comm j k f g [] ne = refl
alter_comm j k f g ((i, lease) ∷ out) ne =
    ground (arith, alter_comm j k f g out ne, text_eq_iff i j, text_eq_iff i k, text_eq_iff j k)

-- One round of the loop, as far as it updates the leases.
unfoldable lose : List Text → Dict Lease → Dict Lease
lose [] out = out
lose (w ∷ []) out = out
lose (w ∷ l ∷ others) out = alter w (λ lease. record lease { losers = l ∷ others }) out

set_losers-lose :
    (b : Text) (g : List Text) (x : Dict (List Text)) (out : Dict Lease)
    → set_losers ((b, g) ∷ x) out ≡ set_losers x (lose g out)
unfolding set_losers lose
set_losers-lose b [] x out = refl
set_losers-lose b (w ∷ []) x out = refl
set_losers-lose b (w ∷ l ∷ others) x out = refl

module _ (derive : Text → ℕ → Text) where
  lose_comm :
      (b b' : Text) (g g' : List Text) (out : Dict Lease)
      → text_eq b b' ≡ false
      → All (λ id. b ≡ derive id 0) g
      → All (λ id. b' ≡ derive id 0) g'
      → lose g (lose g' out) ≡ lose g' (lose g out)
  unfolding lose
  lose_comm b b' [] g' out ne h h' = refl
  lose_comm b b' (w ∷ []) g' out ne h h' = refl
  lose_comm b b' (w ∷ l ∷ others) [] out ne h h' = refl
  lose_comm b b' (w ∷ l ∷ others) (w' ∷ []) out ne h h' = refl
  lose_comm b b' (w ∷ l ∷ others) (w' ∷ l' ∷ others') out ne h h' =
      alter_comm w w' _ _ out (ground (arith, text_eq_iff w w', text_eq_iff b b', h.0, h'.0))

  Grouped-Reordered : (x y : Dict (List Text)) → Reordered x y → Grouped derive x → Grouped derive y
  Grouped-Reordered _ _ all_done h = tt
  Grouped-Reordered _ _ (same_head b g x y s) h = (h.0, Grouped-Reordered x y s h.1)
  Grouped-Reordered _ _ (exchange b b' g g' x ne) h = (h.1.0, (h.0, h.1.1))
  Grouped-Reordered _ _ (and_then x y z s t) h = Grouped-Reordered y z t (Grouped-Reordered x y s h)

  set_losers-Reordered :
      (x y : Dict (List Text)) (out : Dict Lease)
      → Reordered x y
      → Grouped derive x
      → set_losers x out ≡ set_losers y out
  set_losers-Reordered _ _ out all_done h = refl
  set_losers-Reordered _ _ out (same_head b g x y s) h =
      set_losers-lose b g x out
      ∙ set_losers-Reordered x y (lose g out) s h.1
      ∙ sym (set_losers-lose b g y out)
  set_losers-Reordered _ _ out (exchange b b' g g' x ne) h =
      set_losers-lose b g ((b', g') ∷ x) out
      ∙ set_losers-lose b' g' x (lose g out)
      ∙ ap (set_losers x) (sym (lose_comm b b' g g' out ne h.0 h.1.0))
      ∙ sym (set_losers-lose b g x (lose g' out))
      ∙ sym (set_losers-lose b' g' ((b, g) ∷ x) out)
  set_losers-Reordered _ _ out (and_then x y z s t) h =
      set_losers-Reordered x y out s h ∙ set_losers-Reordered y z out t (Grouped-Reordered x y s h)

  -- The entry of `toReassign` for a member, whose base address is its group's.
  abbrev pending_of : Text → Pending
  pending_of id = record { id = id; base = derive id 0 }

  with_pending-map :
      (b : Text) (ids rest : List Text)
      → All (λ id. b ≡ derive id 0) ids
      → with_pending b ids (map pending_of rest) ≡ map pending_of (ids ++ rest)
  unfolding with_pending
  with_pending-map b [] rest h = refl
  with_pending-map b (id ∷ ids) rest h =
      rw (with_pending-map b ids rest h.1)
        (ap (λ base. record { id = id; base = base } ∷ map pending_of (ids ++ rest)) h.0)

  to_reassign-flat :
      (x : Dict (List Text))
      → Grouped derive x
      → to_reassign x ≡ map pending_of (flat behind_first x)
  unfolding to_reassign flat
  to_reassign-flat [] h = refl
  to_reassign-flat ((b, []) ∷ x) h = to_reassign-flat x h.1
  to_reassign-flat ((b, w ∷ others) ∷ x) h =
      ap (with_pending b others) (to_reassign-flat x h.1)
      ∙ with_pending-map b others (flat behind_first x) h.0.1

  place_pending-map :
      (id : Text) (ids : List Text)
      → place_pending (pending_of id) (map pending_of ids) ≡ map pending_of (place id ids)
  unfolding place_pending place
  place_pending-map id [] = refl
  place_pending-map id (j ∷ ids) = ground (arith, place_pending-map id ids)

  sort_pending-map :
      (ids : List Text) → sort_pending (map pending_of ids) ≡ map pending_of (sort_texts ids)
  unfolding sort_pending sort_texts
  sort_pending-map [] = refl
  sort_pending-map (id ∷ ids) =
      ap (place_pending (pending_of id)) (sort_pending-map ids)
      ∙ place_pending-map id (sort_texts ids)

  sort_pending-Reordered :
      (x y : Dict (List Text))
      → Reordered x y
      → Grouped derive x
      → sort_pending (to_reassign x) ≡ sort_pending (to_reassign y)
  sort_pending-Reordered x y s h =
      ap sort_pending (to_reassign-flat x h)
      ∙ sort_pending-map (flat behind_first x)
      ∙ ap (map pending_of) (sort-flat behind_first x y s)
      ∙ sym (sort_pending-map (flat behind_first y))
      ∙ sym (ap sort_pending (to_reassign-flat y (Grouped-Reordered x y s h)))

  -- The decision is the same in every order of the groups.
  pub decide_in_order-Reordered :
      (x y : Dict (List Text)) (ids blocked : List Text)
      → Reordered x y
      → Grouped derive x
      → decide_in_order derive x ids blocked ≡ decide_in_order derive y ids blocked
  unfolding decide_in_order
  decide_in_order-Reordered x y ids blocked s h =
      let heads : sort_texts (conflict_heads x) ≡ sort_texts (conflict_heads y) =
        ap sort_texts (conflict_heads-flat x)
        ∙ sort-flat head_of x y s
        ∙ sym (ap sort_texts (conflict_heads-flat y)) in
      rw
        (
          heads,
          sort_pending-Reordered x y s h,
          set_losers-Reordered x y (base_leases derive [] ids) s h,
        )
        refl
