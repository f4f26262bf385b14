-- ===== src/Base/Sets.antt =====
-- Lists of texts as sets: membership, the first occurrences, and `sort.Strings`, whose result is
-- the one sorted arrangement.
use Prim.Native.Nat.{suc}
use mathlib.Core.Path.{◌≡◌, refl, sym, ap₂, subst, ◌∙◌}
use mathlib.Core.Logic.{◌⊎◌, inl, inr}
use mathlib.Core.Bool.{Bool, true, false, ◌&&◌, ◌||◌, not}
use mathlib.Core.List.{List, [], ◌∷◌, ◌++◌}
use native.Mathlib.Omega.{arith}
use lanet.Base.Tests.{if◌then◌else◌, Bool-cases}
use lanet.Base.Lists.{length, filter, All}
use lanet.Base.Texts.{
  Text, is_empty, text_eq, text_lt, text_eq→eq, text_eq_refl, text_eq_iff, text_lt_irrefl,
  text_lt_trans, text_lt_total,
}

-- `set[id]` of a Go map to Booleans, as a list of its keys.
unfoldable pub has : Text → List Text → Bool
has id [] = false
has id (x ∷ xs) = text_eq x id || has id xs

pub has-append : (id : Text) (xs ys : List Text) → has id (xs ++ ys) ≡ (has id xs || has id ys)
unfolding has
has-append id [] ys = refl
has-append id (x ∷ xs) ys = ground (arith, has-append id xs ys)

pub has-filter :
    (p : Text → Bool) (id : Text) (xs : List Text) → has id (filter p xs) ≡ (p id && has id xs)
unfolding has
has-filter p id [] = ground arith
has-filter p id (x ∷ xs) = ground (arith, text_eq_iff x id, has-filter p id xs)

-- The elements that are not empty, each at its first occurrence.
unfoldable pub unique_from : List Text → List Text → List Text
unique_from seen [] = []
unique_from seen (id ∷ ids) =
    let skipped = unique_from seen ids in
    let kept = id ∷ unique_from (id ∷ seen) ids in
    if is_empty id || has id seen then skipped else kept

pub has-unique_from :
    (id : Text) (seen ids : List Text)
    → has id (unique_from seen ids) ≡ (not (is_empty id) && not (has id seen) && has id ids)
unfolding has unique_from
has-unique_from id seen [] = ground arith
has-unique_from id seen (x ∷ ids) =
    ground (arith, text_eq_iff x id, has-unique_from id seen ids, has-unique_from id (x ∷ seen) ids)

-- Strictly ascending, so without repetition.
unfoldable pub Ascends : List Text → Type 0
Ascends [] = Unit
Ascends (x ∷ xs) = All (λ y. text_lt x y ≡ true) xs × Ascends xs

unfoldable pub place : Text → List Text → List Text
place x [] = x ∷ []
place x (y ∷ ys) = let rest = place x ys in if text_lt y x then y ∷ rest else x ∷ y ∷ ys

-- `sort.Strings`.
unfoldable pub sort_texts : List Text → List Text
sort_texts [] = []
sort_texts (x ∷ xs) = place x (sort_texts xs)

has-place : (id x : Text) (ys : List Text) → has id (place x ys) ≡ (text_eq x id || has id ys)
unfolding has place
has-place id x [] = refl
has-place id x (y ∷ ys) = ground (arith, has-place id x ys)

pub has-sort_texts : (id : Text) (xs : List Text) → has id (sort_texts xs) ≡ has id xs
unfolding has sort_texts
has-sort_texts id [] = refl
has-sort_texts id (x ∷ xs) = ground (arith, has-place id x (sort_texts xs), has-sort_texts id xs)

length-place : (x : Text) (ys : List Text) → length (place x ys) ≡ suc (length ys)
unfolding place
length-place x [] = refl
length-place x (y ∷ ys) = ground (arith, length-place x ys)

pub length-sort_texts : (xs : List Text) → length (sort_texts xs) ≡ length xs
unfolding sort_texts
length-sort_texts [] = refl
length-sort_texts (x ∷ xs) = ground (arith, length-place x (sort_texts xs), length-sort_texts xs)

-- A bound on every element, read at one of them.
pub All-has : (P : Text → Type 0) (id : Text) (xs : List Text) → All P xs → has id xs ≡ true → P id
unfolding has
All-has P id [] h m = absurd cc
All-has P id (x ∷ xs) h m = elim (Bool-cases (text_eq x id)) [
  | inl here ↦ subst P (text_eq→eq x id here) h.0
  | inr later ↦ All-has P id xs h.1 (ground arith)
]

unfoldable pub AreDistinct : List Text → Type 0
AreDistinct [] = Unit
AreDistinct (x ∷ xs) = (has x xs ≡ false) × AreDistinct xs

pub unique_from-AreDistinct : (seen ids : List Text) → AreDistinct (unique_from seen ids)
unfolding AreDistinct unique_from
unique_from-AreDistinct seen [] = tt
unique_from-AreDistinct seen (id ∷ ids) = elim (Bool-cases (is_empty id || has id seen)) [
  | inl skip ↦ rw skip (unique_from-AreDistinct seen ids)
  | inr keep ↦
      let new : has id (unique_from (id ∷ seen) ids) ≡ false =
        unfold has in ground (arith, has-unique_from id (id ∷ seen) ids, text_eq_refl id) in
      rw keep (new, unique_from-AreDistinct (id ∷ seen) ids)
]

place-All : (P : Text → Type 0) (x : Text) (ys : List Text) → P x → All P ys → All P (place x ys)
unfolding place
place-All P x [] h hs = (h, hs)
place-All P x (y ∷ ys) h hs = elim (Bool-cases (text_lt y x)) [
  | inl before ↦ rw before (hs.0, place-All P x ys h hs.1)
  | inr behind ↦ rw behind (h, hs)
]

lt-All :
    (x y : Text) (ys : List Text)
    → text_lt x y ≡ true
    → All (λ z. text_lt y z ≡ true) ys
    → All (λ z. text_lt x z ≡ true) ys
lt-All x y [] h hs = tt
lt-All x y (z ∷ ys) h hs = (text_lt_trans x y z h hs.0, lt-All x y ys h hs.1)

place-Ascends : (x : Text) (ys : List Text) → has x ys ≡ false → Ascends ys → Ascends (place x ys)
unfolding place Ascends has
place-Ascends x [] new h = (tt, h)
place-Ascends x (y ∷ ys) new h = elim (Bool-cases (text_lt y x)) [
  | inl before ↦
      rw before
        (place-All (λ z. text_lt y z ≡ true) x ys before h.0, place-Ascends x ys (ground arith) h.1)
  | inr behind ↦ elim (Bool-cases (text_lt x y)) [
    | inl less ↦ rw behind ((less, lt-All x y ys less h.0), h)
    | inr same ↦ absurd (ground (arith, text_lt_total x y same behind, text_eq_iff y x))
  ]
]

pub sort_texts-Ascends : (xs : List Text) → AreDistinct xs → Ascends (sort_texts xs)
unfolding sort_texts AreDistinct Ascends
sort_texts-Ascends [] h = tt
sort_texts-Ascends (x ∷ xs) h =
    place-Ascends x (sort_texts xs) (has-sort_texts x xs ∙ h.0) (sort_texts-Ascends xs h.1)

below-has : (x : Text) (xs : List Text) → All (λ y. text_lt x y ≡ true) xs → has x xs ≡ false
below-has x xs h = elim (Bool-cases (has x xs)) [
  | inr out ↦ out
  | inl inside ↦
      absurd (ground (arith, All-has (λ y. text_lt x y ≡ true) x xs h inside, text_lt_irrefl x))
]

head-le :
    (x y : Text) (xs ys : List Text)
    → All (λ z. text_lt y z ≡ true) ys
    → has x (y ∷ ys) ≡ true
    → (text_lt y x ≡ true) ⊎ (y ≡ x)
unfolding has
head-le x y xs ys h m = elim (Bool-cases (text_eq y x)) [
  | inl same ↦ inr (text_eq→eq y x same)
  | inr other ↦ inl (All-has (λ z. text_lt y z ≡ true) x ys h (ground arith))
]

tail_same :
    (x y : Text) (xs ys : List Text) (id : Text)
    → All (λ z. text_lt x z ≡ true) xs
    → All (λ z. text_lt y z ≡ true) ys
    → y ≡ x
    → has id (x ∷ xs) ≡ has id (y ∷ ys)
    → has id xs ≡ has id ys
unfolding has
tail_same x y xs ys id h k heads same = elim (Bool-cases (text_eq x id)) [
  | inl here ↦ ground (arith, below-has x xs h, below-has y ys k, text_eq→eq x id here)
  | inr other ↦ ground arith
]

-- Two ascending lists with the same elements are one list.
pub Ascends-unique :
    (xs ys : List Text) → Ascends xs → Ascends ys → ((id : Text) → has id xs ≡ has id ys) → xs ≡ ys
unfolding Ascends has
Ascends-unique [] [] h k same = refl
Ascends-unique [] (y ∷ ys) h k same = absurd (ground (arith, same y, text_eq_refl y))
Ascends-unique (x ∷ xs) [] h k same = absurd (ground (arith, same x, text_eq_refl x))
Ascends-unique (x ∷ xs) (y ∷ ys) h k same =
    let x_in = head-le x y xs ys k.0 (ground (arith, same x, text_eq_refl x)) in
    let y_in = head-le y x ys xs h.0 (ground (arith, same y, text_eq_refl y)) in
    let heads : y ≡ x = ground (arith, text_lt_trans x y x, text_lt_irrefl x) in
    let rest = λ (id : Text). tail_same x y xs ys id h.0 k.0 heads (same id) in
    ap₂ ◌∷◌ (sym heads) (Ascends-unique xs ys h.1 k.1 rest)

-- Which texts a list has decides its sorted arrangement.
pub sort_texts-same :
    (xs ys : List Text)
    → AreDistinct xs
    → AreDistinct ys
    → ((id : Text) → has id xs ≡ has id ys)
    → sort_texts xs ≡ sort_texts ys
sort_texts-same xs ys h k same =
    Ascends-unique (sort_texts xs) (sort_texts ys) (sort_texts-Ascends xs h)
      (sort_texts-Ascends ys k) (λ id. has-sort_texts id xs ∙ same id ∙ sym (has-sort_texts id ys))
