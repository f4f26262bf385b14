-- ===== src/Tests/RelayTheorems.antt =====
-- The listing of the relay directory, with an insertion sort for `sort.Slice`.
use lanet.Base.{
  ℕ, ◌≤◌, ◌≡◌, refl, true, List, [], ◌∷◌, ◌++◌, arith, if◌then◌else◌, length, filter, All, All-mono,
  Bool-cases, inl, inr, codes, pos, leb_ℤ, Text,
}
use mathlib.Core.List.{Perm}
use mathlib.Core.List.Perm
use lanet.Ctl.Relays.{RelayCandidate, RelayDirectory, Descends, Sorting, is_alive, list}
use lanet.Ctl.Relays.Ranking.{list-ranks}

abbrev pub place : RelayCandidate → List RelayCandidate → List RelayCandidate
place a [] = a ∷ []
place a (b ∷ items) =
    let rest = place a items in if leb_ℤ b.score a.score then a ∷ b ∷ items else b ∷ rest

abbrev pub sort_candidates : List RelayCandidate → List RelayCandidate
sort_candidates [] = []
sort_candidates (a ∷ items) = place a (sort_candidates items)

place-Perm : (a : RelayCandidate) (items : List RelayCandidate) → Perm (place a items) (a ∷ items)
place-Perm a [] = Perm.refl (a ∷ [])
place-Perm a (b ∷ items) = elim (Bool-cases (leb_ℤ b.score a.score)) [
  | inl before ↦ rw before (Perm.refl (a ∷ b ∷ items))
  | inr behind ↦ rw behind (Perm.trans (Perm.cons b (place-Perm a items)) (Perm.swap a b items))
]

pub sort_candidates-Perm : (items : List RelayCandidate) → Perm (sort_candidates items) items
sort_candidates-Perm [] = Perm.refl []
sort_candidates-Perm (a ∷ items) =
    Perm.trans (place-Perm a (sort_candidates items)) (Perm.cons a (sort_candidates-Perm items))

place-All :
    (P : RelayCandidate → Type 0) (a : RelayCandidate) (items : List RelayCandidate)
    → P a
    → All P items
    → All P (place a items)
place-All P a [] h hs = (h, hs)
place-All P a (b ∷ items) h hs = elim (Bool-cases (leb_ℤ b.score a.score)) [
  | inl before ↦ rw before (h, (hs.0, hs.1))
  | inr behind ↦ rw behind (hs.0, place-All P a items h hs.1)
]

place-Descends :
    (a : RelayCandidate) (items : List RelayCandidate) → Descends items → Descends (place a items)
unfolding Descends
place-Descends a [] h = (tt, h)
place-Descends a (b ∷ items) h = elim (Bool-cases (leb_ℤ b.score a.score)) [
  | inl before ↦ rw before (
    (
      before,
      All-mono (λ c. leb_ℤ c.score b.score ≡ true) (λ c. leb_ℤ c.score a.score ≡ true)
          (λ c e. ground arith) items h.0,
    ),
    h,
  )
  | inr behind ↦ rw behind (
    place-All (λ c. leb_ℤ c.score b.score ≡ true) a items (ground arith) h.0,
    place-Descends a items h.1,
  )
]

pub sort_candidates-Descends : (items : List RelayCandidate) → Descends (sort_candidates items)
unfolding Descends
sort_candidates-Descends [] = tt
sort_candidates-Descends (a ∷ items) =
    place-Descends a (sort_candidates items) (sort_candidates-Descends items)

abbrev insertion_sort : Sorting
insertion_sort = record {
  sort = sort_candidates;
  sort-Perm = sort_candidates-Perm;
  sort-Descends = sort_candidates-Descends;
}

abbrev relay : Text → ℕ → ℕ → RelayCandidate
relay peer score seen = record {
  peer_id = peer;
  addrs = codes "a" ∷ [];
  region = [];
  score = pos score;
  circuit_count = pos 0;
  last_seen_at = pos seen;
}

abbrev directory : RelayDirectory
directory = record {
  candidates = relay (codes "r1") 3 100 ∷ relay (codes "r2") 8 100 ∷ relay (codes "r3") 5 100 ∷ [];
  updated_at = pos 100;
}

abbrev best_two : List RelayCandidate
best_two = relay (codes "r2") 8 100 ∷ relay (codes "r3") 5 100 ∷ []

list-ranks_example :
    (rest : List RelayCandidate) × Perm
      (best_two ++ rest)
      (filter (is_alive (pos 200)) directory.candidates)
    × (length best_two ≤ 2)
    × All (λ a. All (λ b. leb_ℤ b.score a.score ≡ true) rest) best_two
unfolding list is_alive
list-ranks_example = list-ranks insertion_sort (pos 200) (pos 2) directory best_two refl
