-- ===== src/Ctl/Relays/Ranking.antt =====
-- The relays that a listing offers are the best of those alive.
use lanet.Base.{
  ℕ, ◌≤◌, ◌≡◌, refl, sym, ap, ◌∙◌, subst, true, false, ◌||◌, List, [], ◌∷◌, ◌++◌, length, take,
  drop, filter, take-append-drop, All, length-take-le, ℤ, pos, pos_part, leb_ℤ, ltb_ℤ, Time, ok,
  Bool-cases, inl, inr, ok-injective,
}
use mathlib.Core.List.{Perm}
use lanet.Ctl.Relays.{RelayCandidate, RelayDirectory, Sorting, Descends, is_alive, list}

All-after :
    (P : RelayCandidate → Type 0) (xs ys : List RelayCandidate) → All P (xs ++ ys) → All P ys
All-after P [] ys h = h
All-after P (x ∷ xs) ys h = All-after P xs ys h.1

Descends-append :
    (xs ys : List RelayCandidate)
    → Descends (xs ++ ys)
    → All (λ a. All (λ b. leb_ℤ b.score a.score ≡ true) ys) xs
unfolding Descends
Descends-append [] ys h = tt
Descends-append (x ∷ xs) ys h = (All-after _ xs ys h.0, Descends-append xs ys h.1)

-- A listing that succeeds has at most `limit` relays. With those it leaves out they are the
-- candidates alive, in some order, and none left out has a better score than one listed.
pub list-ranks :
    (sorting : Sorting) (now : Time) (limit : ℤ) (d : RelayDirectory) (items : List RelayCandidate)
    → (list sorting now limit d).1 ≡ ok items
    → (rest : List RelayCandidate) × Perm (items ++ rest) (filter (is_alive now) d.candidates)
      × (length items ≤ pos_part limit)
      × All (λ a. All (λ b. leb_ℤ b.score a.score ≡ true) rest) items
unfolding list
list-ranks sorting now limit d items e =
    elim (Bool-cases (ltb_ℤ limit (pos 1) || ltb_ℤ (pos 10) limit)) [
      | inl bad ↦ absurd (refused bad e)
      | inr good ↦ subst Ranked (ok-injective _ _ (ap (λ r. r.1) (sym (served good)) ∙ e)) best
    ]
  where
    alive : List RelayCandidate
    alive = filter (is_alive now) d.candidates

    sorted : List RelayCandidate
    sorted = sorting.sort alive

    n : ℕ
    n = pos_part limit

    Ranked : List RelayCandidate → Type 0
    Ranked xs =
        (rest : List RelayCandidate) × Perm (xs ++ rest) alive
        × (length xs ≤ n)
        × All (λ a. All (λ b. leb_ℤ b.score a.score ≡ true) rest) xs

    whole : take n sorted ++ drop n sorted ≡ sorted
    whole = take-append-drop n sorted

    best : Ranked (take n sorted)
    best = (
      drop n sorted,
      rw whole (sorting.sort-Perm alive),
      length-take-le n sorted,
      Descends-append (take n sorted) (drop n sorted) (rw whole (sorting.sort-Descends alive)),
    )

    served :
        (ltb_ℤ limit (pos 1) || ltb_ℤ (pos 10) limit) ≡ false
        → list sorting now limit d
          ≡ (record { candidates = alive; updated_at = d.updated_at }, ok (take n sorted))
    served good = rw good refl

    refused :
        (ltb_ℤ limit (pos 1) || ltb_ℤ (pos 10) limit) ≡ true
        → (list sorting now limit d).1 ≡ ok items
        → ⊥
    refused bad = rw bad (λ h. cc)
