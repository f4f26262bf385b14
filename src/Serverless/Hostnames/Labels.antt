-- ===== src/Serverless/Hostnames/Labels.antt =====
-- The labels of `Hostnames`: no two members share one.
use lanet.Base.{
  ℕ, zero, suc, ◌+◌, ◌≤◌, ◌<◌, ◌≡◌, sym, ap, subst, ◌∙◌, inl, inr, true, false, Option, none, some,
  List, [], ◌∷◌, ◌++◌, arith, leb, if◌then◌else◌, length, length-append, Text, codes, text_eq,
  text_eq_iff, text_eq_refl, text_eq→eq, Dict, lookup, insert, lookup-insert, has, Bool-cases,
  Option-cases,
}
use lanet.Serverless.Hostnames.{
  MemberRef, free_from, free_label, then_name, base_label, names_from, suffix_of,
}

-- The texts that are at least so long.
long : ℕ → List Text → ℕ
long n [] = 0
long n (t ∷ taken) = let rest = long n taken in if leb n (length t) then suc rest else rest

long-le : (n : ℕ) (taken : List Text) → long n taken ≤ length taken
unfolding long
long-le n [] = omega arith
long-le n (t ∷ taken) = ground (arith, long-le n taken)

long_mono : (n m : ℕ) (taken : List Text) → n ≤ m → long m taken ≤ long n taken
unfolding long
long_mono n m [] h = omega arith
long_mono n m (t ∷ taken) h = ground (arith, long_mono n m taken h)

-- A text that is taken is one of those.
long-has :
    (cand : Text) (taken : List Text)
    → has cand taken ≡ true
    → long (length cand + 2) taken < long (length cand) taken
unfolding long has
long-has cand [] h = absurd cc
long-has cand (t ∷ taken) h = elim (Bool-cases (text_eq t cand)) [
  | inl e ↦ ground (
    arith,
    ap length (text_eq→eq t cand e),
    long_mono (length cand) (length cand + 2) taken (omega arith),
  )
  | inr e ↦ ground (arith, long-has cand taken)
]

free_from-new :
    (taken : List Text) (left : ℕ) (cand : Text)
    → long (length cand) taken ≤ left
    → has (free_from taken left cand) taken ≡ false
unfolding free_from
free_from-new taken zero cand h = elim (Bool-cases (has cand taken)) [
  | inl used ↦ absurd (omega (arith, long-has cand taken used))
  | inr free ↦ free
]
free_from-new taken (suc left) cand h = elim (Bool-cases (has cand taken)) [
  | inr free ↦ rw free free
  | inl used ↦
      let shorter : long (length (cand ++ codes "-x")) taken ≤ left =
        subst (λ n. long n taken ≤ left) (sym (length-append cand (codes "-x")))
          (omega (arith, long-has cand taken used)) in
      rw used (free_from-new taken left (cand ++ codes "-x") shorter)
]

-- A label that is given is free.
pub free_label-new :
    (taken : List Text) (peer_id label : Text) → has (free_label taken peer_id label) taken ≡ false
unfolding free_label
free_label-new taken peer_id label =
    let cand = label ++ codes "-" ++ suffix_of peer_id in
    elim (Bool-cases (has label taken)) [
      | inl used ↦ rw used (free_from-new taken (length taken) cand (long-le (length cand) taken))
      | inr free ↦ rw free free
    ]

-- Every label given is taken, and no two peers have one.
unfoldable pub IsNaming : List Text → Dict Text → Type 0
IsNaming taken out =
    ((id label : Text) → lookup id out ≡ some label → has label taken ≡ true)
    × ((id id' label : Text) → lookup id out ≡ some label → lookup id' out ≡ some label → id ≡ id')

insert-IsNaming :
    (taken : List Text) (out : Dict Text) (peer_id label : Text)
    → has label taken ≡ false
    → IsNaming taken out
    → IsNaming (label ∷ taken) (insert peer_id label out)
unfolding IsNaming has
insert-IsNaming taken out peer_id label new h = (
  λ id l e. ground (arith, lookup-insert peer_id id label out, h.0 id l, text_eq_refl l),
  λ id id' l e e'. ground (
    arith,
    lookup-insert peer_id id label out,
    lookup-insert peer_id id' label out,
    h.0 id l,
    h.0 id' l,
    h.1 id id' l,
    text_eq_iff peer_id id,
    text_eq_iff peer_id id',
  ),
)

module _ (parse_ip4 : Text → Option (List ℕ)) where
  names_from-panic :
      (taken : List Text) (out : Dict Text) (m : MemberRef) (ms : List MemberRef)
      (hosts : Dict Text)
      → base_label parse_ip4 m ≡ none
      → ¬ (names_from parse_ip4 taken out (m ∷ ms) ≡ some hosts)
  unfolding names_from
  names_from-panic taken out m ms hosts e h = ground (
    arith,
    ap
        (λ o. then_name o (λ label.
          names_from parse_ip4 (free_label taken m.peer_id label ∷ taken)
            (insert m.peer_id (free_label taken m.peer_id label) out) ms))
        e,
  )

  pub names_from-step :
      (taken : List Text) (out : Dict Text) (m : MemberRef) (ms : List MemberRef) (label : Text)
      → base_label parse_ip4 m ≡ some label
      → names_from parse_ip4 taken out (m ∷ ms)
        ≡ names_from parse_ip4
            (free_label taken m.peer_id label ∷ taken)
            (insert m.peer_id (free_label taken m.peer_id label) out)
            ms
  unfolding names_from
  names_from-step taken out m ms label e =
      ap
        (λ o. then_name o (λ l.
          names_from parse_ip4 (free_label taken m.peer_id l ∷ taken)
            (insert m.peer_id (free_label taken m.peer_id l) out) ms))
        e

  pub names_from-IsNaming :
      (taken : List Text) (out : Dict Text) (ms : List MemberRef) (hosts : Dict Text)
      → IsNaming taken out
      → names_from parse_ip4 taken out ms ≡ some hosts
      → (all_taken : List Text) × IsNaming all_taken hosts
  unfolding names_from
  names_from-IsNaming taken out [] hosts h e = (taken, subst (IsNaming taken) (ground arith) h)
  names_from-IsNaming taken out (m ∷ ms) hosts h e = elim (Option-cases (base_label parse_ip4 m)) [
    | inl panic ↦ absurd (names_from-panic taken out m ms hosts panic e)
    | inr (label, given) ↦
        let final = free_label taken m.peer_id label in
        names_from-IsNaming (final ∷ taken) (insert m.peer_id final out) ms hosts
          (insert-IsNaming taken out m.peer_id final (free_label-new taken m.peer_id label) h)
          (sym (names_from-step taken out m ms label given) ∙ e)
  ]
