-- ===== src/Serverless/Hostnames/Bounds.antt =====
-- What `DNSLabel` prints.
use lanet.Base.{
  ℕ, zero, suc, ◌≤◌, ◌≡◌, inl, inr, Bool, true, ◌&&◌, [], ◌∷◌, arith, ltb, ◌==◌, length,
  length-take-le, take, filter, All, Text, is_empty, trim_space, to_lower, trim_byte,
  trim_byte_left, trim_byte_right, Bool-cases,
}
use lanet.Serverless.Hostnames.{is_label_byte, hyphenated, collapsed, dns_label}

filter-All : (p : ℕ → Bool) (s : Text) → All (λ c. p c ≡ true) (filter p s)
filter-All p [] = tt
filter-All p (c ∷ s) = elim (Bool-cases (p c)) [
  | inl e ↦ rw e (e, filter-All p s)
  | inr e ↦ rw e (filter-All p s)
]

module _ (P : ℕ → Type 0) where
  collapsed-All : (s : Text) → All P s → All P (collapsed s)
  unfolding collapsed
  collapsed-All [] h = tt
  collapsed-All (c ∷ []) h = h
  collapsed-All (c ∷ d ∷ s) h = elim (Bool-cases ((c == b'-') && (d == b'-'))) [
    | inl e ↦ rw e (collapsed-All (d ∷ s) h.1)
    | inr e ↦ rw e (h.0, collapsed-All (d ∷ s) h.1)
  ]

  trim_byte_left-All : (b : ℕ) (s : Text) → All P s → All P (trim_byte_left b s)
  unfolding trim_byte_left
  trim_byte_left-All b [] h = tt
  trim_byte_left-All b (c ∷ s) h = elim (Bool-cases (c == b)) [
    | inl e ↦ rw e (trim_byte_left-All b s h.1)
    | inr e ↦ rw e h
  ]

  trim_byte_right-All : (b : ℕ) (s : Text) → All P s → All P (trim_byte_right b s)
  unfolding trim_byte_right
  trim_byte_right-All b [] h = tt
  trim_byte_right-All b (c ∷ s) h = elim (Bool-cases (is_empty (trim_byte_right b s) && (c == b))) [
    | inl e ↦ rw e tt
    | inr e ↦ rw e (h.0, trim_byte_right-All b s h.1)
  ]

  take-All : (n : ℕ) (s : Text) → All P s → All P (take n s)
  take-All zero s h = tt
  take-All (suc n) [] h = tt
  take-All (suc n) (c ∷ s) h = (h.0, take-All n s h.1)

length-trim_byte_right : (b : ℕ) (s : Text) → length (trim_byte_right b s) ≤ length s
unfolding trim_byte_right
length-trim_byte_right b [] = omega arith
length-trim_byte_right b (c ∷ s) = ground (arith, length-trim_byte_right b s)

-- `DNSLabel` prints at most 63 bytes, each a lower-case letter, a digit or a hyphen.
pub dns_label-IsLabel :
    (name : Text)
    → (length (dns_label name) ≤ 63) × All (λ c. is_label_byte c ≡ true) (dns_label name)
unfolding dns_label trim_byte
dns_label-IsLabel name =
    let words = hyphenated (to_lower (trim_space name)) in
    let plain = filter is_label_byte words in
    let s = trim_byte b'-' (collapsed plain) in
    let good : All (λ c. is_label_byte c ≡ true) s =
      trim_byte_right-All _ b'-' _
        (trim_byte_left-All _ b'-' _ (collapsed-All _ plain (filter-All is_label_byte words))) in
    elim (Bool-cases (ltb 63 (length s))) [
      | inl over ↦ rw over (
        omega (arith, length-trim_byte_right b'-' (take 63 s), length-take-le 63 s),
        trim_byte_right-All _ b'-' _ (take-All _ 63 s good),
      )
      | inr fits ↦ rw fits (ground arith, good)
    ]
