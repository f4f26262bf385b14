-- ===== src/Selfupdate/Order.antt =====
-- Versions that are printed as three numbers are compared as those numbers.
use lanet.Base.{
  ℕ, ◌+◌, ◌-◌, ◌*◌, ◌%◌, ◌^◌, ◌≤◌, ◌<◌, ◌≡◌, refl, sym, ap, ap₂, ◌∙◌, true, false, List, [], ◌∷◌,
  ◌++◌, arith, ltb, ◌==◌, if◌then◌else◌, is_empty, Text, show_dec, IsDigits, show_dec-IsDigits,
  show_dec-nonempty, number_from, number_from-show_dec, number_from-cons, number_from-nil, ℤ, pos,
  negsuc,
}
use lanet.Selfupdate.{
  signed_lt, Scan, close_segment, scan_byte, scan_from, parse_semver, compare_segments,
  compare_versions,
}

abbrev modulus : ℕ
modulus = 18446744073709551616

-- Reading on from the pattern gives the pattern.
number_from-mod :
    (n : ℕ) (digits : Text)
    → number_from (n % modulus) digits % modulus ≡ number_from n digits % modulus
number_from-mod n [] = ground (arith, number_from-nil (n % modulus), number_from-nil n)
number_from-mod n (c ∷ digits) =
    let d = c - 48 in
    let same : ((n % modulus) * 10 + d) % modulus ≡ (n * 10 + d) % modulus = omega arith in
    ap (λ k. k % modulus) (number_from-cons (n % modulus) c digits)
    ∙ (sym (number_from-mod ((n % modulus) * 10 + d) digits)
        ∙ (ap (λ k. number_from k digits % modulus) same
            ∙ (number_from-mod (n * 10 + d) digits
                ∙ ap (λ k. k % modulus) (sym (number_from-cons n c digits)))))

scan_byte-digit :
    (s : Scan) (c : ℕ)
    → (48 ≤ c) × (c ≤ 57)
    → scan_byte s c
      ≡ record { out = s.out; seg = s.seg; num = (s.num * 10 + (c - 48)) % modulus; got = true }
unfolding scan_byte
scan_byte-digit s c h = ground (arith, h.0, h.1)

any_true : (digits : Text) → (if is_empty digits then true else true) ≡ true
any_true [] = refl
any_true (c ∷ digits) = refl

-- A segment of digits is read as its number.
scan_from-digits :
    (s : Scan) (digits rest : Text)
    → IsDigits digits
    → s.num < modulus
    → scan_from s (digits ++ rest)
      ≡ scan_from
          (record {
            out = s.out;
            seg = s.seg;
            num = number_from s.num digits % modulus;
            got = if is_empty digits then s.got else true;
          })
          rest
unfolding scan_from scan_byte
scan_from-digits s [] rest h b =
    ap (λ n. scan_from (record { out = s.out; seg = s.seg; num = n; got = s.got }) rest)
      (ground (arith, number_from-nil s.num))
scan_from-digits s (c ∷ digits) rest h b =
    let num = s.num * 10 + (c - 48) in
    let s' : Scan = record { out = s.out; seg = s.seg; num = num % modulus; got = true } in
    let step : scan_byte s c ≡ s' = scan_byte-digit s c h.0 in
    let same : number_from (num % modulus) digits % modulus
        ≡ number_from s.num (c ∷ digits) % modulus =
      number_from-mod num digits ∙ ap (λ n. n % modulus) (sym (number_from-cons s.num c digits)) in
    ap (λ t. scan_from t (digits ++ rest)) step
    ∙ (scan_from-digits s' digits rest h.1 (omega arith)
        ∙ ap₂ (λ n g. scan_from (record { out = s.out; seg = s.seg; num = n; got = g }) rest) same
            (any_true digits))

-- A printed number is read whole.
scan_from-show_dec :
    (out : List ℕ) (seg n : ℕ) (rest : Text)
    → n < modulus
    → scan_from (record { out = out; seg = seg; num = 0; got = false }) (show_dec n ++ rest)
      ≡ scan_from (record { out = out; seg = seg; num = n; got = true }) rest
scan_from-show_dec out seg n rest h =
    let s : Scan = record { out = out; seg = seg; num = 0; got = false } in
    let read : number_from 0 (show_dec n) % modulus ≡ n =
      ap (λ k. k % modulus) (number_from-show_dec n) ∙ omega arith in
    scan_from-digits s (show_dec n) rest (show_dec-IsDigits n) (omega arith)
    ∙ ap₂ (λ k g. scan_from (record { out = out; seg = seg; num = k; got = g }) rest) read
        (ap (λ e. if e then false else true) (show_dec-nonempty n))

-- The text of a version of three numbers.
abbrev pub print_version : ℕ → ℕ → ℕ → Text
print_version a b c = show_dec a ++ (b'.' ∷ (show_dec b ++ (b'.' ∷ (show_dec c ++ []))))

-- Three numbers below 2 ^ 64 are read back from the text.
pub parse_semver-print_version :
    (a b c : ℕ)
    → a < 2 ^ 64
    → b < 2 ^ 64
    → c < 2 ^ 64
    → parse_semver (print_version a b c) ≡ a ∷ b ∷ c ∷ []
unfolding parse_semver scan_from scan_byte close_segment
parse_semver-print_version a b c ha hb hc =
    ap (λ s. s.out)
      (scan_from-show_dec (0 ∷ 0 ∷ 0 ∷ []) 0 a (b'.' ∷ (show_dec b ++ (b'.' ∷ (show_dec c ++ []))))
          ha
        ∙ (scan_from-show_dec (a ∷ 0 ∷ 0 ∷ []) 1 b (b'.' ∷ (show_dec c ++ [])) hb
            ∙ scan_from-show_dec (a ∷ b ∷ 0 ∷ []) 2 c [] hc))

-- The order of two numbers, and by the rest where they are equal.
unfoldable pub order_then : ℕ → ℕ → ℤ → ℤ
order_then a b rest = if ltb a b then negsuc 0 else if ltb b a then pos 1 else rest

-- Below 2 ^ 63 the signed order is that of the numbers.
segment-order :
    (a b : ℕ) (rest : ℤ)
    → a < 2 ^ 63
    → b < 2 ^ 63
    → (if a == b then rest else if signed_lt a b then negsuc 0 else pos 1) ≡ order_then a b rest
unfolding order_then
segment-order a b rest ha hb = ground arith

-- Two versions of three numbers below 2 ^ 63 each compare as the numbers do, the first before the
-- second before the third.
pub compare_versions-print_version :
    (a b c a' b' c' : ℕ)
    → a < 2 ^ 63
    → b < 2 ^ 63
    → c < 2 ^ 63
    → a' < 2 ^ 63
    → b' < 2 ^ 63
    → c' < 2 ^ 63
    → compare_versions (print_version a b c) (print_version a' b' c')
      ≡ order_then a a' (order_then b b' (order_then c c' (pos 0)))
unfolding compare_versions compare_segments order_then
compare_versions-print_version a b c a' b' c' ha hb hc ha' hb' hc' =
    ap₂ compare_segments
      (parse_semver-print_version a b c (omega arith) (omega arith) (omega arith))
      (parse_semver-print_version a' b' c' (omega arith) (omega arith) (omega arith))
    ∙ (segment-order a a' _ ha ha'
        ∙ ap (order_then a a') (
            segment-order b b' _ hb hb' ∙ ap (order_then b b') (segment-order c c' (pos 0) hc hc')))
