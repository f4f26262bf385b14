-- ===== src/Protocol/Fingerprint.antt =====
-- Protocol IDs of different groups: pkg/protocol/protocol.go.
use lanet.Base.{
  ℕ, zero, suc, false, length-take, ◌/◌, ◌%◌, ◌≤◌, ◌<◌, ◌≡◌, refl, List, [], ◌∷◌, ◌++◌, arith, ltb,
  length, All, take, Text, codes,
}
use mathlib.Core.List.{append_cancel_right}
use lanet.Netip.{IsByte}
use lanet.Protocol.{hex_digit, hex_encode, group_fingerprint, group_proto_id}

hex_digit-injective : (a b : ℕ) → a < 16 → b < 16 → hex_digit a ≡ hex_digit b → a ≡ b
unfolding hex_digit
hex_digit-injective a b h k e = ground arith

-- The head and the tail of an equation between lists.
cons-injective : (a b : ℕ) (s t : Text) → ◌≡◌ {A = Text} (a ∷ s) (b ∷ t) → (a ≡ b) × (s ≡ t)
cons-injective a b s t e = (cc, cc)

byte_eq : (a b : ℕ) → a < 256 → b < 256 → a / 16 % 16 ≡ b / 16 % 16 → a % 16 ≡ b % 16 → a ≡ b
byte_eq a b h k e f = omega arith

-- Two keys with one first part of their text: the texts that follow may differ.
hex_encode_append :
    (xs ys : List ℕ) (s t : Text)
    → All IsByte xs
    → All IsByte ys
    → length xs ≡ length ys
    → hex_encode xs ++ s ≡ hex_encode ys ++ t
    → (xs ≡ ys) × (s ≡ t)
unfolding hex_encode
hex_encode_append [] [] s t h k l e = (refl, e)
hex_encode_append [] (y ∷ ys) s t h k l e = absurd (omega arith)
hex_encode_append (x ∷ xs) [] s t h k l e = absurd (omega arith)
hex_encode_append (x ∷ xs) (y ∷ ys) s t h k l e =
    let (hi, e') = cons-injective _ _ _ _ e in
    let (lo, rest) = cons-injective _ _ _ _ e' in
    let (same, end) = hex_encode_append xs ys s t h.1 k.1 (omega arith) rest in
    let a = hex_digit-injective (x / 16 % 16) (y / 16 % 16) (omega arith) (omega arith) hi in
    let b = hex_digit-injective (x % 16) (y % 16) (omega arith) (omega arith) lo in
    let c = byte_eq x y h.0 k.0 a b in (cc, end)

append-cancel_left : (s t u : Text) → s ++ t ≡ s ++ u → t ≡ u
append-cancel_left [] t u e = e
append-cancel_left (c ∷ s) t u e = append-cancel_left s t u (cc)

not-ltb_4 : (key : List ℕ) → 4 ≤ length key → ltb (length key) 4 ≡ false
not-ltb_4 key h = ground arith

All-take : (n : ℕ) (xs : List ℕ) → All IsByte xs → All IsByte (take n xs)
All-take zero xs h = tt
All-take (suc n) [] h = tt
All-take (suc n) (x ∷ xs) h = (h.0, All-take n xs h.1)

-- Keys of four bytes or more: one protocol ID means one fingerprint and one base name, so two
-- groups whose keys differ in the first four bytes share no control protocol.
pub group_proto_id-injective :
    (base base' : Text) (key key' : List ℕ)
    → 4 ≤ length key
    → 4 ≤ length key'
    → All IsByte key
    → All IsByte key'
    → group_proto_id base key ≡ group_proto_id base' key'
    → (take 4 key ≡ take 4 key') × (base ≡ base')
unfolding group_proto_id group_fingerprint
group_proto_id-injective base base' key key' h k bs bs' e =
    let e' = rw (not-ltb_4 key h, not-ltb_4 key' k) at e in
    let rest = append-cancel_left (codes "/lanet/") _ _ e' in
    let (same, tail) =
      hex_encode_append (take 4 key) (take 4 key') _ _ (All-take 4 key bs) (All-take 4 key' bs')
        (omega (arith, length-take 4 key, length-take 4 key')) rest in
    (
      same,
      append_cancel_right base base' (codes "/1.0.0") (append-cancel_left (codes "/") _ _ tail),
    )
