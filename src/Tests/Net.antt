-- ===== src/Tests/Net.antt =====
-- A concrete text form for addresses and prefixes, with the round trips of the interface: a tag
-- byte and the bytes, and the dotted form for the /24 networks under 10.7.
use lanet.Base.{
  ℕ, ◌<◌, ◌≤◌, ◌≡◌, refl, subst, Bool, true, ◌&&◌, List, [], ◌∷◌, ◌++◌, Option, none, some, arith,
  ltb, leb, ◌==◌, if◌then◌else◌, length, drop, All, Text, show_dec, show_dec-IsDigits, IsDigits-ne,
  cut_at, cut_at-append, atoi, atoi-show_dec, ℤ, pos, negsuc,
}
use lanet.Netip.{Addr, v4, v6, IsByte, IsAddr, Prefix, addr_key, subnet, subnet_text, Netip}

abbrev pub are_bytes : List ℕ → Bool
are_bytes [] = true
are_bytes (b ∷ bs) = ltb b 256 && are_bytes bs

are_bytes-All : (bs : List ℕ) → are_bytes bs ≡ true → All IsByte bs
are_bytes-All [] h = tt
are_bytes-All (b ∷ bs) h = (ground arith, are_bytes-All bs (ground arith))

All-are_bytes : (bs : List ℕ) → All IsByte bs → are_bytes bs ≡ true
All-are_bytes [] h = refl
All-are_bytes (b ∷ bs) h = ground (arith, All-are_bytes bs h.1, h.0)

abbrev pub parse_tagged : Text → Option Addr
parse_tagged [] = none
parse_tagged (tag ∷ bs) =
    if (tag == 4) && (length bs == 4) && are_bytes bs
    then some (v4 bs)
    else if (tag == 6) && (length bs == 16) && are_bytes bs
    then some (v6 bs)
    else none

abbrev pub print_tagged : Prefix → Text
print_tagged p = elim p.addr [ v4 bs ↦ 4 ∷ p.bits ∷ bs | v6 bs ↦ 6 ∷ p.bits ∷ bs ]

abbrev pub dotted_index : Option ℤ → Option Prefix
dotted_index (some (pos n)) = if ltb n 256 then some (subnet n) else none
dotted_index (some (negsuc n)) = none
dotted_index none = none

abbrev pub dotted_parts : Option (Text × Text) → Option Prefix
dotted_parts none = none
dotted_parts (some (third, rest)) = dotted_index (atoi third)

abbrev pub parse_dotted : Text → Option Prefix
parse_dotted t = dotted_parts (cut_at b'.' t)

abbrev pub parse_tagged_prefix : Text → Option Prefix
parse_tagged_prefix [] = none
parse_tagged_prefix (k ∷ bs) =
    if (length bs == 16) && are_bytes bs && leb k 128
    then some (record { addr = v6 bs; bits = k })
    else none

abbrev pub parse_any_prefix : Text → Option Prefix
parse_any_prefix [] = none
parse_any_prefix (c ∷ t) =
    if c == 6 then parse_tagged_prefix t else if c == b'1' then parse_dotted (drop 4 t) else none

pub parse_tagged-IsAddr : (t : Text) (a : Addr) → parse_tagged t ≡ some a → IsAddr a
parse_tagged-IsAddr [] a h = absurd cc
parse_tagged-IsAddr (tag ∷ bs) (v4 cs) h =
    let valid : (length bs ≡ 4) × (are_bytes bs ≡ true) × (bs ≡ cs) = ground arith in
    subst (λ l. (length l ≡ 4) × All IsByte l) valid.2 (valid.0, are_bytes-All bs valid.1)
parse_tagged-IsAddr (tag ∷ bs) (v6 cs) h =
    let valid : (length bs ≡ 16) × (are_bytes bs ≡ true) × (bs ≡ cs) = ground arith in
    subst (λ l. (length l ≡ 16) × All IsByte l) valid.2 (valid.0, are_bytes-All bs valid.1)

pub parse_tagged-addr_key : (a : Addr) → IsAddr a → parse_tagged (addr_key a) ≡ some a
parse_tagged-addr_key (v4 bs) h = rw (h.0, All-are_bytes bs h.1) refl
parse_tagged-addr_key (v6 bs) h = rw (h.0, All-are_bytes bs h.1) refl

pub parse_any_prefix-print_tagged :
    (bs : List ℕ) (k : ℕ)
    → IsAddr (v6 bs)
    → k ≤ 128
    → parse_any_prefix (print_tagged (record { addr = v6 bs; bits = k }))
      ≡ some (record { addr = v6 bs; bits = k })
parse_any_prefix-print_tagged bs k h b = ground (arith, h.0, All-are_bytes bs h.1)

parse_dotted-show_dec :
    (n : ℕ)
    → n < 256
    → parse_dotted (show_dec n ++ b'.' ∷ b'0' ∷ b'/' ∷ b'2' ∷ b'4' ∷ []) ≡ some (subnet n)
parse_dotted-show_dec n b =
    rw
      (
        cut_at-append b'.' (show_dec n) (b'0' ∷ b'/' ∷ b'2' ∷ b'4' ∷ [])
            (IsDigits-ne b'.' _ (omega arith) (show_dec-IsDigits n)),
        atoi-show_dec n (omega (arith, b)),
      )
      (ground arith)

pub parse_any_prefix-subnet_text :
    (n : ℕ) → n < 256 → parse_any_prefix (subnet_text n) ≡ some (subnet n)
parse_any_prefix-subnet_text n b = parse_dotted-show_dec n b

abbrev pub test_netip : Netip
test_netip = record {
  parse_addr = parse_tagged;
  print_addr = addr_key;
  parse_prefix = parse_any_prefix;
  print_prefix = print_tagged;
  parse_empty = refl;
  parse-IsAddr = parse_tagged-IsAddr;
  parse-print = parse_tagged-addr_key;
  parse-print_prefix = parse_any_prefix-print_tagged;
  parse_subnet = parse_any_prefix-subnet_text;
}
