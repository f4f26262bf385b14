-- ===== src/Netip.antt =====
-- Go's net/netip, as far as the program uses it: addresses and prefixes as their bytes, and the
-- text forms as an interface with the round trips that the package documents.
use lanet.Base.{
  ℕ, ◌-◌, ◌*◌, ◌/◌, ◌^◌, ◌≤◌, ◌<◌, ◌≡◌, arith, refl, ap, Bool, true, false, ◌&&◌, Option, none,
  some, List, [], ◌∷◌, ◌++◌, leb, ◌==◌, if◌then◌else◌, length, All, Text, codes, show_dec,
}

-- `netip.Addr`, by its bytes in network order.
pub data Addr : Type 0 where
  v4 : List ℕ → Addr
  v6 : List ℕ → Addr

abbrev pub IsByte : ℕ → Type 0
IsByte b = b < 256

-- A valid address: four or sixteen bytes.
abbrev pub IsAddr : Addr → Type 0
IsAddr (v4 bs) = (length bs ≡ 4) × All IsByte bs
IsAddr (v6 bs) = (length bs ≡ 16) × All IsByte bs

abbrev pub bytes : Addr → List ℕ
bytes (v4 bs) = bs
bytes (v6 bs) = bs

abbrev pub is4 : Addr → Bool
is4 (v4 bs) = true
is4 (v6 bs) = false

abbrev pub is6 : Addr → Bool
is6 (v4 bs) = false
is6 (v6 bs) = true

-- `netip.Prefix`.
pub record Prefix : Type 0 where
  pub addr : Addr
  pub bits : ℕ

-- The first `n` bits agree.
abbrev pub same_bits : ℕ → List ℕ → List ℕ → Bool
same_bits n [] ys = true
same_bits n (x ∷ xs) [] = true
same_bits n (x ∷ xs) (y ∷ ys) =
    let rest = same_bits (n - 8) xs ys in
    if leb 8 n then x == y && rest else x / 2 ^ (8 - n) == y / 2 ^ (8 - n)

abbrev pub same_family : Addr → Addr → Bool
same_family (v4 bs) a = is4 a
same_family (v6 bs) a = is6 a

-- `Prefix.Contains`: the same family, and the same leading bits.
abbrev pub contains : Prefix → Addr → Bool
contains p a = same_family p.addr a && same_bits p.bits (bytes p.addr) (bytes a)

-- The bits behind the first `n` are cleared.
abbrev pub mask : ℕ → List ℕ → List ℕ
mask n [] = []
mask n (x ∷ xs) =
    let rest = mask (n - 8) xs in (if leb 8 n then x else x / 2 ^ (8 - n) * 2 ^ (8 - n)) ∷ rest

abbrev pub masked_addr : ℕ → Addr → Addr
masked_addr n (v4 bs) = v4 (mask n bs)
masked_addr n (v6 bs) = v6 (mask n bs)

-- `Prefix.Masked`.
abbrev pub masked : Prefix → Prefix
masked p = record p { addr = masked_addr p.bits p.addr }

-- An address as the key of a Go map.
abbrev pub addr_key : Addr → Text
addr_key (v4 bs) = 4 ∷ bs
addr_key (v6 bs) = 6 ∷ bs

abbrev pub of_key : Text → Addr
of_key [] = v4 []
of_key (t ∷ bs) = if t == 4 then v4 bs else v6 bs

of_key-addr_key : (a : Addr) → of_key (addr_key a) ≡ a
of_key-addr_key (v4 bs) = refl
of_key-addr_key (v6 bs) = refl

pub addr_key-injective : (a b : Addr) → addr_key a ≡ addr_key b → a ≡ b
addr_key-injective a b e = rw (of_key-addr_key a, of_key-addr_key b) at (ap of_key e)

-- The dotted text of an IPv4 /24 under 10.7, as `fmt.Sprintf("10.7.%d.0/24", n)` makes it.
abbrev pub subnet_text : ℕ → Text
subnet_text n = codes "10.7." ++ show_dec n ++ codes ".0/24"

abbrev pub subnet : ℕ → Prefix
subnet n = record { addr = v4 (10 ∷ 7 ∷ n ∷ 0 ∷ []); bits = 24 }

-- The text forms: `ParseAddr`, `Addr.String`, `ParsePrefix`, `Prefix.String`.
pub record Netip : Type 0 where
  pub parse_addr : Text → Option Addr
  pub print_addr : Addr → Text
  pub parse_prefix : Text → Option Prefix
  pub print_prefix : Prefix → Text
  pub parse_empty : parse_addr [] ≡ none
  pub parse-IsAddr : (t : Text) (a : Addr) → parse_addr t ≡ some a → IsAddr a
  pub parse-print : (a : Addr) → IsAddr a → parse_addr (print_addr a) ≡ some a
  pub parse-print_prefix :
      (bs : List ℕ) (k : ℕ)
      → IsAddr (v6 bs)
      → k ≤ 128
      → parse_prefix (print_prefix (record { addr = v6 bs; bits = k }))
        ≡ some (record { addr = v6 bs; bits = k })
  pub parse_subnet : (n : ℕ) → n < 256 → parse_prefix (subnet_text n) ≡ some (subnet n)

-- An address lies in one /24 under 10.7 only.
pub contains-subnet_unique :
    (n n' : ℕ) (a : Addr)
    → IsAddr a
    → contains (subnet n) a ≡ true
    → contains (subnet n') a ≡ true
    → n ≡ n'
contains-subnet_unique n n' (v4 (x ∷ y ∷ z ∷ l)) valid h h' = ground arith
contains-subnet_unique n n' (v4 (x ∷ y ∷ [])) valid h h' = absurd (omega arith)
contains-subnet_unique n n' (v4 (x ∷ [])) valid h h' = absurd (omega arith)
contains-subnet_unique n n' (v4 []) valid h h' = absurd (omega arith)
contains-subnet_unique n n' (v6 bs) valid h h' = cc
