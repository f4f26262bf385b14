-- ===== src/Selfupdate.antt =====
-- pkg/selfupdate/selfupdate.go: the comparison of versions. An `int` has 64 bits and wraps around.
pub mod Order
use lanet.Base.{
  ℕ, zero, suc, ◌+◌, ◌-◌, ◌*◌, ◌%◌, Bool, true, false, ◌&&◌, List, [], ◌∷◌, ltb, leb, ◌==◌,
  if◌then◌else◌, length, set, Text, ℤ, pos, negsuc,
}

-- The 64-bit pattern of a number read so far, one digit later.
abbrev pub next_num : ℕ → ℕ → ℕ
next_num num c = (num * 10 + (c - 48)) % 18446744073709551616

abbrev pub is_decimal : ℕ → Bool
is_decimal c = leb 48 c && leb c 57

-- The variables of `parseSemver`.
pub record Scan : Type 0 where
  pub out : List ℕ
  pub seg : ℕ
  pub num : ℕ
  pub got : Bool

abbrev pub start : Scan
start = record { out = 0 ∷ 0 ∷ 0 ∷ []; seg = 0; num = 0; got = false }

-- A segment ends at a dot and at the end; segments behind the third are dropped.
unfoldable pub close_segment : Scan → Scan
close_segment s = record {
  out = if s.got && ltb s.seg 3 then set s.out s.seg s.num else s.out;
  seg = s.seg + 1;
  num = 0;
  got = false;
}

-- The body of the loop at one byte.
unfoldable pub scan_byte : Scan → ℕ → Scan
scan_byte s c =
    if c == b'.'
    then close_segment s
    else if is_decimal c
    then record s { num = next_num s.num c; got = true }
    else s

unfoldable pub scan_from : Scan → Text → Scan
scan_from s [] = close_segment s
scan_from s (c ∷ v) = scan_from (scan_byte s c) v

-- `parseSemver`: the three numbers, as bit patterns.
unfoldable pub parse_semver : Text → List ℕ
parse_semver v = (scan_from start v).out

-- The order of the patterns as signed integers.
abbrev pub signed_lt : ℕ → ℕ → Bool
signed_lt a b =
    ltb ((a + 9223372036854775808) % 18446744073709551616)
      ((b + 9223372036854775808) % 18446744073709551616)

unfoldable pub compare_segments : List ℕ → List ℕ → ℤ
compare_segments [] bs = pos 0
compare_segments (a ∷ rest) [] = pos 0
compare_segments (a ∷ rest) (b ∷ others) =
    let next = compare_segments rest others in
    if a == b then next else if signed_lt a b then negsuc 0 else pos 1

-- `CompareVersions`.
unfoldable pub compare_versions : Text → Text → ℤ
compare_versions a b = compare_segments (parse_semver a) (parse_semver b)
