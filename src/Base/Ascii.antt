-- ===== src/Base/Ascii.antt =====
-- Prefixes, lower case and the trimming of one byte. Lower case is that of ASCII letters.
use Prim.Native.Nat.{ℕ, ◌+◌}
use mathlib.Core.Path.{◌≡◌, refl}
use mathlib.Core.Logic.{◌≢◌}
use mathlib.Core.Bool.{Bool, true, false, ◌&&◌}
use mathlib.Core.List.{[], ◌∷◌, ◌++◌}
use native.Mathlib.Omega.{arith}
use lanet.Base.Tests.{leb, ◌==◌, if◌then◌else◌}
use lanet.Base.Lists.{All}
use lanet.Base.Texts.{Text, is_empty}

abbrev pub lower : ℕ → ℕ
lower c = if leb 65 c && leb c 90 then c + 32 else c

-- `strings.ToLower`.
unfoldable pub to_lower : Text → Text
to_lower [] = []
to_lower (c ∷ s) = lower c ∷ to_lower s

-- `strings.HasPrefix`, the prefix first.
unfoldable pub has_prefix : Text → Text → Bool
has_prefix [] s = true
has_prefix (c ∷ p) [] = false
has_prefix (c ∷ p) (d ∷ s) = (c == d) && has_prefix p s

pub has_prefix-append : (p s : Text) → has_prefix p (p ++ s) ≡ true
unfolding has_prefix
has_prefix-append [] s = refl
has_prefix-append (c ∷ p) s = ground (arith, has_prefix-append p s)

unfoldable pub trim_byte_left : ℕ → Text → Text
trim_byte_left b [] = []
trim_byte_left b (c ∷ s) = let rest = trim_byte_left b s in if c == b then rest else c ∷ s

unfoldable pub trim_byte_right : ℕ → Text → Text
trim_byte_right b [] = []
trim_byte_right b (c ∷ s) =
    let rest = trim_byte_right b s in if is_empty rest && (c == b) then [] else c ∷ rest

-- `strings.Trim` with a cutset of one byte.
unfoldable pub trim_byte : ℕ → Text → Text
trim_byte b s = trim_byte_right b (trim_byte_left b s)

trim_byte_right-without : (b : ℕ) (s : Text) → All (λ c. c ≢ b) s → trim_byte_right b s ≡ s
unfolding trim_byte_right
trim_byte_right-without b [] h = refl
trim_byte_right-without b (c ∷ s) h = ground (arith, trim_byte_right-without b s h.1, h.0)

-- A text without the byte stays as it is.
pub trim_byte-without : (b : ℕ) (s : Text) → All (λ c. c ≢ b) s → trim_byte b s ≡ s
unfolding trim_byte trim_byte_left
trim_byte-without b [] h = trim_byte_right-without b [] h
trim_byte-without b (c ∷ s) h = ground (arith, trim_byte_right-without b (c ∷ s) h, h.0)
