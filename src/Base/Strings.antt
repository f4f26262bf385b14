-- ===== src/Base/Strings.antt =====
-- What the program uses of Go's strings and strconv, over bytes. White space is that of ASCII.
use Prim.Native.Nat.{ℕ, ◌+◌, ◌-◌, ◌*◌, ◌^◌, ◌<◌}
use mathlib.Core.Path.{◌≡◌, refl, sym, ap}
use mathlib.Core.Bool.{Bool, false, ◌&&◌, ◌||◌}
use mathlib.Core.Option.{Option, none, some}
use mathlib.Core.List.{[], ◌∷◌, ◌++◌}
use native.Mathlib.Omega.{arith}
use lanet.Base.Tests.{ltb, leb, ◌==◌, if◌then◌else◌}
use mathlib.Core.Path.{subst}
use mathlib.Core.Logic.{◌≢◌}
use lanet.Base.Lists.{All}
use lanet.Base.Texts.{
  Text, is_empty, show_dec, IsDigits, number_from, number_from-nil, number_from-cons,
  number_from-show_dec, show_dec-IsDigits, show_dec-nonempty,
}
use lanet.Base.Ints.{ℤ, pos, negsuc, sub_ℕ}

abbrev pub is_space : ℕ → Bool
is_space c = c == 32 || (leb 9 c && leb c 13)

unfoldable pub trim_left : Text → Text
trim_left [] = []
trim_left (c ∷ s) = let rest = trim_left s in if is_space c then rest else c ∷ s

unfoldable pub trim_right : Text → Text
trim_right [] = []
trim_right (c ∷ s) = let rest = trim_right s in if is_empty rest && is_space c then [] else c ∷ rest

-- `strings.TrimSpace`.
unfoldable pub trim_space : Text → Text
unfolding trim_left trim_right
trim_space s = trim_right (trim_left s)

-- The text before and behind the first `c`, as by `strings.IndexByte`.
unfoldable pub cut_at : ℕ → Text → Option (Text × Text)
cut_at c [] = none
cut_at c (d ∷ s) =
    let rest = cut_at c s in
    if d == c then some ([], s) else elim rest [ none ↦ none | some (a, b) ↦ some (d ∷ a, b) ]

abbrev pub is_digit : ℕ → Bool
is_digit c = leb 48 c && leb c 57

-- The value of a text of digits, after `acc`; none if another byte occurs.
unfoldable pub digits_value : ℕ → Text → Option ℕ
digits_value acc [] = some acc
digits_value acc (c ∷ s) =
    let rest = digits_value (acc * 10 + (c - 48)) s in if is_digit c then rest else none

abbrev pub in_range : ℤ → Option ℤ
in_range (pos n) = if ltb n (2 ^ 63) then some (pos n) else none
in_range (negsuc n) = if ltb n (2 ^ 63) then some (negsuc n) else none

abbrev pub unsigned : Text → Option ℕ
unsigned [] = none
unsigned (c ∷ s) = digits_value 0 (c ∷ s)

abbrev pub bounded : (ℕ → ℤ) → Option ℕ → Option ℤ
bounded f none = none
bounded f (some n) = in_range (f n)

-- `strconv.Atoi`, on a 64-bit machine: none for an error.
unfoldable pub atoi : Text → Option ℤ
unfolding digits_value
atoi [] = none
atoi (c ∷ s) =
    if c == b'-'
    then bounded (λ n. sub_ℕ 0 n) (unsigned s)
    else if c == b'+'
    then bounded pos (unsigned s)
    else bounded pos (unsigned (c ∷ s))

digits_value-IsDigits :
    (acc : ℕ) (s : Text) → IsDigits s → digits_value acc s ≡ some (number_from acc s)
unfolding digits_value
digits_value-IsDigits acc [] h = ap some (sym (number_from-nil acc))
digits_value-IsDigits acc (c ∷ s) h =
    ground (arith, digits_value-IsDigits (acc * 10 + (c - 48)) s h.1, number_from-cons acc c s)

atoi-IsDigits :
    (s : Text)
    → IsDigits s
    → is_empty s ≡ false
    → number_from 0 s < 2 ^ 63
    → atoi s ≡ some (pos (number_from 0 s))
unfolding atoi
atoi-IsDigits [] h e b = cc
atoi-IsDigits (c ∷ s) h e b = ground (arith, digits_value-IsDigits 0 (c ∷ s) h)

-- `Atoi` reads back the decimal text of a number that fits an `int`.
pub atoi-show_dec : (n : ℕ) → n < 2 ^ 63 → atoi (show_dec n) ≡ some (pos n)
atoi-show_dec n b =
    subst (λ k. atoi (show_dec n) ≡ some (pos k)) (number_from-show_dec n)
      (atoi-IsDigits (show_dec n) (show_dec-IsDigits n) (show_dec-nonempty n)
        (subst (λ k. k < 2 ^ 63) (sym (number_from-show_dec n)) b))

-- No byte is white space.
abbrev pub IsSolid : Text → Type 0
IsSolid s = All (λ c. is_space c ≡ false) s

pub IsDigits-IsSolid : (s : Text) → IsDigits s → IsSolid s
IsDigits-IsSolid [] h = tt
IsDigits-IsSolid (c ∷ s) h = (ground arith, IsDigits-IsSolid s h.1)

trim_right-IsSolid : (s : Text) → IsSolid s → trim_right s ≡ s
unfolding trim_right
trim_right-IsSolid [] h = refl
trim_right-IsSolid (c ∷ s) h = ground (arith, trim_right-IsSolid s h.1)

pub trim_space-IsSolid : (s : Text) → IsSolid s → trim_space s ≡ s
unfolding trim_space
trim_space-IsSolid [] h = refl
trim_space-IsSolid (c ∷ s) h = ground (arith, trim_right-IsSolid (c ∷ s) h)

-- A text without the byte is not cut; one with it is cut at the first.
pub cut_at-none : (c : ℕ) (s : Text) → All (λ d. d ≢ c) s → cut_at c s ≡ none
unfolding cut_at
cut_at-none c [] h = refl
cut_at-none c (d ∷ s) h = ground (arith, cut_at-none c s h.1, h.0)

pub cut_at-append : (c : ℕ) (s t : Text) → All (λ d. d ≢ c) s → cut_at c (s ++ c ∷ t) ≡ some (s, t)
unfolding cut_at
cut_at-append c [] t h = ground arith
cut_at-append c (d ∷ s) t h = ground (arith, cut_at-append c s t h.1, h.0)

pub IsDigits-ne : (c : ℕ) (s : Text) → c < 48 → IsDigits s → All (λ d. d ≢ c) s
IsDigits-ne c [] b h = tt
IsDigits-ne c (d ∷ s) b h = (omega arith, IsDigits-ne c s b h.1)
