-- ===== src/Base/Texts.antt =====
-- A Go string as the list of its bytes: equality, byte order, and the decimal text of a number.
use Prim.Native.Nat.{ℕ, zero, suc, ◌+◌, ◌-◌, ◌*◌, ◌/◌, ◌%◌, ◌≤◌, ◌<◌}
use Prim.Native.Char.{code}
use Prim.Native.String.{String}
use mathlib.Core.Path.{◌≡◌, refl, sym, ap, ◌∙◌}
use mathlib.Core.Logic.{◌↔◌}
use mathlib.Core.Bool.{Bool, true, false, ◌&&◌}
use mathlib.Core.List.{List, [], ◌∷◌, ◌++◌}
use native.Mathlib.Omega.{arith}
use mathlib.Core.Logic.{inl, inr}
use lanet.Base.Lists.{All, All-append}
use lanet.Base.Tests.{ltb→lt, Bool-cases, ltb, ◌==◌, if◌then◌else◌}

abbrev pub Text : Type 0
Text = List ℕ

-- The bytes of a literal (every literal of the model is ASCII).
abbrev pub codes : String → Text
codes String.[] = []
codes (String.◌∷◌ c s) = code c ∷ codes s

abbrev pub is_empty : Text → Bool
is_empty [] = true
is_empty (c ∷ s) = false

-- `s == t` on strings.
unfoldable pub text_eq : Text → Text → Bool
text_eq [] [] = true
text_eq [] (d ∷ t) = false
text_eq (c ∷ s) [] = false
text_eq (c ∷ s) (d ∷ t) = (c == d) && text_eq s t

-- `s < t` on strings: byte by byte.
unfoldable pub text_lt : Text → Text → Bool
text_lt s [] = false
text_lt [] (d ∷ t) = true
text_lt (c ∷ s) (d ∷ t) =
    let rest = text_lt s t in if ltb c d then true else if c == d then rest else false

pub text_eq→eq : (s t : Text) → text_eq s t ≡ true → s ≡ t
unfolding text_eq
text_eq→eq [] [] h = refl
text_eq→eq [] (d ∷ t) h = cc
text_eq→eq (c ∷ s) [] h = cc
text_eq→eq (c ∷ s) (d ∷ t) h = ground (arith, text_eq→eq s t)

pub text_eq_refl : (s : Text) → text_eq s s ≡ true
unfolding text_eq
text_eq_refl [] = refl
text_eq_refl (c ∷ s) = ground (arith, text_eq_refl s)

pub text_eq_iff : (s t : Text) → (text_eq s t ≡ true) ↔ (s ≡ t)
text_eq_iff s t = (text_eq→eq s t, λ e. rw e (text_eq_refl t))

pub text_lt_irrefl : (s : Text) → text_lt s s ≡ false
unfolding text_lt
text_lt_irrefl [] = refl
text_lt_irrefl (c ∷ s) = ground (arith, text_lt_irrefl s)

pub text_lt_trans : (s t u : Text) → text_lt s t ≡ true → text_lt t u ≡ true → text_lt s u ≡ true
unfolding text_lt
text_lt_trans s t [] h k = ground arith
text_lt_trans s [] (e ∷ u) h k = cc
text_lt_trans [] (d ∷ t) (e ∷ u) h k = refl
text_lt_trans (c ∷ s) (d ∷ t) (e ∷ u) h k = ground (arith, text_lt_trans s t u)

-- Two strings of which neither is smaller are equal.
pub text_lt_total : (s t : Text) → text_lt s t ≡ false → text_lt t s ≡ false → s ≡ t
unfolding text_lt
text_lt_total [] [] h k = refl
text_lt_total [] (d ∷ t) h k = cc
text_lt_total (c ∷ s) [] h k = cc
text_lt_total (c ∷ s) (d ∷ t) h k = ground (arith, text_lt_total s t)

-- The decimal digits of a number, as `%d` prints it; the number itself is fuel enough.
show_fuel : ℕ → ℕ → Text
show_fuel zero n = []
show_fuel (suc f) n =
    let more = show_fuel f (n / 10) ++ (48 + n % 10) ∷ [] in
    if ltb n 10 then (48 + n) ∷ [] else more

unfoldable pub show_dec : ℕ → Text
unfolding show_fuel
show_dec n = show_fuel (suc n) n

read_from : ℕ → Text → ℕ
read_from acc [] = acc
read_from acc (c ∷ s) = read_from (acc * 10 + (c - 48)) s

read_from-append : (acc : ℕ) (s t : Text) → read_from acc (s ++ t) ≡ read_from (read_from acc s) t
unfolding read_from
read_from-append acc [] t = refl
read_from-append acc (c ∷ s) t = read_from-append (acc * 10 + (c - 48)) s t

read-show_fuel : (f n : ℕ) → n < f → read_from 0 (show_fuel f n) ≡ n
unfolding show_fuel read_from
read-show_fuel zero n h = absurd (omega arith)
read-show_fuel (suc f) n h = ground (
  arith,
  read-show_fuel f (n / 10),
  read_from-append 0 (show_fuel f (n / 10)) ((48 + n % 10) ∷ []),
)

-- Two numbers with one decimal text are equal.
pub show_dec-injective : (a b : ℕ) → show_dec a ≡ show_dec b → a ≡ b
unfolding show_dec
show_dec-injective a b e =
    sym (read-show_fuel (suc a) a (omega arith))
    ∙ (ap (read_from 0) e ∙ read-show_fuel (suc b) b (omega arith))

-- A text of digits only.
abbrev pub IsDigits : Text → Type 0
IsDigits s = All (λ c. (48 ≤ c) × (c ≤ 57)) s

show_fuel-IsDigits : (f n : ℕ) → IsDigits (show_fuel f n)
unfolding show_fuel
show_fuel-IsDigits zero n = tt
show_fuel-IsDigits (suc f) n = elim (Bool-cases (ltb n 10)) [
  | inl e ↦ rw e (omega (arith, ltb→lt n 10 e))
  | inr e ↦ rw e (
      All-append _ (show_fuel f (n / 10)) ((48 + n % 10) ∷ []) (show_fuel-IsDigits f (n / 10))
        (omega arith))
]

pub show_dec-IsDigits : (n : ℕ) → IsDigits (show_dec n)
unfolding show_dec
show_dec-IsDigits n = show_fuel-IsDigits (suc n) n

append-nonempty : (s : Text) (c : ℕ) → is_empty (s ++ c ∷ []) ≡ false
append-nonempty [] c = refl
append-nonempty (d ∷ s) c = refl

pub show_dec-nonempty : (n : ℕ) → is_empty (show_dec n) ≡ false
unfolding show_dec
show_dec-nonempty n = ground (arith, append-nonempty (show_fuel n (n / 10)) (48 + n % 10))

-- The number that a text of digits stands for.
unfoldable pub number_from : ℕ → Text → ℕ
unfolding read_from
number_from acc s = read_from acc s

pub number_from-show_dec : (n : ℕ) → number_from 0 (show_dec n) ≡ n
unfolding number_from show_dec
number_from-show_dec n = read-show_fuel (suc n) n (omega arith)

pub number_from-cons :
    (acc c : ℕ) (s : Text) → number_from acc (c ∷ s) ≡ number_from (acc * 10 + (c - 48)) s
unfolding number_from
number_from-cons acc c s = refl

pub number_from-nil : (acc : ℕ) → number_from acc [] ≡ acc
unfolding number_from
number_from-nil acc = refl
