-- ===== src/Firewall/Ports.antt =====
-- Port patterns as text: a number means that port, and `lo-hi` the ports from lo to hi.
use lanet.Base.{
  ℕ, ◌^◌, ◌<◌, ◌≡◌, refl, false, ◌&&◌, ◌||◌, [], ◌∷◌, ◌++◌, arith, leb, ◌==◌, Text, is_empty,
  text_eq, codes, show_dec, All-append, atoi-show_dec, IsDigits, IsDigits-IsSolid, IsDigits-ne,
  trim_space-IsSolid, cut_at-none, cut_at-append, show_dec-IsDigits, show_dec-nonempty,
}
use lanet.Firewall.{port_match}

-- A text that starts with a digit is no wildcard.
not-wildcard :
    (s : Text) → IsDigits s → is_empty s ≡ false → (text_eq s (codes "*") || is_empty s) ≡ false
unfolding text_eq
not-wildcard [] h e = cc
not-wildcard (c ∷ s) h e = ground arith

not-wildcard_append :
    (s t : Text)
    → IsDigits s
    → is_empty s ≡ false
    → (text_eq (s ++ t) (codes "*") || is_empty (s ++ t)) ≡ false
unfolding text_eq
not-wildcard_append [] t h e = cc
not-wildcard_append (c ∷ s) t h e = ground arith

-- A port pattern that is the decimal text of a number matches that port and no other.
pub port_match-single : (n port : ℕ) → n < 2 ^ 63 → port_match (show_dec n) port ≡ (n == port)
unfolding port_match
port_match-single n port b =
    let digits = show_dec-IsDigits n in
    rw
      (
        trim_space-IsSolid (show_dec n) (IsDigits-IsSolid _ digits),
        not-wildcard (show_dec n) digits (show_dec-nonempty n),
        cut_at-none b'-' (show_dec n) (IsDigits-ne b'-' _ (omega arith) digits),
        trim_space-IsSolid (show_dec n) (IsDigits-IsSolid _ digits),
        atoi-show_dec n b,
      )
      (ground arith)

-- A port pattern `lo-hi` matches the ports from lo to hi, both included, and no other.
pub port_match-range :
    (lo hi port : ℕ)
    → lo < 2 ^ 63
    → hi < 2 ^ 63
    → port_match (show_dec lo ++ b'-' ∷ show_dec hi) port ≡ (leb lo port && leb port hi)
unfolding port_match
port_match-range lo hi port b b' =
    let digits = show_dec-IsDigits lo in
    let digits' = show_dec-IsDigits hi in
    let solid =
      All-append _ (show_dec lo) (b'-' ∷ show_dec hi) (IsDigits-IsSolid _ digits)
        (refl, IsDigits-IsSolid _ digits') in
    rw
      (
        trim_space-IsSolid (show_dec lo ++ b'-' ∷ show_dec hi) solid,
        not-wildcard_append (show_dec lo) (b'-' ∷ show_dec hi) digits (show_dec-nonempty lo),
        cut_at-append b'-' (show_dec lo) (show_dec hi) (IsDigits-ne b'-' _ (omega arith) digits),
        show_dec-nonempty lo,
        trim_space-IsSolid (show_dec lo) (IsDigits-IsSolid _ digits),
        trim_space-IsSolid (show_dec hi) (IsDigits-IsSolid _ digits'),
        atoi-show_dec lo b,
        atoi-show_dec hi b',
      )
      (ground arith)
