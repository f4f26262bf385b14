-- ===== src/Invitecode/Cleaning.antt =====
-- The addresses that a connection code carries.
use lanet.Base.{
  ◌<◌, ◌≤◌, ◌≡◌, refl, false, ◌||◌, List, [], ◌∷◌, ◌++◌, arith, leb, length, length-append, All,
  All-append, Text, is_empty, text_eq, text_eq_iff, trim_space, Bool-cases, inl, inr,
}
use lanet.Invitecode.{max_addrs, was_seen, clean_addrs}

-- No text stands twice.
unfoldable pub AreDistinct : List Text → Type 0
AreDistinct [] = Unit
AreDistinct (a ∷ rest) = (was_seen a rest ≡ false) × AreDistinct rest

-- At most four addresses, none empty and none twice.
abbrev pub IsClean : List Text → Type 0
IsClean clean = (length clean ≤ max_addrs) × All (λ a. is_empty a ≡ false) clean × AreDistinct clean

was_seen-append :
    (a b : Text) (xs : List Text)
    → was_seen a xs ≡ false
    → text_eq b a ≡ false
    → was_seen a (xs ++ b ∷ []) ≡ false
unfolding was_seen
was_seen-append a b [] h k = ground arith
was_seen-append a b (x ∷ xs) h k = ground (arith, was_seen-append a b xs)

AreDistinct-append :
    (xs : List Text) (b : Text)
    → AreDistinct xs
    → was_seen b xs ≡ false
    → AreDistinct (xs ++ b ∷ [])
unfolding AreDistinct was_seen
AreDistinct-append [] b h k = (refl, tt)
AreDistinct-append (x ∷ xs) b h k = (
  was_seen-append x b xs h.0 (ground (arith, text_eq_iff b x, text_eq_iff x b)),
  AreDistinct-append xs b h.1 (ground arith),
)

taken-IsClean :
    (clean : List Text) (hp : Text)
    → IsClean clean
    → length clean < max_addrs
    → is_empty hp ≡ false
    → was_seen hp clean ≡ false
    → IsClean (clean ++ hp ∷ [])
taken-IsClean clean hp (short, full, distinct) room some_text new = (
  omega (arith, length-append clean (hp ∷ []), room),
  All-append _ clean (hp ∷ []) full (some_text, tt),
  AreDistinct-append clean hp distinct new,
)

-- Started with fewer than four addresses, none empty and none twice, the loop of `EncodeList` ends
-- with at most four, none empty and none twice.
pub clean_addrs-IsClean :
    (clean host_ports : List Text)
    → IsClean clean
    → length clean < max_addrs
    → IsClean (clean_addrs clean host_ports)
unfolding clean_addrs
clean_addrs-IsClean clean [] h room = h
clean_addrs-IsClean clean (host_port ∷ rest) h room =
    let hp = trim_space host_port in
    elim (Bool-cases (is_empty hp || was_seen hp clean)) [
      | inl skip ↦ rw skip (clean_addrs-IsClean clean rest h room)
      | inr keep ↦
          let taken = taken-IsClean clean hp h room (ground arith) (ground arith) in
          elim (Bool-cases (leb max_addrs (length (clean ++ hp ∷ [])))) [
            | inl enough ↦ rw (keep, enough) taken
            | inr more ↦
                rw (keep, more) (clean_addrs-IsClean (clean ++ hp ∷ []) rest taken (ground arith))
          ]
    ]
