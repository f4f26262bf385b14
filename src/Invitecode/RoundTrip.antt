-- ===== src/Invitecode/RoundTrip.antt =====
-- A connection code that was printed is read back.
use lanet.Base.{
  ◌≡◌, ◌≢◌, refl, sym, ap, subst, ◌∙◌, inl, inr, Bool, true, false, ◌||◌, Option, List, [], ◌∷◌,
  ◌++◌, arith, ◌==◌, if◌then◌else◌, length, All, All-append, All-mono, Text, codes, is_empty,
  trim_space, IsSolid, trim_space-IsSolid, cut_at-none, cut_at-append, to_lower, has_prefix,
  trim_byte-without, ok, ◌>>=◌, Bool-cases, leb,
}
use mathlib.Core.List.{append_assoc, append-nil}
use lanet.Invitecode.{
  clean_addrs, was_seen, encode, encode_list, join_comma, identity_code, max_addrs,
}
use lanet.Invitecode.Cleaning.{clean_addrs-IsClean, AreDistinct}
use lanet.Invitecode.Decode.{
  is_separator, fields_from, split_host_ports, code_prefix, check_split, check_host_ports,
  decode_parts, decode_rest, decode_list, decode, first_or_empty,
}

abbrev IsUnbroken : Text → Type 0
IsUnbroken s = All (λ c. is_separator c ≡ false) s

scheme-IsSolid : IsSolid code_prefix
scheme-IsSolid = (refl, (refl, (refl, (refl, (refl, (refl, (refl, (refl, tt))))))))

-- Text without separators lengthens the open field.
fields_from-append :
    (open_field a t : Text)
    → IsUnbroken a
    → fields_from open_field (a ++ t) ≡ fields_from (open_field ++ a) t
unfolding fields_from
fields_from-append open_field [] t h = ap (λ s. fields_from s t) (sym (append-nil open_field))
fields_from-append open_field (c ∷ a) t h = ground (
  arith,
  h.0,
  fields_from-append (open_field ++ c ∷ []) a t h.1,
  append_assoc open_field (c ∷ []) a,
)

-- Fields that are joined by commas are split again.
split-join_comma :
    (xs : List Text)
    → All (λ x. is_empty x ≡ false) xs
    → All IsUnbroken xs
    → split_host_ports (join_comma xs) ≡ xs
unfolding split_host_ports join_comma fields_from
split-join_comma [] full h = refl
split-join_comma (x ∷ []) full h =
    ap (fields_from []) (sym (append-nil x))
    ∙ (fields_from-append [] x [] h.0 ∙ ground (arith, full.0))
split-join_comma (x ∷ y ∷ rest) full h =
    let later = split-join_comma (y ∷ rest) full.1 h.1 in
    fields_from-append [] x (b',' ∷ join_comma (y ∷ rest)) h.0 ∙ ground (arith, full.0, later)

join_comma-IsSolid : (xs : List Text) → All IsSolid xs → IsSolid (join_comma xs)
unfolding join_comma
join_comma-IsSolid [] h = tt
join_comma-IsSolid (x ∷ []) h = h.0
join_comma-IsSolid (x ∷ y ∷ rest) h =
    All-append _ x (b',' ∷ join_comma (y ∷ rest)) h.0 (refl, join_comma-IsSolid (y ∷ rest) h.1)

-- What holds of every address given holds of those kept.
clean_addrs-All :
    (P : Text → Type 0) (clean host_ports : List Text)
    → All P clean
    → All (λ hp. P (trim_space hp)) host_ports
    → All P (clean_addrs clean host_ports)
unfolding clean_addrs
clean_addrs-All P clean [] h hs = h
clean_addrs-All P clean (hp ∷ rest) h hs =
    let more = All-append P clean (trim_space hp ∷ []) h (hs.0, tt) in
    elim (Bool-cases (is_empty (trim_space hp) || was_seen (trim_space hp) clean)) [
      | inl skip ↦ rw skip (clean_addrs-All P clean rest h hs.1)
      | inr keep ↦ elim (Bool-cases (leb max_addrs (length (clean ++ trim_space hp ∷ [])))) [
        | inl full ↦ rw (keep, full) more
        | inr room ↦
            rw (keep, room) (clean_addrs-All P (clean ++ trim_space hp ∷ []) rest more hs.1)
      ]
    ]

module _ (is_peer_id : Text → Bool) (split_host_port : Text → Option (Text × Text))
    (is_ip : Text → Bool) where
  -- A peer id without white space, `@` and `/` that libp2p reads.
  abbrev pub IsPeerText : Text → Type 0
  IsPeerText p = IsSolid p × All (λ c. c ≢ b'@') p × All (λ c. c ≢ b'/') p × (is_peer_id p ≡ true)

  -- An address without white space and separators that is read as one.
  abbrev pub IsAddress : Text → Type 0
  IsAddress hp = IsSolid hp × IsUnbroken hp × (check_split is_ip hp (split_host_port hp) ≡ ok tt)

  check_host_ports-All :
      (hps : List Text) → All IsAddress hps → check_host_ports split_host_port is_ip hps ≡ ok tt
  unfolding check_host_ports
  check_host_ports-All [] h = refl
  check_host_ports-All (hp ∷ rest) ((solid, whole, good), hs) =
      ap (λ r. r >>= λ _. check_host_ports split_host_port is_ip rest) good
      ∙ check_host_ports-All rest hs

  -- What is read of a text behind the scheme.
  decode-solid :
      (rest : Text)
      → IsSolid rest
      → decode_list is_peer_id split_host_port is_ip (code_prefix ++ rest)
        ≡ decode_rest is_peer_id split_host_port is_ip rest
  unfolding decode_list to_lower has_prefix
  decode-solid rest h =
      let solid : IsSolid (code_prefix ++ rest) = All-append _ code_prefix rest scheme-IsSolid h in
      let same = trim_space-IsSolid (code_prefix ++ rest) solid in rw same refl

  decode_parts-ok :
      (p : Text) (hps : List Text)
      → IsPeerText p
      → All IsAddress hps
      → decode_parts is_peer_id split_host_port is_ip (p, hps) ≡ ok (p, hps)
  unfolding decode_parts
  decode_parts-ok p hps (solid, at, slash, good) hs =
      rw (trim_byte-without b'/' p slash, good)
        (ap (λ r. r >>= λ _. ok (p, hps)) (check_host_ports-All hps hs))

  -- What is printed with some addresses is read with them.
  decode-joined :
      (p : Text) (hps : List Text)
      → IsPeerText p
      → All (λ hp. is_empty hp ≡ false) hps
      → All IsAddress hps
      → decode_list is_peer_id split_host_port is_ip (code_prefix ++ p ++ b'@' ∷ join_comma hps)
        ≡ ok (p, hps)
  unfolding decode_rest
  decode-joined p hps h full hs =
      let joined = join_comma hps in
      let solid : IsSolid joined = join_comma-IsSolid hps (All-mono _ _ (λ hp k. k.0) hps hs) in
      let whole = split-join_comma hps full (All-mono _ _ (λ hp k. k.1) hps hs) in
      decode-solid (p ++ b'@' ∷ joined) (All-append _ p (b'@' ∷ joined) h.0 (refl, solid))
      ∙ (rw (cut_at-append b'@' p joined h.1, whole) (decode_parts-ok p hps h hs))

  -- What is printed without addresses is read without.
  decode-bare :
      (p : Text)
      → IsPeerText p
      → decode_list is_peer_id split_host_port is_ip (code_prefix ++ p) ≡ ok (p, [])
  unfolding decode_rest
  decode-bare p h = decode-solid p h.0 ∙ rw (cut_at-none b'@' p h.1) (decode_parts-ok p [] h tt)

  trimmed-IsAddress : (hp : Text) → IsAddress hp → IsAddress (trim_space hp)
  trimmed-IsAddress hp h = subst IsAddress (sym (trim_space-IsSolid hp h.0)) h

  encoded : Text → List Text → Text
  encoded p [] = identity_code p
  encoded p (hp ∷ hps) = identity_code p ++ (codes "@" ++ join_comma (hp ∷ hps))

  encoded-clean :
      (p : Text) (hps : List Text)
      → (if length hps == 0
          then identity_code p
          else identity_code p ++ (codes "@" ++ join_comma hps))
        ≡ encoded p hps
  unfolding encoded
  encoded-clean p [] = refl
  encoded-clean p (hp ∷ hps) = ground arith

  decode-encoded :
      (p : Text) (hps : List Text)
      → IsPeerText p
      → All (λ hp. is_empty hp ≡ false) hps
      → All IsAddress hps
      → decode_list is_peer_id split_host_port is_ip (encoded p hps) ≡ ok (p, hps)
  unfolding encoded
  decode-encoded p [] h full hs = decode-bare p h
  decode-encoded p (hp ∷ hps) h full hs = decode-joined p (hp ∷ hps) h full hs

  -- A code that `EncodeList` prints of a peer id that libp2p reads, without white space, `@` and `/`,
  -- and of addresses that are read as such, without white space and separators, is read by
  -- `DecodeList` as that peer id and the addresses kept.
  pub decode_list-encode_list :
      (p : Text) (host_ports : List Text)
      → IsPeerText p
      → All IsAddress host_ports
      → decode_list is_peer_id split_host_port is_ip (encode_list p host_ports)
        ≡ ok (p, clean_addrs [] host_ports)
  unfolding encode_list AreDistinct
  decode_list-encode_list p host_ports h hs =
      let clean = clean_addrs [] host_ports in
      let full = (clean_addrs-IsClean [] host_ports (omega arith, tt, tt) (omega arith)).1 in
      let kept : All IsAddress clean =
        clean_addrs-All IsAddress [] host_ports tt (All-mono _ _ trimmed-IsAddress host_ports hs) in
      ap (decode_list is_peer_id split_host_port is_ip) (encoded-clean p clean)
      ∙ decode-encoded p clean h full kept

  -- The single address of `Encode` is read back by `Decode`, and so is its absence.
  pub decode-encode :
      (p hp : Text)
      → IsPeerText p
      → IsAddress hp
      → decode is_peer_id split_host_port is_ip (encode p hp) ≡ ok (p, hp)
  unfolding decode encode join_comma
  decode-encode p [] h a =
      ap (λ r. r >>= λ found. ok (found.0, first_or_empty found.1)) (decode-bare p h)
  decode-encode p (c ∷ s) h a =
      ap (λ r. r >>= λ found. ok (found.0, first_or_empty found.1))
        (decode-joined p ((c ∷ s) ∷ []) h (refl, tt) (a, tt))
