-- ===== src/Serverless/Hostnames.antt =====
-- pkg/serverless/vaddr.go: the names of members and the resolution of a target. Go's net.ParseIP is
-- a parameter: of a text, the bytes of the four or sixteen byte form, or none.
pub mod Labels
pub mod Distinct
pub mod Bounds
pub mod Targets
use lanet.Base.{
  ℕ, zero, suc, ◌+◌, ◌-◌, Bool, true, false, ◌&&◌, ◌||◌, not, Option, none, some, List, [], ◌∷◌,
  ◌++◌, ltb, leb, ◌==◌, if◌then◌else◌, length, get_or, take, drop, filter, Text, codes, is_empty,
  text_eq, text_lt, show_dec, trim_space, to_lower, trim_byte, trim_byte_right, Dict, lookup,
  insert, has,
}

-- `VirtualDomain`.
abbrev pub virtual_domain : Text
virtual_domain = codes "lanet"

-- `MemberRef`.
pub record MemberRef : Type 0 where
  pub peer_id : Text
  pub name : Text
  pub virtual_ip : Text
  pub virtual_ipv6 : Text

-- The replacer: a space or an underscore becomes a hyphen.
unfoldable pub hyphenated : Text → Text
hyphenated [] = []
hyphenated (c ∷ s) = (if (c == 32) || (c == b'_') then b'-' else c) ∷ hyphenated s

-- The bytes that `dnsLabelStrip` leaves.
abbrev pub is_label_byte : ℕ → Bool
is_label_byte c = (leb b'a' c && leb c b'z') || (leb b'0' c && leb c b'9') || (c == b'-')

-- `dnsLabelCollapse`: a run of hyphens becomes one.
unfoldable pub collapsed : Text → Text
collapsed [] = []
collapsed (c ∷ []) = c ∷ []
collapsed (c ∷ d ∷ s) =
    let rest = collapsed (d ∷ s) in if (c == b'-') && (d == b'-') then rest else c ∷ rest

abbrev pub shortened : Text → Text
shortened s = if ltb 63 (length s) then trim_byte_right b'-' (take 63 s) else s

-- `DNSLabel`.
unfoldable pub dns_label : Text → Text
dns_label name =
    shortened
      (trim_byte b'-' (collapsed (filter is_label_byte (hyphenated (to_lower (trim_space name))))))

-- The last four bytes of a peer id in lower case.
abbrev pub suffix_of : Text → Text
suffix_of peer_id =
    to_lower (if ltb 4 (length peer_id) then drop (length peer_id - 4) peer_id else peer_id)

-- `cand`, with `-x` behind it until it is free; each round meets another name taken, so their
-- number is fuel enough.
unfoldable pub free_from : List Text → ℕ → Text → Text
free_from taken zero cand = cand
free_from taken (suc left) cand =
    let longer = free_from taken left (cand ++ codes "-x") in
    if has cand taken then longer else cand

unfoldable pub free_label : List Text → Text → Text → Text
free_label taken peer_id label =
    if has label taken
    then free_from taken (length taken) (label ++ codes "-" ++ suffix_of peer_id)
    else label

unfoldable pub place_member : MemberRef → List MemberRef → List MemberRef
place_member m [] = m ∷ []
place_member m (n ∷ ns) =
    let rest = place_member m ns in if text_lt n.peer_id m.peer_id then n ∷ rest else m ∷ n ∷ ns

-- The `sort.Slice` by peer id, for distinct ids.
unfoldable pub sort_members : List MemberRef → List MemberRef
sort_members [] = []
sort_members (m ∷ ms) = place_member m (sort_members ms)

abbrev pub then_name {ℓ} : {A : Type ℓ} → Option Text → (Text → Option A) → Option A
then_name none next = none
then_name (some label) next = next label

abbrev pub node_name : Text → Option (List ℕ) → Option Text
node_name peer_id (some o) =
    some (codes "node-" ++ show_dec (get_or o 2 0) ++ codes "-" ++ show_dec (get_or o 3 0))
node_name peer_id none =
    if ltb (length peer_id) 4 then none else some (codes "node-" ++ take 4 peer_id)

module _ (parse_ip4 : Text → Option (List ℕ)) where
  -- The label of a member before repetitions are looked at. A member without a name and an IPv4
  -- address whose peer id has fewer than four bytes makes the slice panic.
  unfoldable pub base_label : MemberRef → Option Text
  base_label m =
      let fallback = node_name m.peer_id (parse_ip4 m.virtual_ip) in
      if is_empty (dns_label m.name) then fallback else some (dns_label m.name)

  -- The loop of `Hostnames`; no result is a panic.
  unfoldable pub names_from : List Text → Dict Text → List MemberRef → Option (Dict Text)
  names_from taken out [] = some out
  names_from taken out (m ∷ ms) =
      let next = λ (label : Text).
        let final = free_label taken m.peer_id label in
        names_from (final ∷ taken) (insert m.peer_id final out) ms in
      then_name (base_label m) next

  -- `Hostnames`.
  unfoldable pub hostnames : List MemberRef → Option (Dict Text)
  hostnames members = names_from [] [] (sort_members members)
