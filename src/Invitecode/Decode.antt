-- ===== src/Invitecode/Decode.antt =====
-- pkg/invitecode/invitecode.go: the reading of connection codes. libp2p's reading of a peer id and
-- Go's net.SplitHostPort and net.ParseIP are parameters.
use lanet.Base.{
  ℕ, Bool, true, false, ◌||◌, Option, none, some, List, [], ◌∷◌, ◌++◌, ◌==◌, if◌then◌else◌, length,
  drop, Text, codes, is_empty, trim_space, cut_at, to_lower, has_prefix, trim_byte, Result, ok, err,
  ◌>>=◌,
}
use lanet.Invitecode.{scheme}

pub data DecodeError : Type 0 where
  not_a_code : DecodeError
  bad_peer_id : DecodeError
  bad_host_port : Text → DecodeError
  bad_ip : Text → DecodeError

-- The separators of `splitHostPorts`.
abbrev pub is_separator : ℕ → Bool
is_separator c = (c == b',') || (c == b';') || (c == 32) || (c == 9) || (c == 10) || (c == 13)

-- `strings.FieldsFunc`, with the field that is open.
unfoldable pub fields_from : Text → Text → List Text
fields_from open_field [] = if is_empty open_field then [] else open_field ∷ []
fields_from open_field (c ∷ s) =
    let closed = fields_from [] s in
    let longer = fields_from (open_field ++ c ∷ []) s in
    if is_separator c then (if is_empty open_field then closed else open_field ∷ closed) else longer

-- `splitHostPorts`.
unfoldable pub split_host_ports : Text → List Text
split_host_ports s = fields_from [] s

abbrev pub code_prefix : Text
code_prefix = scheme ++ codes "://"

abbrev pub parts_of : Text → Option (Text × Text) → Text × List Text
parts_of rest none = (rest, [])
parts_of rest (some (peer_id, addrs)) = (peer_id, split_host_ports addrs)

abbrev pub first_or_empty : List Text → Text
first_or_empty [] = []
first_or_empty (host_port ∷ rest) = host_port

abbrev pub is_ok : Result DecodeError (Text × Text) → Bool
is_ok (ok found) = true
is_ok (err e) = false

abbrev pub host_of : Text → Option (Text × Text) → Text
host_of host none = host
host_of host (some (before, zone)) = before

module _ (is_ip : Text → Bool) where
  -- `parseHostIP`, of whose result the callers ask only whether there is one.
  unfoldable pub parse_host_ip : Text → Bool
  parse_host_ip host = is_ip (host_of host (cut_at b'%' host))

  -- The body of the loop over the addresses, by what net.SplitHostPort returns.
  abbrev pub check_split : Text → Option (Text × Text) → Result DecodeError (Unit {0})
  check_split host_port none = err (bad_host_port host_port)
  check_split host_port (some (host, port)) =
      if is_empty host
      then err (bad_host_port host_port)
      else if parse_host_ip host
      then ok tt
      else err (bad_ip host_port)

module _ (split_host_port : Text → Option (Text × Text)) (is_ip : Text → Bool) where
  -- The loop over the addresses.
  unfoldable pub check_host_ports : List Text → Result DecodeError (Unit {0})
  check_host_ports [] = ok tt
  check_host_ports (host_port ∷ rest) =
      check_split is_ip host_port (split_host_port host_port) >>= λ _. check_host_ports rest

module _ (is_peer_id : Text → Bool) (split_host_port : Text → Option (Text × Text))
    (is_ip : Text → Bool) where
  -- `DecodeList` behind the cut at `@`.
  unfoldable pub decode_parts : Text × List Text → Result DecodeError (Text × List Text)
  decode_parts (id, host_ports) =
      let peer_id = trim_byte b'/' id in
      if is_peer_id peer_id
      then (check_host_ports split_host_port is_ip host_ports >>= λ _. ok (peer_id, host_ports))
      else err bad_peer_id

  -- `DecodeList` behind the look at the scheme.
  unfoldable pub decode_rest : Text → Result DecodeError (Text × List Text)
  decode_rest rest = decode_parts (parts_of rest (cut_at b'@' rest))

  -- `DecodeList`.
  unfoldable pub decode_list : Text → Result DecodeError (Text × List Text)
  decode_list code =
      let trimmed = trim_space code in
      if has_prefix code_prefix (to_lower trimmed)
      then decode_rest (drop (length code_prefix) trimmed)
      else err not_a_code

  -- `Decode`.
  unfoldable pub decode : Text → Result DecodeError (Text × Text)
  decode code = decode_list code >>= λ found. ok (found.0, first_or_empty found.1)

  -- `IsInviteCode`.
  unfoldable pub is_invite_code : Text → Bool
  is_invite_code s = is_ok (decode s)
