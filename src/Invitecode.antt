-- ===== src/Invitecode.antt =====
-- pkg/invitecode/invitecode.go: the printing of connection codes.
pub mod Cleaning
pub mod Decode
pub mod RoundTrip
use lanet.Base.{
  ℕ, Bool, true, false, ◌||◌, List, [], ◌∷◌, ◌++◌, leb, ◌==◌, if◌then◌else◌, length, any, Text,
  codes, is_empty, text_eq, trim_space,
}

-- `Scheme` and `MaxAddrs`.
abbrev pub scheme : Text
scheme = codes "lanet"

abbrev pub max_addrs : ℕ
max_addrs = 4

abbrev pub identity_code : Text → Text
identity_code peer_id = scheme ++ (codes "://" ++ peer_id)

-- `Encode`.
unfoldable pub encode : Text → Text → Text
encode peer_id host_port =
    if is_empty host_port
    then identity_code peer_id
    else identity_code peer_id ++ (codes "@" ++ host_port)

-- The map `seen` has the texts of `clean` as its keys.
unfoldable pub was_seen : Text → List Text → Bool
was_seen hp clean = any (λ other. text_eq other hp) clean

-- The loop of `EncodeList`.
unfoldable pub clean_addrs : List Text → List Text → List Text
clean_addrs clean [] = clean
clean_addrs clean (host_port ∷ rest) =
    let hp = trim_space host_port in
    let skipped = clean_addrs clean rest in
    let taken = clean ++ hp ∷ [] in
    let on = clean_addrs taken rest in
    if is_empty hp || was_seen hp clean
    then skipped
    else if leb max_addrs (length taken)
    then taken
    else on

-- `strings.Join` with a comma.
unfoldable pub join_comma : List Text → Text
join_comma [] = []
join_comma (a ∷ []) = a
join_comma (a ∷ b ∷ rest) = a ++ b',' ∷ join_comma (b ∷ rest)

-- `EncodeList`.
unfoldable pub encode_list : Text → List Text → Text
encode_list peer_id host_ports =
    let clean = clean_addrs [] host_ports in
    if length clean == 0
    then identity_code peer_id
    else identity_code peer_id ++ (codes "@" ++ join_comma clean)
