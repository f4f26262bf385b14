-- ===== src/Ctl/Node.antt =====
-- app/ctl/internal/logic/node/registry.go: the members of one group, and their virtual addresses.
-- A method returns the new registry beside its result; on an error the registry is unchanged.
-- Locking and the context argument are left out: a call holds the lock from start to end. Time is
-- an argument, the value that `time.Now` gives.

pub mod Claims
pub mod Hosts
pub mod Invariant
pub mod Calls
pub mod Run
pub mod Outcomes
use lanet.Base.{
  ℕ, Time, zero, suc, ◌+◌, ◌%◌, Bool, true, false, ◌||◌, not, List, [], ◌∷◌, Option, none, some,
  ltb, ◌==◌, if◌then◌else◌, get_or, Text, is_empty, text_eq, text_lt, Dict, lookup, insert, delete,
  Result, ok, err, ◌>>=◌, ◌>>◌, guard, map_err, map,
}
use lanet.Netip.{Addr, v4, v6, Prefix, bytes, is4, is6, contains, masked, addr_key, Netip}
use lanet.Protocol.{RangeError, member_ipv6}

pub data Error : Type 0 where
  bad_cidr not_ipv4_24 bad_ipv6_cidr not_ipv6_64 : Error
  enroll_fields invalid_token pool_exhausted host_outside ipv4_required : Error
  range : RangeError → Error
  restore_fields bad_virtual_ip outside_cidr bad_virtual_ipv6 outside_ipv6_cidr : Error
  ip_taken ipv6_taken not_member : Error

pub record EnrollRequest : Type 0 where
  pub token : Text
  pub peer_id : Text
  pub name : Text
  pub os : Text

pub record Node : Type 0 where
  pub peer_id : Text
  pub name : Text
  pub os : Text
  pub virtual_ip : Text
  pub virtual_ipv6 : Text
  pub enrolled_at : Time

pub record Registry : Type 0 where
  pub prefix : Prefix
  pub prefix6 : Prefix
  pub tokens : Dict (Unit {0})
  pub nodes : Dict Node
  pub used_ips : Dict Text
  pub used_ipv6 : Dict Text

abbrev pub or_fail {ℓ} : {E A : Type ℓ} → Option A → E → Result E A
or_fail none e = err e
or_fail (some a) e = ok a

-- The loop of `NewRegistry` over the tokens: empty ones are left out.
unfoldable pub token_set : List Text → Dict (Unit {0})
token_set [] = []
token_set (t ∷ ts) = let rest = token_set ts in if is_empty t then rest else insert t tt rest

-- `subnetIndexOf`: the third byte of an IPv4 prefix.
unfoldable pub subnet_index_of : Prefix → Result Error ℕ
subnet_index_of p = do guard (is4 p.addr) ipv4_required; ok (get_or (bytes p.addr) 2 0)

-- `addrForHost`.
unfoldable pub addr_for_host : Registry → ℕ → Result Error Addr
addr_for_host r host =
    let base = bytes r.prefix.addr in
    let candidate : Addr =
      v4 (get_or base 0 0 ∷ get_or base 1 0 ∷ get_or base 2 0 ∷ (host % 256) ∷ []) in
    if contains r.prefix candidate then ok candidate else err host_outside

-- `addr6ForHost`.
unfoldable pub addr6_for_host : Registry → ℕ → Result Error Addr
unfolding subnet_index_of
addr6_for_host r host = do
  subnet ← subnet_index_of r.prefix
  map_err range (member_ipv6 subnet host)

abbrev pub is_used : Dict Text → Addr → Bool
is_used used a = elim (lookup (addr_key a) used) [ none ↦ false | some p ↦ true ]

-- The loop of `nextHost`, with the rounds that are left.
unfoldable pub next_host_from : Registry → ℕ → ℕ → Result Error ℕ
next_host_from r zero host = err pool_exhausted
next_host_from r (suc rounds) host =
    let rest = next_host_from r rounds (host + 1) in
    do
      address ← addr_for_host r host
      if is_used r.used_ips address then rest else do
        address6 ← addr6_for_host r host
        if is_used r.used_ipv6 address6 then rest else ok host

-- `nextHost`: hosts 2 to 254, so 253 rounds.
unfoldable pub next_host : Registry → Result Error ℕ
next_host r = next_host_from r 253 2

-- `List` sorts by the text of the IPv4 address.
unfoldable pub insert_sorted : Node → List Node → List Node
insert_sorted n [] = n ∷ []
insert_sorted n (m ∷ ms) =
    let rest = insert_sorted n ms in
    if text_lt m.virtual_ip n.virtual_ip then m ∷ rest else n ∷ m ∷ ms

unfoldable pub sort_by_ip : List Node → List Node
sort_by_ip [] = []
sort_by_ip (n ∷ ns) = insert_sorted n (sort_by_ip ns)

abbrev pub values {ℓ} : {V : Type ℓ} → Dict V → List V
values m = map (λ e. e.1) m

-- `List`.
unfoldable pub list_nodes : Registry → List Node
list_nodes r = sort_by_ip (values r.nodes)

-- A second claim on an address, by another peer.
abbrev pub taken_by_other : Dict Text → Addr → Text → Bool
taken_by_other used a peer_id = elim (lookup (addr_key a) used) [
  | none ↦ false
  | some existing ↦ not (text_eq existing peer_id)
]

abbrev pub mem {ℓ} : {V : Type ℓ} → Text → Dict V → Bool
mem k m = elim (lookup k m) [ none ↦ false | some v ↦ true ]

module _ (net : Netip) where
  -- `NewRegistry`.
  unfoldable pub new_registry : Text → Text → List Text → Result Error Registry
  new_registry cidr ipv6_prefix tokens = do
    prefix ← or_fail (net.parse_prefix cidr) bad_cidr
    if not (is4 prefix.addr) || not (prefix.bits == 24) then err not_ipv4_24 else do
      prefix6 ← or_fail (net.parse_prefix ipv6_prefix) bad_ipv6_cidr
      if not (is6 prefix6.addr) || not (prefix6.bits == 64)
          then err not_ipv6_64
          else ok (record {
            prefix = masked prefix;
            prefix6 = masked prefix6;
            tokens = token_set tokens;
            nodes = [];
            used_ips = [];
            used_ipv6 = [];
          })

  -- The registry with a node and its two addresses entered.
  abbrev pub enter : Registry → Node → Addr → Addr → Registry
  enter r n address address6 = record r {
    nodes = insert n.peer_id n r.nodes;
    used_ips = insert (addr_key address) n.peer_id r.used_ips;
    used_ipv6 = insert (addr_key address6) n.peer_id r.used_ipv6;
  }

  abbrev pub enrolled : EnrollRequest → Addr → Addr → Time → Node
  enrolled input address address6 now = record {
    peer_id = input.peer_id;
    name = input.name;
    os = input.os;
    virtual_ip = net.print_addr address;
    virtual_ipv6 = net.print_addr address6;
    enrolled_at = now;
  }

  -- The part of `Enroll` behind the look at the known nodes.
  unfoldable pub enroll_new : Registry → EnrollRequest → Time → Result Error (Registry × Node)
  enroll_new r input now = do
    host ← next_host r
    address ← addr_for_host r host
    address6 ← addr6_for_host r host
    let node = enrolled input address address6 now
    ok (enter r node address address6, node)

  -- `Enroll`.
  unfoldable pub enroll : Registry → EnrollRequest → Time → Result Error (Registry × Node)
  enroll r input now =
      if is_empty input.token || is_empty input.peer_id || is_empty input.name
      then err enroll_fields
      else if not (mem input.token r.tokens)
      then err invalid_token
      else elim (lookup input.peer_id r.nodes) [
        | some node ↦ ok (r, node)
        | none ↦ enroll_new r input now
      ]

  -- The IPv6 address of a restored node: its own, or the one of its IPv4 host number.
  unfoldable pub restored_ipv6 : Registry → Node → Addr → Result Error Addr
  restored_ipv6 r input address =
      if is_empty input.virtual_ipv6 then addr6_for_host r (get_or (bytes address) 3 0) else do
        address6 ← or_fail (net.parse_addr input.virtual_ipv6) bad_virtual_ipv6
        if contains r.prefix6 address6 then ok address6 else err outside_ipv6_cidr

  -- `RestoreNode`.
  unfoldable pub restore_node : Registry → Node → Time → Result Error Registry
  restore_node r input now =
      if is_empty input.peer_id || is_empty input.virtual_ip then err restore_fields else do
        address ← or_fail (net.parse_addr input.virtual_ip) bad_virtual_ip
        guard (contains r.prefix address) outside_cidr
        address6 ← restored_ipv6 r input address
        if mem input.peer_id r.nodes then ok r else do
          guard (not (taken_by_other r.used_ips address input.peer_id)) ip_taken
          guard (not (taken_by_other r.used_ipv6 address6 input.peer_id)) ipv6_taken
          let node = record input { virtual_ipv6 = net.print_addr address6; enrolled_at = now }
          ok (enter r node address address6)

  -- `delete(used, address)` for the address that a text stands for, if it stands for one.
  abbrev pub release : Dict Text → Text → Dict Text
  release used text = elim (net.parse_addr text) [ none ↦ used | some a ↦ delete (addr_key a) used ]

  -- `RemoveNode`.
  unfoldable pub remove_node : Registry → Text → Result Error (Registry × Node)
  remove_node r peer_id = do
    node ← or_fail (lookup peer_id r.nodes) not_member
    ok (
      record r {
        nodes = delete peer_id r.nodes;
        used_ips = release r.used_ips node.virtual_ip;
        used_ipv6 =
            if is_empty node.virtual_ipv6
            then r.used_ipv6
            else release r.used_ipv6 node.virtual_ipv6;
      },
      node,
    )
