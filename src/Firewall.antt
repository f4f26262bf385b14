-- ===== src/Firewall.antt =====
-- pkg/firewall/firewall.go: the one inbound firewall of a node. CIDR sources are matched by Go's
-- net package, which enters as three functions; the lock is left out, a call being one step.
pub mod Sources
pub mod Ports
use lanet.Base.{
  ℕ, Bool, true, false, ◌&&◌, ◌||◌, not, List, [], ◌∷◌, Option, none, some, if◌then◌else◌, any,
  Text, codes, is_empty, text_eq, trim_space, cut_at, atoi, ℤ, pos, leb_ℤ, ◌==◌,
}

abbrev pub mode_deny_all : Text
mode_deny_all = codes "deny-all"

abbrev pub mode_allow_list : Text
mode_allow_list = codes "allow-list"

abbrev pub mode_allow_all : Text
mode_allow_all = codes "allow-all"

abbrev pub proto_tcp : Text
proto_tcp = codes "tcp"

abbrev pub proto_udp : Text
proto_udp = codes "udp"

abbrev pub proto_any : Text
proto_any = codes "*"

pub record Rule : Type 0 where
  pub source : Text
  pub proto : Text
  pub port : Text

pub record Firewall : Type 0 where
  pub mode : Text
  pub rules : List Rule

-- `New`.
unfoldable pub new_firewall : Firewall
new_firewall = record { mode = mode_deny_all; rules = [] }

-- `Set`.
unfoldable pub set_rules : Firewall → Text → List Rule → Firewall
set_rules f mode rules = record {
  mode = if is_empty mode then mode_deny_all else mode;
  rules = rules;
}

-- `streamPortOK`.
unfoldable pub stream_port_ok : Text → Bool
stream_port_ok p = let t = trim_space p in is_empty t || text_eq t (codes "*")

-- `protoMatch`.
unfoldable pub proto_match : Text → Text → Bool
proto_match rule_proto proto =
    let wanted = if is_empty rule_proto then proto_tcp else rule_proto in
    text_eq wanted proto_any || text_eq wanted proto

-- The range form of a port pattern, `lo-hi`.
abbrev pub in_port_range : Option ℤ → Option ℤ → ℕ → Bool
in_port_range (some lo) (some hi) port = leb_ℤ lo (pos port) && leb_ℤ (pos port) hi
in_port_range (some lo) none port = false
in_port_range none hi port = false

abbrev pub is_port : Option ℤ → ℕ → Bool
is_port (some n) port = leb_ℤ n (pos port) && leb_ℤ (pos port) n
is_port none port = false

-- The port tests behind the trimming: a hyphen that is not the first byte makes a range.
abbrev pub port_match_trimmed : Text → ℕ → Bool
port_match_trimmed pattern port =
    if text_eq pattern (codes "*") || is_empty pattern then true else elim (cut_at b'-' pattern) [
      | none ↦ is_port (atoi pattern) port
      | some (lo, hi) ↦
          if is_empty lo
          then is_port (atoi pattern) port
          else in_port_range (atoi (trim_space lo)) (atoi (trim_space hi)) port
    ]

-- `portMatch`.
unfoldable pub port_match : Text → ℕ → Bool
port_match pattern port = port_match_trimmed (trim_space pattern) port

-- A slash that is not the first byte.
abbrev pub is_cidr_form : Text → Bool
is_cidr_form [] = false
is_cidr_form (c ∷ s) = not (c == b'/') && any (λ d. d == b'/') s

module _ {Ip IpNet : Type 0} (parse_ip : Text → Option Ip) (parse_cidr : Text → Option IpNet)
    (net_contains : IpNet → Ip → Bool) where
  -- The CIDR form of a source.
  abbrev pub cidr_match : Option IpNet → Option Ip → Bool
  cidr_match (some cidr) (some ip) = net_contains cidr ip
  cidr_match (some cidr) none = false
  cidr_match none ip = false

  -- `sourceMatch`.
  unfoldable pub source_match : Text → Text → Bool
  source_match pattern ip =
      if is_empty ip
      then false
      else if text_eq pattern (codes "*")
      then true
      else if text_eq pattern ip
      then true
      else if is_cidr_form pattern
      then cidr_match (parse_cidr pattern) (parse_ip ip)
      else false

  abbrev pub rule_allows : Text → Text → ℕ → Rule → Bool
  rule_allows source_ip proto port r =
      source_match r.source source_ip && proto_match r.proto proto && port_match r.port port

  -- `Allow`.
  unfoldable pub allow : Firewall → Text → Text → ℕ → Bool
  allow f source_ip proto port =
      if text_eq f.mode mode_allow_all
      then true
      else if text_eq f.mode mode_allow_list
      then any (rule_allows source_ip proto port) f.rules
      else false

  abbrev pub rule_allows_stream : Text → Text → Rule → Bool
  rule_allows_stream source_ip proto_id r =
      source_match r.source source_ip
      && (text_eq r.proto proto_id && stream_port_ok r.port
          || text_eq r.proto proto_any && stream_port_ok r.port)

  -- `AllowStream`.
  unfoldable pub allow_stream : Firewall → Text → Text → Bool
  allow_stream f source_ip proto_id =
      if text_eq f.mode mode_allow_all
      then true
      else if text_eq f.mode mode_allow_list
      then any (rule_allows_stream source_ip proto_id) f.rules
      else false
