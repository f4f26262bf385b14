-- ===== src/Protocol.antt =====
-- pkg/protocol: the group fingerprint and protocol IDs (protocol.go), and the virtual IPv6 plan
-- that the control plane and the nodes share (vaddr6.go). Subnet and host numbers are ℕ: the
-- callers pass bytes and subnet counters, and the source refuses negative ones.
pub mod Addressing
pub mod Fingerprint
use lanet.Base.{
  ℕ, ◌+◌, ◌/◌, ◌%◌, ◌^◌, ◌<◌, Bool, ◌||◌, List, [], ◌∷◌, ◌++◌, ltb, if◌then◌else◌, length, set,
  take, Text, codes, Result, ok, err, ◌>>=◌, ◌>>◌,
}
use lanet.Netip.{Addr, v4, v6, Prefix, bytes}

pub data RangeError : Type 0 where
  subnet_out_of_range host_out_of_range : RangeError

-- `LanetULAIPv6Prefix`: fd00:6c61:6e65::/48.
abbrev pub ula_prefix : Prefix
ula_prefix = record {
  addr = v6 (0xfd ∷ 0 ∷ 0x6c ∷ 0x61 ∷ 0x6e ∷ 0x65 ∷ 0 ∷ 0 ∷ 0 ∷ 0 ∷ 0 ∷ 0 ∷ 0 ∷ 0 ∷ 0 ∷ 0 ∷ []);
  bits = 48;
}

-- `GroupIPv6Prefix`.
unfoldable pub group_ipv6_prefix : ℕ → Result RangeError Prefix
group_ipv6_prefix subnet_index =
    if ltb 0xffff subnet_index
    then err subnet_out_of_range
    else ok (record {
      addr =
          v6 (
            set (set (bytes ula_prefix.addr) 6 (subnet_index / 2 ^ 8 % 256)) 7
              (subnet_index % 256));
      bits = 64;
    })

-- `MemberIPv6`.
unfoldable pub member_ipv6 : ℕ → ℕ → Result RangeError Addr
unfolding group_ipv6_prefix
member_ipv6 subnet_index host = do
  prefix ← group_ipv6_prefix subnet_index
  if ltb host 2 || ltb 254 host
      then err host_out_of_range
      else ok (v6 (set (set (bytes prefix.addr) 14 (host / 2 ^ 8 % 256)) 15 (host % 256)))

-- One hexadecimal digit, lower case.
hex_digit : ℕ → ℕ
hex_digit n = if ltb n 10 then 48 + n else 87 + n

-- `hex.EncodeToString`.
unfoldable pub hex_encode : List ℕ → Text
unfolding hex_digit
hex_encode [] = []
hex_encode (b ∷ bs) = hex_digit (b / 16 % 16) ∷ hex_digit (b % 16) ∷ hex_encode bs

-- `GroupFingerprint`.
unfoldable pub group_fingerprint : List ℕ → Text
group_fingerprint group_key =
    if ltb (length group_key) 4 then hex_encode group_key else hex_encode (take 4 group_key)

-- `GroupProtoID`.
unfoldable pub group_proto_id : Text → List ℕ → Text
group_proto_id base group_key =
    codes "/lanet/" ++ (group_fingerprint group_key ++ (codes "/" ++ (base ++ codes "/1.0.0")))
