-- ===== src/Tests/EdgeTheorems.antt =====
-- The theorems on the packet path, the firewall, the protocol names and the quarantine at
-- concrete packets, patterns, keys and calls.
use lanet.Base.{
  ℕ, ◌≡◌, ◌≢◌, refl, ◌⊎◌, inl, Bool, true, false, ◌&&◌, List, [], ◌∷◌, ◌++◌, Option, none, some,
  arith, leb, take, drop, Text, codes, text_eq, show_dec, trim_space, cut_at, atoi,
}
use lanet.Protocol.{group_ipv6_prefix, member_ipv6}
use lanet.Protocol.Addressing.{member_addr, member_ipv6-injective}
use lanet.Protocol.Fingerprint.{group_proto_id-injective}
use lanet.Firewall.{
  Firewall, Rule, allow, port_match, source_match, proto_match, mode_allow_list, proto_tcp,
}
use lanet.Firewall.Ports.{port_match-range}
use lanet.Tun.Framer.{feed_all}
use lanet.Tun.Framer.Stream.{IsPacket, IsV4, joined, feed_all-joined}
use lanet.Tun.Inbound.{
  Slice, check_packet, log_fields, proto_other, log_v4, log_transport, has_no_port, check_v4,
  check_transport, index, part, u16_slice,
}
use lanet.Tun.Inbound.Reads.{check_packet-returns, check_packet-panics}
use lanet.Tun.Inbound.Logged.{check_packet-log}
use lanet.Serverless.Quarantine.{
  Call, remembers, verifies, remember, requires_handshake, run, empty_quarantine,
}
use lanet.Serverless.Quarantine.Memory.{run-remember, run-unremembered}

abbrev five : ℕ
five = 5

abbrev nine : ℕ
nine = 9

member_ipv6-injective_example : (five ≡ five) × (nine ≡ nine)
unfolding member_ipv6 group_ipv6_prefix
member_ipv6-injective_example =
    member_ipv6-injective five nine five nine (member_addr five nine) refl refl

abbrev key : List ℕ
key = 1 ∷ 2 ∷ 3 ∷ 250 ∷ 7 ∷ []

group_proto_id-injective_example : (take 4 key ≡ take 4 key) × (codes "chat" ≡ codes "chat")
group_proto_id-injective_example =
    group_proto_id-injective (codes "chat") (codes "chat") key key (omega arith) (omega arith)
      (omega arith) (omega arith) refl

port_match-range_example :
    port_match (show_dec 8000 ++ b'-' ∷ show_dec 8100) 8080 ≡ (leb 8000 8080 && leb 8080 8100)
port_match-range_example = port_match-range 8000 8100 8080 (omega arith) (omega arith)

-- Addresses that no text stands for: the firewall then compares texts only.
abbrev no_ip : Text → Option ℕ
no_ip t = none

abbrev never : ℕ → ℕ → Bool
never net ip = false

abbrev web : Rule
web = record { source = codes "*"; proto = codes "tcp"; port = codes "443" }

abbrev open_web : Firewall
open_web = record { mode = mode_allow_list; rules = web ∷ [] }

-- An IPv4 packet of 22 bytes: TCP from 10.7.0.2 to port 443.
abbrev packet : List ℕ
packet =
    0x45 ∷ 0 ∷ 0 ∷ 22 ∷ 0 ∷ 0 ∷ 0 ∷ 0 ∷ 64 ∷ 6 ∷ 0 ∷ 0 ∷ 10 ∷ 7 ∷ 0 ∷ 2 ∷ 10 ∷ 7 ∷ 0 ∷ 3 ∷ 1 ∷ 187
    ∷ []

packet-IsPacket : IsPacket packet
unfolding IsPacket IsV4
packet-IsPacket = (omega arith, inl (refl, omega arith, omega arith, refl))

-- Two packets that were read in pieces of 7 and 37 bytes.
abbrev pieces : List (List ℕ)
pieces = take 7 packet ∷ (drop 7 packet ++ packet) ∷ []

feed_all-joined_example : feed_all [] pieces ≡ (packet ∷ packet ∷ [], [])
unfolding joined
feed_all-joined_example =
    feed_all-joined (packet ∷ packet ∷ []) pieces (packet-IsPacket, (packet-IsPacket, tt)) refl

abbrev slice : Slice
slice = record { bytes = packet; spare = 0 ∷ 0 ∷ [] }

-- An address is printed as its bytes.
abbrev print_bytes : List ℕ → Text
print_bytes bs = bs

-- The packet with nothing behind it.
abbrev bare : Slice
bare = record { bytes = packet; spare = [] }

check_packet-returns_example :
    check_packet print_bytes no_ip no_ip never (some open_web) bare ≢ none
check_packet-returns_example =
    check_packet-returns print_bytes no_ip no_ip never (some open_web) bare (inl λ e. omega arith)

check_packet-log_example :
    (allow no_ip no_ip never open_web (10 ∷ 7 ∷ 0 ∷ 2 ∷ []) proto_tcp 443 ≡ true)
    ⊎ (allow no_ip no_ip never open_web (10 ∷ 7 ∷ 0 ∷ 2 ∷ []) proto_other 0 ≡ true)
unfolding index part u16_slice log_fields log_v4 log_transport has_no_port check_packet check_v4
    check_transport allow text_eq source_match proto_match port_match trim_space cut_at atoi
check_packet-log_example =
    check_packet-log print_bytes no_ip no_ip never open_web slice (10 ∷ 7 ∷ 0 ∷ 2 ∷ []) proto_tcp
      443 refl refl

-- An IPv6 packet of 42 bytes that ends behind the first two bytes of a fragment header.
abbrev cut_fragment : Slice
cut_fragment = record {
  bytes =
      0x60 ∷ 0 ∷ 0 ∷ 0 ∷ 0 ∷ 2 ∷ 44 ∷ 64 ∷ 0xfd ∷ 0 ∷ 0 ∷ 0 ∷ 0 ∷ 0 ∷ 0 ∷ 0 ∷ 0 ∷ 0 ∷ 0 ∷ 0 ∷ 0 ∷ 0
      ∷ 0 ∷ 2 ∷ 0xfd ∷ 0 ∷ 0 ∷ 0 ∷ 0 ∷ 0 ∷ 0 ∷ 0 ∷ 0 ∷ 0 ∷ 0 ∷ 0 ∷ 0 ∷ 0 ∷ 0 ∷ 3 ∷ 6 ∷ 0 ∷ [];
  spare = [];
}

check_packet-panics_example :
    check_packet print_bytes no_ip no_ip never (some open_web) cut_fragment ≡ none
check_packet-panics_example =
    check_packet-panics print_bytes no_ip no_ip never open_web cut_fragment refl refl refl refl refl

abbrev visits : List Call
visits = remembers (codes "b") ∷ verifies (codes "b") ∷ []

run-remember_example :
    requires_handshake (run (remember empty_quarantine (codes "a")) visits) (codes "a") ≡ true
run-remember_example =
    run-remember empty_quarantine (codes "a") visits (λ e. ground arith, (λ e. ground arith, tt))

run-unremembered_example : requires_handshake (run empty_quarantine visits) (codes "a") ≡ false
run-unremembered_example =
    run-unremembered visits (codes "a") (omega arith) (λ e. ground arith, (λ e. ground arith, tt))
