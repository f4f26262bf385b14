-- ===== src/Tun/Inbound.antt =====
-- pkg/tundevice/firewall.go: the firewall's decision on a packet from the tunnel and the fields
-- of its log line. A read out of range, which panics, has the result `none`.
pub mod Reads
pub mod Logged
use lanet.Base.{
  ℕ, zero, suc, ◌+◌, ◌*◌, ◌/◌, ◌%◌, Bool, true, false, ◌&&◌, ◌||◌, not, List, [], ◌∷◌, ◌++◌, Option,
  none, some, ltb, leb, ◌==◌, if◌then◌else◌, length, get_elem?, take, drop, Text, codes, any,
}
use lanet.Firewall.{Firewall, allow, proto_tcp, proto_udp}
use lanet.Tun.Framer.{u16_at}

-- A slice of bytes: an index is checked against its bytes, a reslicing against its capacity,
-- which has the spare bytes of the array behind them too.
pub record Slice : Type 0 where
  pub bytes : List ℕ
  pub spare : List ℕ

-- `binary.BigEndian.Uint16(packet[i : i+2])`.
unfoldable pub u16_slice : Slice → ℕ → Option ℕ
u16_slice p i =
    let array = p.bytes ++ p.spare in
    if leb (i + 2) (length array) then some (u16_at array i) else none

-- `packet[from : from + size]`.
unfoldable pub part : Slice → ℕ → ℕ → Option (List ℕ)
part p from size =
    let array = p.bytes ++ p.spare in
    if leb (from + size) (length array) then some (take size (drop from array)) else none

-- `packet[i]`.
unfoldable pub index : Slice → ℕ → Option ℕ
index p i = get_elem? p.bytes i

-- A read, and what the code does with it.
infixl 20 ◌>>=◌
abbrev pub ◌>>=◌ : {A B : Type 0} → Option A → (A → Option B) → Option B
none >>= k = none
some a >>= k = k a

-- The end of the walk through the IPv6 extension headers.
pub data Walk : Type 0 where
  refused : Walk
  panicked : Walk
  reached : ℕ → ℕ → Bool → Walk

unfoldable pub is_extension : ℕ → Bool
is_extension next = any (λ h. next == h) (0 ∷ 43 ∷ 44 ∷ 60 ∷ 51 ∷ 135 ∷ 139 ∷ 140 ∷ [])

abbrev pub header_len : ℕ → ℕ → ℕ
header_len next len_byte =
    if next == 44 then 8 else if next == 51 then (len_byte + 2) * 4 else (len_byte + 1) * 8

-- `ipv6FragmentNonInitial` after a header: the fragment offset is not zero.
unfoldable pub fragment_flag : Slice → ℕ → ℕ → Bool → Option Bool
fragment_flag p next offset flag =
    if next == 44
    then elim (u16_slice p (offset + 2)) [ none ↦ none | some word ↦ some (not (word / 8 == 0)) ]
    else some flag

-- The loop over the extension headers, with the number of rounds that `count` still allows.
unfoldable pub walk : ℕ → Slice → ℕ → ℕ → ℕ → Bool → Walk
walk zero p stop next offset flag = if is_extension next then refused else reached next offset flag
walk (suc rounds) p stop next offset flag =
    if not (is_extension next)
    then reached next offset flag
    else if ltb stop (offset + 2)
    then refused
    else elim (index p (suc offset)) [
      | none ↦ panicked
      | some len_byte ↦ elim (fragment_flag p next offset flag) [
        | none ↦ panicked
        | some flag' ↦
            if ltb stop (offset + header_len next len_byte)
            then refused
            else elim (index p offset) [
              | none ↦ panicked
              | some next' ↦ walk rounds p stop next' (offset + header_len next len_byte) flag'
            ]
      ]
    ]

-- The loop of `firewallPacketLogFields`.
unfoldable pub log_walk : ℕ → Slice → ℕ → ℕ → ℕ → Bool → Walk
log_walk zero p stop next offset flag =
    if is_extension next then refused else reached next offset flag
log_walk (suc rounds) p stop next offset flag =
    if not (is_extension next)
    then reached next offset flag
    else if ltb stop (offset + 2)
    then refused
    else elim (index p (suc offset)) [
      | none ↦ panicked
      | some len_byte ↦ elim (fragment_flag p next offset flag) [
        | none ↦ panicked
        | some flag' ↦
            if ltb stop (offset + header_len next len_byte)
            then refused
            else elim (index p offset) [
              | none ↦ panicked
              | some next' ↦ log_walk rounds p stop next' (offset + header_len next len_byte) flag'
            ]
      ]
    ]

abbrev pub proto_other : Text
proto_other = codes "other"

-- The port is inside the packet and, in IPv6, inside the payload.
unfoldable pub has_no_port : Slice → ℕ → ℕ → Bool
has_no_port p offset stop =
    ltb (length p.bytes) (offset + 2) || not (stop == 0) && ltb stop (offset + 2)

-- The fields of a log line: source, protocol and port.
unfoldable pub log_transport : Slice → Text → ℕ → ℕ → Bool → ℕ → Option (Text × Text × ℕ)
log_transport p src next offset flag stop =
    let proto = if next == 6 then proto_tcp else proto_udp in
    if (next == 6) || (next == 17)
    then if flag || has_no_port p offset stop
      then some (src, proto, 0)
      else (u16_slice p offset >>= λ port. some (src, proto, port))
    else some (src, proto_other, 0)

abbrev pub log_walked : Slice → Text → ℕ → Walk → Option (Text × Text × ℕ)
log_walked p src stop refused = some (src, proto_other, 0)
log_walked p src stop panicked = none
log_walked p src stop (reached next offset flag) = log_transport p src next offset flag stop

-- The test for a jumbogram reads byte 6 only behind an empty payload.
unfoldable pub is_jumbo : Slice → ℕ → Option Bool
is_jumbo p payload_len =
    if payload_len == 0 then (index p 6 >>= λ next. some (next == 0)) else some false

module _ (print_ip : List ℕ → Text) where
  unfoldable pub log_v4 : Slice → Option (Text × Text × ℕ)
  log_v4 p = if ltb (length p.bytes) 20 then some ([], proto_other, 0) else do
    first ← index p 0
    let ihl = first % 16 * 4
    if ltb ihl 20 || ltb (length p.bytes) ihl
        then some ([], proto_other, 0)
        else do src ← part p 12 4; next ← index p 9; log_transport p (print_ip src) next ihl false 0

  unfoldable pub log_v6 : Slice → Option (Text × Text × ℕ)
  log_v6 p = if ltb (length p.bytes) 40 then some ([], proto_other, 0) else do
    src ← part p 8 16
    payload_len ← u16_slice p 4
    let stop = 40 + payload_len
    if ltb (length p.bytes) stop
        then some (print_ip src, proto_other, 0)
        else do next ← index p 6; log_walked p (print_ip src) stop (log_walk 8 p stop next 40 false)

  -- `firewallPacketLogFields`.
  unfoldable pub log_fields : Slice → Option (Text × Text × ℕ)
  log_fields p = if length p.bytes == 0 then some ([], proto_other, 0) else do
    first ← index p 0
    if first / 16 == 4
        then log_v4 p
        else if first / 16 == 6
        then log_v6 p
        else some ([], proto_other, 0)

  module _ {Ip IpNet : Type 0} (parse_ip : Text → Option Ip) (parse_cidr : Text → Option IpNet)
      (net_contains : IpNet → Ip → Bool) where
    -- The decision once the transport header is found.
    unfoldable pub check_transport : Firewall → Slice → Text → ℕ → ℕ → Bool → ℕ → Option Bool
    check_transport fw p src next offset flag stop =
        let permit = allow parse_ip parse_cidr net_contains fw src in
        let proto = if next == 6 then proto_tcp else proto_udp in
        if (next == 6) || (next == 17)
        then if flag
          then some (permit proto_other 0)
          else if has_no_port p offset stop
          then some false
          else (u16_slice p offset >>= λ port. some (permit proto port))
        else some (permit proto_other 0)

    abbrev pub check_walked : Firewall → Slice → Text → ℕ → Walk → Option Bool
    check_walked fw p src stop refused = some false
    check_walked fw p src stop panicked = none
    check_walked fw p src stop (reached next offset flag) =
        check_transport fw p src next offset flag stop

    unfoldable pub check_v4 : Firewall → Slice → Option Bool
    check_v4 fw p = if ltb (length p.bytes) 20 then some false else do
      first ← index p 0
      let ihl = first % 16 * 4
      if ltb ihl 20 || ltb (length p.bytes) ihl then some false else do
        src ← part p 12 4
        next ← index p 9
        check_transport fw p (print_ip src) next ihl false 0

    unfoldable pub check_v6 : Firewall → Slice → Option Bool
    check_v6 fw p = if ltb (length p.bytes) 40 then some false else do
      src ← part p 8 16
      payload_len ← u16_slice p 4
      jumbo ← is_jumbo p payload_len
      let stop = 40 + payload_len
      if jumbo then some false else if ltb (length p.bytes) stop then some false else do
        next ← index p 6
        check_walked fw p (print_ip src) stop (walk 8 p stop next 40 false)

    -- `CheckPacket`; a node without a firewall lets every packet in.
    unfoldable pub check_packet : Option Firewall → Slice → Option Bool
    check_packet none p = some true
    check_packet (some fw) p = if length p.bytes == 0 then some false else do
      first ← index p 0
      if first / 16 == 4
          then check_v4 fw p
          else if first / 16 == 6
          then check_v6 fw p
          else some false
