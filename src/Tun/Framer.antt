-- ===== src/Tun/Framer.antt =====
-- pkg/tundevice/framer.go: the tunnel's byte stream is cut into IP packets. The buffer is the
-- framer's only state; the slices it hands out are lists, so that their aliasing is left out.
pub mod Stream
use lanet.Base.{
  ℕ, zero, suc, ◌+◌, ◌*◌, ◌/◌, ◌%◌, Bool, true, false, ◌&&◌, ◌||◌, not, List, [], ◌∷◌, ◌++◌, ltb,
  leb, ◌==◌, if◌then◌else◌, length, get_or, take, drop,
}

-- `maxPacketSize` of router.go.
abbrev pub max_packet_size : ℕ
max_packet_size = 65535

-- What the head of the buffer says: more bytes are needed, the stream is broken, or the next
-- packet has this many bytes.
pub data Frame : Type 0 where
  wait : Frame
  malformed : Frame
  packet : ℕ → Frame

abbrev pub byte_at : List ℕ → ℕ → ℕ
byte_at buf i = get_or buf i 0

-- `binary.BigEndian.Uint16` of two bytes of the buffer.
abbrev pub u16_at : List ℕ → ℕ → ℕ
u16_at buf i = byte_at buf i * 256 + byte_at buf (suc i)

-- The case of version 4.
unfoldable pub frame_v4 : List ℕ → Frame
frame_v4 buf =
    let header_len = byte_at buf 0 % 16 * 4 in
    let total = u16_at buf 2 in
    if ltb (length buf) 20
    then wait
    else if ltb header_len 20
    then malformed
    else if ltb (length buf) header_len
    then wait
    else if ltb total header_len || ltb max_packet_size total
    then malformed
    else packet total

-- The case of version 6.
unfoldable pub frame_v6 : List ℕ → Frame
frame_v6 buf =
    let payload_len = u16_at buf 4 in
    if ltb (length buf) 40
    then wait
    else if (payload_len == 0) && (byte_at buf 6 == 0)
    then malformed
    else if ltb max_packet_size (40 + payload_len)
    then malformed
    else packet (40 + payload_len)

-- The switch of the loop; an empty buffer ends the loop before it.
unfoldable pub frame : List ℕ → Frame
frame buf =
    let version = byte_at buf 0 / 16 in
    if length buf == 0
    then wait
    else if version == 4
    then frame_v4 buf
    else if version == 6
    then frame_v6 buf
    else malformed

-- The loop of `feed` on fuel: the packets cut off and the buffer left.
unfoldable pub cut : ℕ → List ℕ → List (List ℕ) × List ℕ
cut zero buf = ([], buf)
cut (suc fuel) buf = elim (frame buf) [
  | wait ↦ ([], buf)
  | malformed ↦ ([], [])
  | packet total ↦
      let rest = cut fuel (drop total buf) in
      if ltb (length buf) total then ([], buf) else (take total buf ∷ rest.0, rest.1)
]

-- `feed`: every round takes at least twenty bytes, so that the length is fuel enough.
unfoldable pub feed : List ℕ → List ℕ → List (List ℕ) × List ℕ
feed buf b =
    let whole = buf ++ b in
    let done = cut (length whole) whole in
    (done.0, if ltb max_packet_size (length done.1) then [] else done.1)

-- The calls a reader makes, one for each chunk it read: all packets and the last buffer.
unfoldable pub feed_all : List ℕ → List (List ℕ) → List (List ℕ) × List ℕ
feed_all buf [] = ([], buf)
feed_all buf (b ∷ chunks) =
    let now = feed buf b in let later = feed_all now.1 chunks in (now.0 ++ later.0, later.1)
