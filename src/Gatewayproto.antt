-- ===== src/Gatewayproto.antt =====
-- pkg/gatewayproto/gatewayproto.go: the frames between a gateway and its clients.
pub mod RoundTrip
use lanet.Base.{
  ℕ, zero, suc, ◌+◌, ◌-◌, ◌*◌, ◌/◌, ◌%◌, Bool, List, [], ◌∷◌, ◌++◌, ltb, if◌then◌else◌, length,
  get_or, take, drop, Result, ok, err,
}

-- `headerSize`.
abbrev pub header_size : ℕ
header_size = 9

-- The two errors that wrap `ErrTruncated`: a header that is cut off, and a payload, with the length
-- announced and the length there.
pub data FrameError : Type 0 where
  truncated : FrameError
  truncated_payload : ℕ → ℕ → FrameError

-- `Frame`.
pub record Frame : Type 0 where
  pub type : ℕ
  pub stream_id : ℕ
  pub payload : List ℕ

-- `binary.BigEndian.PutUint32`.
unfoldable pub put_u32 : ℕ → List ℕ
put_u32 n = n / 16777216 % 256 ∷ n / 65536 % 256 ∷ n / 256 % 256 ∷ n % 256 ∷ []

-- `binary.BigEndian.Uint32` of the four bytes from an index on.
unfoldable pub u32_at : List ℕ → ℕ → ℕ
u32_at data_bytes i =
    get_or data_bytes i 0 * 16777216
    + get_or data_bytes (suc i) 0 * 65536
    + get_or data_bytes (suc (suc i)) 0 * 256
    + get_or data_bytes (suc (suc (suc i))) 0

-- `Marshal`: the length is that of the payload modulo 2 ^ 32.
unfoldable pub marshal : Frame → List ℕ
marshal f = f.type ∷ put_u32 f.stream_id ++ put_u32 (length f.payload % 4294967296) ++ f.payload

-- `Unmarshal`.
unfoldable pub unmarshal : List ℕ → Result FrameError Frame
unmarshal data_bytes =
    let n = u32_at data_bytes 5 in
    if ltb (length data_bytes) header_size
    then err truncated
    else if ltb (length data_bytes - header_size) n
    then err (truncated_payload n (length data_bytes - header_size))
    else ok (record {
      type = get_or data_bytes 0 0;
      stream_id = u32_at data_bytes 1;
      payload = take n (drop header_size data_bytes);
    })
