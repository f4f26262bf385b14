-- ===== src/Gatewayproto/RoundTrip.antt =====
-- Frames read back as they were written, and only then.
use lanet.Base.{
  ℕ, suc, ◌+◌, ◌*◌, ◌/◌, ◌%◌, ◌<◌, ◌≡◌, refl, ap, subst, ◌∙◌, inl, inr, List, [], ◌∷◌, ◌++◌, arith,
  ltb, if◌then◌else◌, length, take, drop, take_all, take-append-drop, length-append, length-take,
  All, ok, err, Bool-cases,
}
use lanet.Gatewayproto.{
  header_size, Frame, FrameError, truncated, truncated_payload, put_u32, u32_at, marshal, unmarshal,
}

-- Four bytes of a number below 2 ^ 32 stand for it.
put-u32 :
    (n : ℕ)
    → n < 4294967296
    → n / 16777216 % 256 * 16777216 + n / 65536 % 256 * 65536 + n / 256 % 256 * 256 + n % 256 ≡ n
put-u32 n h = omega arith

-- A message of nine header bytes, read by its parts.
unmarshal_parts :
    (t a b c d e f g h : ℕ) (body : List ℕ)
    → unmarshal (t ∷ a ∷ b ∷ c ∷ d ∷ e ∷ f ∷ g ∷ h ∷ body) ≡ (
        if ltb (length body) (e * 16777216 + f * 65536 + g * 256 + h)
        then err (truncated_payload (e * 16777216 + f * 65536 + g * 256 + h) (length body))
        else ok (record {
          type = t;
          stream_id = a * 16777216 + b * 65536 + c * 256 + d;
          payload = take (e * 16777216 + f * 65536 + g * 256 + h) body;
        }))
unfolding unmarshal u32_at
unmarshal_parts t a b c d e f g h body = ground arith

unmarshal_short :
    (data_bytes : List ℕ) → length data_bytes < header_size → unmarshal data_bytes ≡ err truncated
unfolding unmarshal
unmarshal_short data_bytes h = ground arith

-- What is read behind two numbers written in four bytes each.
unmarshal_written :
    (t id n : ℕ) (body : List ℕ)
    → id < 4294967296
    → n < 4294967296
    → unmarshal (t ∷ put_u32 id ++ put_u32 n ++ body) ≡ (
        if ltb (length body) n
        then err (truncated_payload n (length body))
        else ok (record { type = t; stream_id = id; payload = take n body }))
unfolding put_u32
unmarshal_written t id n body hi hn =
    unmarshal_parts t (id / 16777216 % 256) (id / 65536 % 256) (id / 256 % 256) (id % 256)
      (n / 16777216 % 256) (n / 65536 % 256) (n / 256 % 256) (n % 256) body
    ∙ rw (put-u32 id hi, put-u32 n hn) refl

-- A frame whose stream id and payload length are below 2 ^ 32 is read back from what `Marshal`
-- writes, also when more bytes follow.
pub unmarshal-marshal :
    (f : Frame) (rest : List ℕ)
    → f.stream_id < 4294967296
    → length f.payload < 4294967296
    → unmarshal (marshal f ++ rest) ≡ ok f
unfolding marshal put_u32
unmarshal-marshal f rest small short =
    let n = length f.payload in
    let same : n % 4294967296 ≡ n = omega arith in
    unmarshal_written f.type f.stream_id (n % 4294967296) (f.payload ++ rest) small (omega arith)
    ∙ ground (arith, length-append f.payload rest, take_all n f.payload rest refl, same)

-- Of a frame as written, every part that is shorter is refused.
pub unmarshal-take :
    (f : Frame) (n : ℕ)
    → f.stream_id < 4294967296
    → length f.payload < 4294967296
    → n < length (marshal f)
    → (e : FrameError) × (unmarshal (take n (marshal f)) ≡ err e)
unfolding marshal put_u32
unmarshal-take f (suc (suc (suc (suc (suc (suc (suc (suc (suc k))))))))) small short h =
    let n = length f.payload in
    let part = take k f.payload in
    let same : n % 4294967296 ≡ n = omega arith in
    (
      truncated_payload n (length part),
      unmarshal_written f.type f.stream_id (n % 4294967296) part small (omega arith)
          ∙ ground (arith, same, length-take k f.payload),
    )
unmarshal-take f n small short h =
    (truncated, unmarshal_short (take n (marshal f)) (omega (arith, length-take n (marshal f))))

bytes-put_u32 :
    (a b c d : ℕ)
    → a < 256
    → b < 256
    → c < 256
    → d < 256
    → put_u32 (a * 16777216 + b * 65536 + c * 256 + d) ≡ a ∷ b ∷ c ∷ d ∷ []
unfolding put_u32
bytes-put_u32 a b c d ha hb hc hd = ground arith

-- A message of bytes that is read as a frame starts with what `Marshal` writes of it.
pub marshal-unmarshal :
    (data_bytes : List ℕ) (f : Frame)
    → All (λ b. b < 256) data_bytes
    → unmarshal data_bytes ≡ ok f
    → (rest : List ℕ) × (data_bytes ≡ marshal f ++ rest)
unfolding unmarshal marshal
marshal-unmarshal (t ∷ a ∷ b ∷ c ∷ d ∷ e ∷ f ∷ g ∷ h ∷ body) fr
      (_, (ha, (hb, (hc, (hd, (he, (hf, (hg, (hh, _))))))))) r =
    let n = e * 16777216 + f * 65536 + g * 256 + h in
    let read : Frame = record {
      type = t;
      stream_id = a * 16777216 + b * 65536 + c * 256 + d;
      payload = take n body;
    } in
    elim (Bool-cases (ltb (length body) n)) [
      | inl cut ↦ absurd (ground (arith, unmarshal_parts t a b c d e f g h body))
      | inr whole ↦
          let found : read ≡ fr = ground (arith, unmarshal_parts t a b c d e f g h body) in
          let id_bytes = bytes-put_u32 a b c d ha hb hc hd in
          let all : length (take n body) % 4294967296 ≡ n = ground (arith, length-take n body) in
          let len_bytes : put_u32 (length (take n body) % 4294967296) ≡ e ∷ f ∷ g ∷ h ∷ [] =
            ap put_u32 all ∙ bytes-put_u32 e f g h he hf hg hh in
          subst
            (λ x. (rest : List ℕ) × (t ∷ a ∷ b ∷ c ∷ d ∷ e ∷ f ∷ g ∷ h ∷ body ≡ marshal x ++ rest))
            found (drop n body, rw (id_bytes, len_bytes, take-append-drop n body) refl)
    ]
marshal-unmarshal _ fr bytes r = absurd (ground (arith, r))
