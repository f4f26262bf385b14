-- ===== src/Tests/FrameTheorems.antt =====
-- The theorems on gateway frames at a frame of two bytes.
use lanet.Base.{ℕ, ◌≡◌, refl, [], ◌∷◌, ◌++◌, List, arith, ok}
use lanet.Gatewayproto.{Frame, u32_at, marshal, unmarshal}
use lanet.Gatewayproto.RoundTrip.{unmarshal-marshal, marshal-unmarshal}

abbrev ping : Frame
ping = record { type = 10; stream_id = 258; payload = 7 ∷ 8 ∷ [] }

unmarshal-marshal_example : unmarshal (marshal ping ++ 1 ∷ []) ≡ ok ping
unmarshal-marshal_example = unmarshal-marshal ping (1 ∷ []) (omega arith) (omega arith)

abbrev bytes : List ℕ
bytes = 10 ∷ 0 ∷ 0 ∷ 1 ∷ 2 ∷ 0 ∷ 0 ∷ 0 ∷ 2 ∷ 7 ∷ 8 ∷ 9 ∷ []

marshal-unmarshal_example : (rest : List ℕ) × (bytes ≡ marshal ping ++ rest)
unfolding unmarshal u32_at
marshal-unmarshal_example = marshal-unmarshal bytes ping (omega arith) refl
