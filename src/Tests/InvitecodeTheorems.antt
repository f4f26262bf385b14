-- ===== src/Tests/InvitecodeTheorems.antt =====
-- The theorems on connection codes at a list with a repetition. Every text counts as a peer id and as
-- an IP, and an address is split at its first colon.
use lanet.Base.{Bool, true, [], ◌∷◌, ◌≡◌, refl, arith, Option, Text, codes, cut_at, ok}
use lanet.Invitecode.{clean_addrs, encode_list}
use lanet.Invitecode.Decode.{decode_list, parse_host_ip}
use lanet.Invitecode.RoundTrip.{IsPeerText, IsAddress, decode_list-encode_list}

abbrev any_text : Text → Bool
any_text t = true

abbrev at_colon : Text → Option (Text × Text)
at_colon t = cut_at b':' t

abbrev peer : Text
peer = codes "Qm1"

abbrev peer-IsPeerText : IsPeerText any_text at_colon any_text peer
peer-IsPeerText = ((refl, (refl, (refl, tt))), omega arith, omega arith, refl)

abbrev address : Text
address = codes "1.2:4"

abbrev address-IsAddress : IsAddress any_text at_colon any_text address
unfolding cut_at parse_host_ip
address-IsAddress =
    ((refl, (refl, (refl, (refl, (refl, tt))))), (refl, (refl, (refl, (refl, (refl, tt))))), refl)

decode_list-encode_list_example :
    decode_list any_text at_colon any_text (encode_list peer (address ∷ address ∷ []))
    ≡ ok (peer, clean_addrs [] (address ∷ address ∷ []))
decode_list-encode_list_example =
    decode_list-encode_list any_text at_colon any_text peer (address ∷ address ∷ []) peer-IsPeerText
      (address-IsAddress, (address-IsAddress, tt))
