-- ===== src/Tun/Framer/Stream.antt =====
-- The packets of a stream come out whole, however the stream was read in pieces.
use lanet.Base.{
  ℕ, zero, suc, ◌+◌, ◌*◌, ◌/◌, ◌%◌, ◌≤◌, ◌<◌, ◌≡◌, refl, sym, ap, subst, ◌∙◌, ◌⊎◌, inl, inr, true,
  false, ◌&&◌, List, [], ◌∷◌, ◌++◌, arith, ltb, ◌==◌, length, take, drop, length-append,
  length-drop, get_or-append, Bool-cases, All, ltb→lt,
}
use mathlib.Core.List.{append_assoc}
use lanet.Tun.Framer.{
  wait, packet, byte_at, u16_at, max_packet_size, frame_v4, frame_v6, frame, cut, feed, feed_all,
}

-- An IPv4 packet as its header describes it, an IPv6 packet, and either of them.
unfoldable pub IsV4 : List ℕ → Type 0
IsV4 p =
    (byte_at p 0 / 16 ≡ 4)
    × (20 ≤ byte_at p 0 % 16 * 4)
    × (byte_at p 0 % 16 * 4 ≤ length p)
    × (u16_at p 2 ≡ length p)

unfoldable pub IsV6 : List ℕ → Type 0
IsV6 p =
    (byte_at p 0 / 16 ≡ 6)
    × (40 + u16_at p 4 ≡ length p)
    × (((u16_at p 4 == 0) && (byte_at p 6 == 0)) ≡ false)

unfoldable pub IsPacket : List ℕ → Type 0
IsPacket p = (length p ≤ max_packet_size) × (IsV4 p ⊎ IsV6 p)

-- The bytes of several packets on end.
unfoldable pub joined : List (List ℕ) → List ℕ
joined [] = []
joined (p ∷ ps) = p ++ joined ps

-- Two lists with a common extension agree where both have an element.
agree :
    (c r p w : List ℕ) (i : ℕ)
    → c ++ r ≡ p ++ w
    → i < length c
    → i < length p
    → byte_at c i ≡ byte_at p i
agree c r p w i e hc hp =
    sym (get_or-append i c r 0 hc) ∙ ap (λ l. byte_at l i) e ∙ get_or-append i p w 0 hp

IsPacket-length : (p : List ℕ) → IsPacket p → 20 ≤ length p
unfolding IsPacket IsV4 IsV6
IsPacket-length p (small, inl v4) = omega (arith, v4.1, v4.2)
IsPacket-length p (small, inr v6) = omega (arith, v6.1)

-- A buffer on the way to a packet either waits or knows the packet's length.
frame-prefix_v4 :
    (c r p w : List ℕ)
    → length p ≤ max_packet_size
    → IsV4 p
    → c ++ r ≡ p ++ w
    → ((frame c ≡ wait) × (length c < length p)) ⊎ (frame c ≡ packet (length p))
unfolding frame frame_v4 IsV4
frame-prefix_v4 c r p w small v4 e = elim (Bool-cases (ltb (length c) 20)) [
  | inl short ↦ elim (Bool-cases (length c == 0)) [
    | inl empty ↦ inl (rw empty refl, ground (arith, v4))
    | inr some_byte ↦
        let at0 = agree c r p w 0 e (ground arith) (ground (arith, v4)) in
        inl (rw (some_byte, at0, v4.0) (rw short refl), ground (arith, v4))
  ]
  | inr enough ↦
      let at0 = agree c r p w 0 e (ground arith) (ground (arith, v4)) in
      let at2 = agree c r p w 2 e (ground arith) (ground (arith, v4)) in
      let at3 = agree c r p w 3 e (ground arith) (ground (arith, v4)) in
      elim (Bool-cases (ltb (length c) (byte_at p 0 % 16 * 4))) [
        | inl short ↦ inl (ground (arith, v4.0, v4.1), ground (arith, v4))
        | inr all ↦ inr (ground (arith, v4.0, v4.1, v4.2, v4.3))
      ]
]

frame-prefix_v6 :
    (c r p w : List ℕ)
    → length p ≤ max_packet_size
    → IsV6 p
    → c ++ r ≡ p ++ w
    → ((frame c ≡ wait) × (length c < length p)) ⊎ (frame c ≡ packet (length p))
unfolding frame frame_v6 IsV6
frame-prefix_v6 c r p w small v6 e = elim (Bool-cases (ltb (length c) 40)) [
  | inl short ↦ elim (Bool-cases (length c == 0)) [
    | inl empty ↦ inl (ground arith, ground (arith, v6))
    | inr some_byte ↦
        let at0 = agree c r p w 0 e (ground arith) (ground (arith, v6)) in
        inl (ground (arith, at0, v6.0), ground (arith, v6))
  ]
  | inr enough ↦
      let at0 = agree c r p w 0 e (ground arith) (ground (arith, v6)) in
      let at4 = agree c r p w 4 e (ground arith) (ground (arith, v6)) in
      let at5 = agree c r p w 5 e (ground arith) (ground (arith, v6)) in
      let at6 = agree c r p w 6 e (ground arith) (ground (arith, v6)) in
      inr (ground (arith, v6.0, v6.1, v6.2))
]

frame-prefix :
    (c r p w : List ℕ)
    → IsPacket p
    → c ++ r ≡ p ++ w
    → ((frame c ≡ wait) × (length c < length p)) ⊎ (frame c ≡ packet (length p))
unfolding IsPacket
frame-prefix c r p w (small, inl v4) e = frame-prefix_v4 c r p w small v4 e
frame-prefix c r p w (small, inr v6) e = frame-prefix_v6 c r p w small v6 e

-- A list at least as long as a prefix of what it begins starts with that prefix.
take-prefix : (c r p w : List ℕ) → c ++ r ≡ p ++ w → length p ≤ length c → p ≡ take (length p) c
take-prefix c r [] w e h = refl
take-prefix [] r (x ∷ p) w e h = absurd (omega arith)
take-prefix (y ∷ c) r (x ∷ p) w e h =
    let same : x ≡ y = cc in
    let tails : c ++ r ≡ p ++ w = cc in
    rw same (ap (◌∷◌ y) (take-prefix c r p w tails (omega arith)))

drop-prefix :
    (c r p w : List ℕ) → c ++ r ≡ p ++ w → length p ≤ length c → drop (length p) c ++ r ≡ w
drop-prefix c r [] w e h = e
drop-prefix [] r (x ∷ p) w e h = absurd (omega arith)
drop-prefix (y ∷ c) r (x ∷ p) w e h =
    let tails : c ++ r ≡ p ++ w = cc in drop-prefix c r p w tails (omega arith)

-- What is left of a stream that begins with packets: less than the first packet still to come.
unfoldable pub IsShort : List ℕ → List (List ℕ) → Type 0
IsShort tail [] = tail ≡ []
IsShort tail (p ∷ ps) = length tail < length p

-- The packets that a cut takes off a prefix of a stream, and those that it leaves.
unfoldable Split : List (List ℕ) → List ℕ → List (List ℕ) × List ℕ → Type 0
Split ps r done =
    (todo : List (List ℕ)) × (ps ≡ done.0 ++ todo)
    × (done.1 ++ r ≡ joined todo)
    × IsShort done.1 todo
    × All IsPacket todo

cut-waits : (fuel : ℕ) (c : List ℕ) → frame c ≡ wait → cut (suc fuel) c ≡ ([], c)
unfolding cut
cut-waits fuel c h = rw (h, cut) refl

cut-partial :
    (fuel : ℕ) (c : List ℕ) (n : ℕ)
    → frame c ≡ packet n
    → ltb (length c) n ≡ true
    → cut (suc fuel) c ≡ ([], c)
unfolding cut
cut-partial fuel c n h short = rw (h, cut) (rw short refl)

cut-takes :
    (fuel : ℕ) (c : List ℕ) (n : ℕ)
    → frame c ≡ packet n
    → ltb (length c) n ≡ false
    → cut (suc fuel) c ≡ (take n c ∷ (cut fuel (drop n c)).0, (cut fuel (drop n c)).1)
unfolding cut
cut-takes fuel c n h whole = rw (h, cut) (rw whole refl)

cut_empty : (fuel : ℕ) → cut fuel [] ≡ ([], [])
unfolding cut frame
cut_empty zero = refl
cut_empty (suc fuel) = refl

no_packets : (c r : List ℕ) → c ++ r ≡ [] → c ≡ []
no_packets [] r e = refl
no_packets (x ∷ c) r e = absurd cc

Split-end : (c r : List ℕ) → c ++ r ≡ [] → Split [] r ([], [])
unfolding Split IsShort joined
Split-end [] r e = ([], refl, e, refl, tt)
Split-end (x ∷ c) r e = absurd cc

Split-none :
    (p : List ℕ) (ps : List (List ℕ)) (c r : List ℕ)
    → All IsPacket (p ∷ ps)
    → c ++ r ≡ joined (p ∷ ps)
    → length c < length p
    → Split (p ∷ ps) r ([], c)
unfolding Split IsShort
Split-none p ps c r good e short = (p ∷ ps, refl, e, short, good)

Split-some :
    (p : List ℕ) (ps : List (List ℕ)) (r : List ℕ) (done : List (List ℕ) × List ℕ)
    → Split ps r done
    → Split (p ∷ ps) r (p ∷ done.0, done.1)
unfolding Split
Split-some p ps r done (todo, parts, rest, short, good) =
    (todo, ap (◌∷◌ p) parts, rest, short, good)

cut-Split :
    (fuel : ℕ) (ps : List (List ℕ)) (c r : List ℕ)
    → All IsPacket ps
    → length c ≤ fuel
    → c ++ r ≡ joined ps
    → Split ps r (cut fuel c)
unfolding joined cut
cut-Split fuel [] c r good enough e = rw (no_packets c r e) (rw (cut_empty fuel) (Split-end c r e))
cut-Split zero (p ∷ ps) c r good enough e =
    (Split-none p ps c r good e (omega (arith, IsPacket-length p good.0)))
cut-Split (suc fuel) (p ∷ ps) c r good enough e =
    let large = IsPacket-length p good.0 in
    elim (Bool-cases (ltb (length c) (length p))) [
      | inl short ↦
          let none_yet = Split-none p ps c r good e (ltb→lt _ _ short) in
          elim (frame-prefix c r p (joined ps) good.0 e) [
            | inl waits ↦ rw (cut-waits fuel c waits.0) none_yet
            | inr knows ↦ rw (cut-partial fuel c (length p) knows short) none_yet
          ]
      | inr whole ↦ elim (frame-prefix c r p (joined ps) good.0 e) [
        | inl waits ↦ absurd (ground arith)
        | inr knows ↦
            let reached : length p ≤ length c = ground arith in
            let tails : drop (length p) c ++ r ≡ joined ps =
              drop-prefix c r p (joined ps) e reached in
            rw (cut-takes fuel c (length p) knows whole) (
              subst
                (λ t.
                  Split (p ∷ ps) r
                    (t ∷ (cut fuel (drop (length p) c)).0, (cut fuel (drop (length p) c)).1))
                (take-prefix c r p (joined ps) e reached)
                (Split-some p ps r (cut fuel (drop (length p) c)) (
                  cut-Split fuel ps (drop (length p) c) r good.1
                    (omega (arith, length-drop (length p) c)) tails)))
      ]
    ]

-- What is left is too short for the last guard of `feed`.
Split-small :
    (ps : List (List ℕ)) (r : List ℕ) (done : List (List ℕ) × List ℕ)
    → Split ps r done
    → length done.1 ≤ max_packet_size
unfolding Split IsShort IsPacket
Split-small ps r done ([], parts, rest, short, good) = rw short (omega arith)
Split-small ps r done (p ∷ todo, parts, rest, short, good) = omega (arith, short, good.0.0)

not-over : (n : ℕ) → n ≤ max_packet_size → ltb max_packet_size n ≡ false
not-over n h = ground arith

-- A call on a stream of packets keeps what it knows.
feed-Split :
    (ps : List (List ℕ)) (buf b r : List ℕ)
    → All IsPacket ps
    → (buf ++ b) ++ r ≡ joined ps
    → Split ps r (feed buf b)
unfolding feed
feed-Split ps buf b r good e =
    let split = cut-Split (length (buf ++ b)) ps (buf ++ b) r good (omega arith) e in
    let small = Split-small ps r _ split in rw (not-over _ small) split

feed_all-todo :
    (chunks ps : List (List ℕ)) (buf : List ℕ)
    → All IsPacket ps
    → IsShort buf ps
    → buf ++ joined chunks ≡ joined ps
    → feed_all buf chunks ≡ (ps, [])
unfolding feed_all joined IsShort Split
feed_all-todo [] [] buf good short e = rw short refl
feed_all-todo [] (p ∷ ps) buf good short e =
    absurd (omega (arith, ap length e, length-append buf [], length-append p (joined ps), short))
feed_all-todo (b ∷ chunks) ps buf good short e =
    let split = feed-Split ps buf b (joined chunks) good (append_assoc buf b (joined chunks) ∙ e) in
    let later = feed_all-todo chunks split.0 (feed buf b).1 split.4 split.3 split.2 in
    rw (later, split.1) refl

nothing-IsShort : (ps : List (List ℕ)) → All IsPacket ps → IsShort [] ps
unfolding IsShort
nothing-IsShort [] good = refl
nothing-IsShort (p ∷ ps) good = omega (arith, IsPacket-length p good.0)

-- Every packet of a stream of well-formed packets comes out once, in order and with its own bytes,
-- and the buffer ends empty, whatever pieces the stream was read in.
pub feed_all-joined :
    (ps chunks : List (List ℕ))
    → All IsPacket ps
    → joined chunks ≡ joined ps
    → feed_all [] chunks ≡ (ps, [])
feed_all-joined ps chunks good e = feed_all-todo chunks ps [] good (nothing-IsShort ps good) e
