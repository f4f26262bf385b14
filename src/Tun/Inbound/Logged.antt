-- ===== src/Tun/Inbound/Logged.antt =====
-- The inbound decision on a packet is about the fields that its log line names.
use lanet.Base.{
  ℕ, zero, suc, ◌+◌, ◌*◌, ◌/◌, ◌%◌, ◌≡◌, refl, ◌⊎◌, inl, inr, Bool, true, false, ◌||◌, List, Option,
  none, some, arith, ltb, ◌==◌, length, Text, Bool-cases, Option-cases, if◌then◌else◌,
}
use lanet.Firewall.{Firewall, allow}
use lanet.Tun.Inbound.{
  Slice, Walk, refused, panicked, reached, ◌>>=◌, index, part, u16_slice, is_jumbo, walk, log_walk,
  proto_other, log_transport, log_walked, log_v4, log_v6, log_fields, check_transport, check_walked,
  check_v4, check_v6, check_packet,
}

-- The two loops over the extension headers are the same.
log_walk-walk :
    (rounds : ℕ) (p : Slice) (stop next offset : ℕ) (flag : Bool)
    → log_walk rounds p stop next offset flag ≡ walk rounds p stop next offset flag
unfolding log_walk walk
log_walk-walk zero p stop next offset flag = refl
log_walk-walk (suc rounds) p stop next offset flag = ground (arith, log_walk-walk rounds p stop)

module _ {Ip IpNet : Type 0} (print_ip : List ℕ → Text) (parse_ip : Text → Option Ip)
    (parse_cidr : Text → Option IpNet) (net_contains : IpNet → Ip → Bool) where
  -- A decision to let a packet in is about the fields logged, or about the protocol "other".
  unfoldable Agree : Firewall → Option (Text × Text × ℕ) → Option Bool → Type 0
  Agree fw logged checked =
      (src proto : Text) (port : ℕ)
      → logged ≡ some (src, proto, port)
      → checked ≡ some true
      → (allow parse_ip parse_cidr net_contains fw src proto port ≡ true)
        ⊎ (allow parse_ip parse_cidr net_contains fw src proto_other 0 ≡ true)

  Agree-refused : (fw : Firewall) (l : Option (Text × Text × ℕ)) → Agree fw l (some false)
  unfolding Agree
  Agree-refused fw l src proto port el ec = absurd cc

  Agree-panicked : (fw : Firewall) (c : Option Bool) → Agree fw none c
  unfolding Agree
  Agree-panicked fw c src proto port el ec = absurd cc

  Agree-unchecked : (fw : Firewall) (l : Option (Text × Text × ℕ)) → Agree fw l none
  unfolding Agree
  Agree-unchecked fw l src proto port el ec = absurd cc

  -- A read that both make.
  read-Agree :
      {A : Type 0} (fw : Firewall) (read : Option A) (f : A → Option (Text × Text × ℕ))
      (g : A → Option Bool)
      → ((a : A) → Agree fw (f a) (g a))
      → Agree fw (read >>= f) (read >>= g)
  read-Agree fw none f g h = Agree-panicked fw none
  read-Agree fw (some a) f g h = h a

  transport-Agree :
      (fw : Firewall) (p : Slice) (src : Text) (next offset : ℕ) (flag : Bool) (stop : ℕ)
      → Agree fw
          (log_transport p src next offset flag stop)
          (check_transport print_ip parse_ip parse_cidr net_contains fw p src next offset flag stop)
  unfolding Agree log_transport check_transport
  transport-Agree fw p src next offset flag stop src' proto port el ec =
      elim (Option-cases (u16_slice p offset)) [
        | inl e ↦ ground arith
        | inr (word, e) ↦ ground arith
      ]

  walked-Agree :
      (fw : Firewall) (p : Slice) (src : Text) (stop : ℕ) (w : Walk)
      → Agree fw
          (log_walked p src stop w)
          (check_walked print_ip parse_ip parse_cidr net_contains fw p src stop w)
  walked-Agree fw p src stop refused = Agree-refused fw _
  walked-Agree fw p src stop panicked = Agree-panicked fw none
  walked-Agree fw p src stop (reached n o f) = transport-Agree fw p src n o f stop

  v4-Agree :
      (fw : Firewall) (p : Slice)
      → Agree fw (log_v4 print_ip p) (check_v4 print_ip parse_ip parse_cidr net_contains fw p)
  unfolding log_v4 check_v4
  v4-Agree fw p = elim (Bool-cases (ltb (length p.bytes) 20)) [
    | inl short ↦ rw short (Agree-refused fw _)
    | inr enough ↦ rw enough (
        read-Agree fw (index p 0) _ _ λ first.
          elim (Bool-cases (ltb (first % 16 * 4) 20 || ltb (length p.bytes) (first % 16 * 4))) [
            | inl bad ↦ rw bad (Agree-refused fw _)
            | inr good ↦ rw good (
                read-Agree fw (part p 12 4) _ _ λ src.
                  read-Agree fw (index p 9) _ _
                    λ next. transport-Agree fw p (print_ip src) next (first % 16 * 4) false 0)
          ])
  ]

  -- The check refuses a jumbogram, whatever is logged.
  jumbo-Agree :
      (fw : Firewall) (jumbo : Option Bool) (l : Option (Text × Text × ℕ)) (c : Option Bool)
      → Agree fw l c
      → Agree fw l (jumbo >>= λ j. if j then some false else c)
  jumbo-Agree fw none l c h = Agree-unchecked fw l
  jumbo-Agree fw (some true) l c h = Agree-refused fw l
  jumbo-Agree fw (some false) l c h = h

  v6-Agree :
      (fw : Firewall) (p : Slice)
      → Agree fw (log_v6 print_ip p) (check_v6 print_ip parse_ip parse_cidr net_contains fw p)
  unfolding log_v6 check_v6
  v6-Agree fw p = elim (Bool-cases (ltb (length p.bytes) 40)) [
    | inl short ↦ rw short (Agree-refused fw _)
    | inr enough ↦ rw enough (
        read-Agree fw (part p 8 16) _ _ λ src. read-Agree fw (u16_slice p 4) _ _ λ payload_len.
          jumbo-Agree fw (is_jumbo p payload_len) _ _
            (elim (Bool-cases (ltb (length p.bytes) (40 + payload_len))) [
              | inl cut_off ↦ rw cut_off (Agree-refused fw _)
              | inr whole ↦ rw whole (
                  read-Agree fw (index p 6) _ _ λ next.
                    rw (log_walk-walk 8 p (40 + payload_len) next 40 false)
                      (walked-Agree fw p (print_ip src) (40 + payload_len) _))
            ]))
  ]

  packet-Agree :
      (fw : Firewall) (p : Slice)
      → Agree fw
          (log_fields print_ip p)
          (check_packet print_ip parse_ip parse_cidr net_contains (some fw) p)
  unfolding log_fields check_packet
  packet-Agree fw p = elim (Bool-cases (length p.bytes == 0)) [
    | inl empty ↦ rw empty (Agree-refused fw _)
    | inr some_byte ↦ rw some_byte (
        read-Agree fw (index p 0) _ _ λ first. elim (Bool-cases (first / 16 == 4)) [
          | inl v4 ↦ rw v4 (v4-Agree fw p)
          | inr not_v4 ↦ elim (Bool-cases (first / 16 == 6)) [
            | inl v6 ↦ rw (not_v4, v6) (v6-Agree fw p)
            | inr other ↦ rw (not_v4, other) (Agree-refused fw _)
          ]
        ])
  ]

  -- A packet that the firewall lets in was allowed for the source, protocol and port that its
  -- log line would name, or for that source, the protocol "other" and port 0.
  pub check_packet-log :
      (fw : Firewall) (p : Slice) (src proto : Text) (port : ℕ)
      → log_fields print_ip p ≡ some (src, proto, port)
      → check_packet print_ip parse_ip parse_cidr net_contains (some fw) p ≡ some true
      → (allow parse_ip parse_cidr net_contains fw src proto port ≡ true)
        ⊎ (allow parse_ip parse_cidr net_contains fw src proto_other 0 ≡ true)
  unfolding Agree
  check_packet-log fw p src proto port logged passed =
      packet-Agree fw p src proto port logged passed
