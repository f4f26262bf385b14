-- ===== src/Tun/Inbound/Reads.antt =====
-- What the inbound check of a packet reads.
use lanet.Base.{
  ℕ, zero, suc, ◌+◌, ◌*◌, ◌/◌, ◌%◌, ◌≤◌, ◌<◌, ◌≡◌, refl, sym, ap, ◌∙◌, ◌⊎◌, inl, inr, Bool, true,
  false, ◌||◌, not, List, [], ◌∷◌, ◌++◌, Option, none, some, arith, ltb, leb, ◌==◌, length,
  get_elem?, get_or, get_or-append, take, drop, length-append, Text, Bool-cases, ◌≢◌,
}
use lanet.Firewall.{Firewall}
use lanet.Tun.Framer.{byte_at, u16_at}
use lanet.Tun.Inbound.{
  Slice, u16_slice, index, part, ◌>>=◌, Walk, refused, panicked, reached, is_extension, header_len,
  fragment_flag, walk, is_jumbo, has_no_port, check_transport, check_walked, check_v4, check_v6,
  check_packet,
}

get_elem?-in : (xs : List ℕ) (i : ℕ) → i < length xs → get_elem? xs i ≡ some (get_or xs i 0)
get_elem?-in [] i h = absurd (omega arith)
get_elem?-in (x ∷ xs) zero h = refl
get_elem?-in (x ∷ xs) (suc i) h = get_elem?-in xs i (omega arith)

-- The three reads, where they are in range.
index-in : (p : Slice) (i : ℕ) → i < length p.bytes → index p i ≡ some (byte_at p.bytes i)
unfolding index
index-in p i h = get_elem?-in p.bytes i h

u16_slice-in_array :
    (p : Slice) (i : ℕ)
    → i + 2 ≤ length p.bytes + length p.spare
    → u16_slice p i ≡ some (u16_at (p.bytes ++ p.spare) i)
unfolding u16_slice
u16_slice-in_array p i h = ground (arith, length-append p.bytes p.spare)

u16_slice-in :
    (p : Slice) (i : ℕ) → i + 2 ≤ length p.bytes → u16_slice p i ≡ some (u16_at p.bytes i)
u16_slice-in p i h =
    u16_slice-in_array p i (omega arith)
    ∙ ap some (
        rw
          (
            get_or-append i p.bytes p.spare 0 (omega arith),
            get_or-append (suc i) p.bytes p.spare 0 (omega arith),
          )
          refl)

part-in :
    (p : Slice) (from size : ℕ)
    → from + size ≤ length p.bytes
    → (bs : List ℕ) × (part p from size ≡ some bs)
unfolding part
part-in p from size h =
    (take size (drop from (p.bytes ++ p.spare)), ground (arith, length-append p.bytes p.spare))

-- With two bytes behind the packet the fragment header is never out of range.
fragment_flag-in :
    (p : Slice) (next offset : ℕ) (flag : Bool)
    → offset + 4 ≤ length p.bytes + length p.spare
    → (b : Bool) × (fragment_flag p next offset flag ≡ some b)
unfolding fragment_flag
fragment_flag-in p next offset flag h = elim (Bool-cases (next == 44)) [
  | inl is_fragment ↦ (
    not (u16_at (p.bytes ++ p.spare) (offset + 2) / 8 == 0),
    rw (is_fragment, u16_slice-in_array p (offset + 2) (omega arith)) refl,
  )
  | inr other ↦ (flag, rw other refl)
]

-- A round of the walk ends it or goes on behind the header.
unfoldable Goes : ℕ → Slice → ℕ → Walk → Type 0
Goes rounds p stop w =
    (w ≡ refused)
    ⊎ ((n : ℕ) × (o : ℕ) × (b : Bool) × (w ≡ reached n o b))
    ⊎ ((n : ℕ) × (o : ℕ) × (b : Bool) × (w ≡ walk rounds p stop n o b))

walk-Goes :
    (rounds : ℕ) (p : Slice) (stop next offset : ℕ) (flag : Bool)
    → stop ≤ length p.bytes
    → 2 ≤ length p.spare
    → Goes rounds p stop (walk (suc rounds) p stop next offset flag)
unfolding walk Goes
walk-Goes rounds p stop next offset flag h room = elim (Bool-cases (not (is_extension next))) [
  | inl last ↦ inr (inl (next, offset, flag, rw (last, walk) refl))
  | inr more ↦ elim (Bool-cases (ltb stop (offset + 2))) [
    | inl cut_off ↦ inl (rw (more, walk) (rw cut_off refl))
    | inr inside ↦
        let len_byte = byte_at p.bytes (suc offset) in
        let len_read = index-in p (suc offset) (ground arith) in
        let flag' = fragment_flag-in p next offset flag (ground arith) in
        let next' = index-in p offset (ground arith) in
        elim (Bool-cases (ltb stop (offset + header_len next len_byte))) [
          | inl over ↦ inl (ground (arith, more, inside, len_read, flag'.1, over))
          | inr fits ↦ inr (
              inr (
                byte_at p.bytes offset,
                offset + header_len next len_byte,
                flag'.0,
                ground (arith, more, inside, len_read, flag'.1, fits, next'),
              ))
        ]
  ]
]

-- The walk through the extension headers stays inside the packet.
walk-ne-panicked :
    (rounds : ℕ) (p : Slice) (stop next offset : ℕ) (flag : Bool)
    → stop ≤ length p.bytes
    → 2 ≤ length p.spare
    → walk rounds p stop next offset flag ≢ panicked
unfolding walk Goes
walk-ne-panicked zero p stop next offset flag h room = λ e. ground arith
walk-ne-panicked (suc rounds) p stop next offset flag h room =
    elim (walk-Goes rounds p stop next offset flag h room) [
      | inl r ↦ λ e. cc
      | inr (inl (n, o, b, r)) ↦ λ e. cc
      | inr (inr (n, o, b, r)) ↦ λ e. walk-ne-panicked rounds p stop n o b h room (sym r ∙ e)
    ]

some-ne_none : {A : Type 0} (a : A) → some a ≢ none
some-ne_none a e = cc

-- A read in range, and a rest that returns.
read-ne_none :
    {A B : Type 0} (read : Option A) (rest : A → Option B)
    → (a : A) × (read ≡ some a)
    → ((a : A) → rest a ≢ none)
    → (read >>= rest) ≢ none
read-ne_none none rest (a, e) h = absurd cc
read-ne_none (some b) rest found h = h b

-- The truncated fragment header: two bytes of it are in the packet, none behind it.
walk-panics : (p : Slice) → length p.bytes ≡ 42 → p.spare ≡ [] → walk 8 p 42 44 40 false ≡ panicked
unfolding walk is_extension fragment_flag u16_slice
walk-panics p size bare =
    let over : leb 44 (length (p.bytes ++ p.spare)) ≡ false =
      ground (arith, length-append p.bytes p.spare, size, ap length bare) in
    rw (index-in p 41 (omega (arith, size)), over) refl

is_jumbo-in :
    (p : Slice) (payload_len : ℕ)
    → 7 ≤ length p.bytes
    → (j : Bool) × (is_jumbo p payload_len ≡ some j)
unfolding is_jumbo
is_jumbo-in p payload_len h = elim (Bool-cases (payload_len == 0)) [
  | inl empty ↦ (byte_at p.bytes 6 == 0, rw (empty, index-in p 6 (omega arith)) refl)
  | inr full ↦ (false, rw full refl)
]

module _ {Ip IpNet : Type 0} (print_ip : List ℕ → Text) (parse_ip : Text → Option Ip)
    (parse_cidr : Text → Option IpNet) (net_contains : IpNet → Ip → Bool) where
  -- The port is read behind a guard that has seen its two bytes.
  check_transport-ne_none :
      (fw : Firewall) (p : Slice) (src : Text) (next offset : ℕ) (flag : Bool) (stop : ℕ)
      → check_transport print_ip parse_ip parse_cidr net_contains fw p src next offset flag stop
        ≢ none
  unfolding check_transport has_no_port
  check_transport-ne_none fw p src next offset flag stop e =
      elim (Bool-cases (ltb (length p.bytes) (offset + 2))) [
        | inl outside ↦ ground arith
        | inr inside ↦ ground (arith, u16_slice-in p offset (ground arith))
      ]

  check_walked-ne_none :
      (fw : Firewall) (p : Slice) (src : Text) (stop : ℕ) (w : Walk)
      → w ≢ panicked
      → check_walked print_ip parse_ip parse_cidr net_contains fw p src stop w ≢ none
  check_walked-ne_none fw p src stop refused h = some-ne_none false
  check_walked-ne_none fw p src stop panicked h = absurd (h refl)
  check_walked-ne_none fw p src stop (reached n o f) h = check_transport-ne_none fw p src n o f stop

  check_v6-ne_none :
      (fw : Firewall) (p : Slice)
      → 2 ≤ length p.spare
      → check_v6 print_ip parse_ip parse_cidr net_contains fw p ≢ none
  unfolding check_v6
  check_v6-ne_none fw p room = elim (Bool-cases (ltb (length p.bytes) 40)) [
    | inl short ↦ rw short (some-ne_none false)
    | inr enough ↦ rw enough (
        read-ne_none (part p 8 16) _ (part-in p 8 16 (ground arith)) λ src.
          read-ne_none (u16_slice p 4) _ (_, u16_slice-in p 4 (ground arith))
            λ payload_len.
              read-ne_none (is_jumbo p payload_len) _ (is_jumbo-in p payload_len (ground arith))
                λ jumbo. elim (Bool-cases jumbo) [
                  | inl jumbogram ↦ rw jumbogram (some-ne_none false)
                  | inr ordinary ↦ elim (Bool-cases (ltb (length p.bytes) (40 + payload_len))) [
                    | inl cut_off ↦ rw (ordinary, cut_off) (some-ne_none false)
                    | inr whole ↦
                        rw (ordinary, whole)
                          (read-ne_none (index p 6) _ (_, index-in p 6 (ground arith))
                            λ next.
                              check_walked-ne_none fw p (print_ip src) (40 + payload_len) _
                                (walk-ne-panicked 8 p _ next 40 false (ground arith) room))
                  ]
                ])
  ]

  check_v4-ne_none :
      (fw : Firewall) (p : Slice) → check_v4 print_ip parse_ip parse_cidr net_contains fw p ≢ none
  unfolding check_v4
  check_v4-ne_none fw p = elim (Bool-cases (ltb (length p.bytes) 20)) [
    | inl short ↦ rw short (some-ne_none false)
    | inr enough ↦ rw enough (
        read-ne_none (index p 0) _ (_, index-in p 0 (ground arith))
          λ first.
            elim (Bool-cases (ltb (first % 16 * 4) 20 || ltb (length p.bytes) (first % 16 * 4))) [
              | inl bad ↦ rw bad (some-ne_none false)
              | inr good ↦ rw good (
                  read-ne_none (part p 12 4) _ (part-in p 12 4 (ground arith)) λ src.
                    read-ne_none (index p 9) _ (_, index-in p 9 (ground arith))
                      λ next.
                        check_transport-ne_none fw p (print_ip src) next (first % 16 * 4) false 0)
            ])
  ]

  -- The inbound check of any bytes, with or without a firewall, returns a decision, as no read of
  -- it is out of range, if the packet is not of version 6, whatever is behind it, or if two spare
  -- bytes are behind it.
  pub check_packet-returns :
      (fw : Option Firewall) (p : Slice)
      → (byte_at p.bytes 0 / 16 ≢ 6) ⊎ (2 ≤ length p.spare)
      → check_packet print_ip parse_ip parse_cidr net_contains fw p ≢ none
  unfolding check_packet
  check_packet-returns none p room = some-ne_none true
  check_packet-returns (some fw) p room = elim (Bool-cases (length p.bytes == 0)) [
    | inl empty ↦ rw empty (some-ne_none false)
    | inr some_byte ↦
        rw (some_byte, index-in p 0 (ground arith))
          (elim (Bool-cases (byte_at p.bytes 0 / 16 == 4)) [
            | inl v4 ↦ rw v4 (check_v4-ne_none fw p)
            | inr not_v4 ↦ elim (Bool-cases (byte_at p.bytes 0 / 16 == 6)) [
              | inl v6 ↦ elim room [
                | inl other ↦ absurd (ground arith)
                | inr two ↦ rw (not_v4, v6) (check_v6-ne_none fw p two)
              ]
              | inr other ↦ rw (not_v4, other) (some-ne_none false)
            ]
          ])
  ]

  -- An IPv6 packet of 42 bytes whose payload is the first two bytes of a fragment header, with
  -- no spare byte behind it, makes the check of any firewall read out of range.
  pub check_packet-panics :
      (fw : Firewall) (p : Slice)
      → length p.bytes ≡ 42
      → p.spare ≡ []
      → byte_at p.bytes 0 / 16 ≡ 6
      → u16_at p.bytes 4 ≡ 2
      → byte_at p.bytes 6 ≡ 44
      → check_packet print_ip parse_ip parse_cidr net_contains (some fw) p ≡ none
  unfolding check_packet check_v6 is_jumbo
  check_packet-panics fw p size bare version payload next =
      let (src, read) = part-in p 8 16 (omega (arith, size)) in
      rw
        (
          size,
          index-in p 0 (omega (arith, size)),
          version,
          read,
          u16_slice-in p 4 (omega (arith, size)),
          payload,
          index-in p 6 (omega (arith, size)),
          next,
        )
        (rw (walk-panics p size bare) refl)
