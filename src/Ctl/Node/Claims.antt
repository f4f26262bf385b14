-- ===== src/Ctl/Node/Claims.antt =====
-- One address table of a registry (IPv4 or IPv6) against the nodes: every node holds its own
-- address, and every entry of the table belongs to a node.
use lanet.Base.{
  ◌≡◌, inl, inr, [], none, some, arith, Bool-cases, Text, text_eq, text_eq_iff, text_eq_refl,
  text_eq→eq, Dict, lookup, insert, delete, lookup-insert, lookup-delete,
}
use lanet.Netip.{Addr, addr_key, addr_key-injective, Netip}
use lanet.Ctl.Node.{Node}

module _ (net : Netip) (field : Node → Text) where
  -- Peer `p` is entered, and its text stands for the address `a`.
  abbrev pub Holds : Dict Node → Text → Addr → Type 0
  Holds nodes p a = (n : Node) × (lookup p nodes ≡ some n) × (net.parse_addr (field n) ≡ some a)

  pub record Indexed (nodes : Dict Node) (used : Dict Text) : Type 0 where
    pub owned :
        (p : Text) (n : Node)
        → lookup p nodes ≡ some n
        → (a : Addr) × (net.parse_addr (field n) ≡ some a) × (lookup (addr_key a) used ≡ some p)
    pub backed : (a : Addr) (p : Text) → lookup (addr_key a) used ≡ some p → Holds nodes p a

  pub Indexed-empty : Indexed [] []
  unfolding lookup
  Indexed-empty = record {
    owned = λ p n h. absurd (ground arith);
    backed = λ a p h. absurd (ground arith);
  }

  module _ (nodes : Dict Node) (used : Dict Text) (i : Indexed nodes used) where
    -- Two peers that hold one address are one peer.
    pub Holds-unique : (p q : Text) (a : Addr) → Holds nodes p a → Holds nodes q a → p ≡ q
    Holds-unique p q a (n, np, na) (m, mp, ma) =
        let (b, bn, bu) = i.owned p n np in
        let (c, cm, cu) = i.owned q m mp in let eb : b ≡ a = cc in let ec : c ≡ a = cc in cc

    -- A new peer under an address that nobody holds.
    pub Indexed-insert :
        (p : Text) (n : Node) (a : Addr)
        → lookup p nodes ≡ none
        → net.parse_addr (field n) ≡ some a
        → lookup (addr_key a) used ≡ none
        → Indexed (insert p n nodes) (insert (addr_key a) p used)
    Indexed-insert p n a fresh parsed free = record {
      owned = λ q m h. elim (Bool-cases (text_eq p q)) [
        | inl e ↦
            let same : p ≡ q = text_eq→eq p q e in
            (
              a,
              ground (arith, lookup-insert p q n nodes),
              ground (
                arith,
                lookup-insert (addr_key a) (addr_key a) p used,
                text_eq_refl (addr_key a),
              ),
            )
        | inr e ↦
            let (b, pb, ub) = i.owned q m (ground (arith, lookup-insert p q n nodes)) in
            (
              b,
              pb,
              ground (
                arith,
                lookup-insert (addr_key a) (addr_key b) p used,
                text_eq_iff (addr_key a) (addr_key b),
              ),
            )
      ];
      backed = λ b q h. elim (Bool-cases (text_eq (addr_key a) (addr_key b))) [
        | inl e ↦
            let same : a ≡ b = addr_key-injective a b (text_eq→eq _ _ e) in
            (
              n,
              ground (
                arith,
                lookup-insert p q n nodes,
                text_eq_iff p q,
                lookup-insert (addr_key a) (addr_key b) p used,
              ),
              cc,
            )
        | inr e ↦
            let (m, mq, mb) =
              i.backed b q (ground (arith, lookup-insert (addr_key a) (addr_key b) p used)) in
            (m, ground (arith, lookup-insert p q n nodes, text_eq_iff p q), mb)
      ];
    }

    -- A peer leaves, and its address becomes free.
    pub Indexed-delete :
        (p : Text) (n : Node) (a : Addr)
        → lookup p nodes ≡ some n
        → net.parse_addr (field n) ≡ some a
        → Indexed (delete p nodes) (delete (addr_key a) used)
    Indexed-delete p n a known parsed = record {
      owned = λ q m h.
          let (b, pb, ub) = i.owned q m (ground (arith, lookup-delete p q nodes)) in
          let (a', pa, ua) = i.owned p n known in
          let same : a' ≡ a = cc in
          (
            b,
            pb,
            ground (
              arith,
              lookup-delete (addr_key a) (addr_key b) used,
              lookup-delete p q nodes,
              text_eq_iff (addr_key a) (addr_key b),
              text_eq_iff p q,
            ),
          );
      backed = λ b q h.
          let (m, mq, mb) =
            i.backed b q (ground (arith, lookup-delete (addr_key a) (addr_key b) used)) in
          (
            m,
            ground (
              arith,
              lookup-delete (addr_key a) (addr_key b) used,
              lookup-delete p q nodes,
              text_eq_iff (addr_key a) (addr_key b),
              text_eq_iff p q,
            ),
            mb,
          );
    }
