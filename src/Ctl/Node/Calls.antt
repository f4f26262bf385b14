-- ===== src/Ctl/Node/Calls.antt =====
-- The calls of a registry, on a registry that satisfies the invariant.
use lanet.Base.{
  ℕ, Time, ◌≡◌, refl, subst, ◌∙◌, ◌⊎◌, inl, inr, true, false, [], ◌∷◌, none, some, arith,
  Bool-cases, Option-cases, Result-cases, lookup, delete, lookup-delete_self, lookup-insert_self,
  lookup-delete, ok, err, Text, is_empty, text_eq_iff, get_or, Dict,
}
use lanet.Netip.{Addr, IsAddr, addr_key, Netip, contains, bytes}
use lanet.Ctl.Node.Claims.{Indexed, Indexed-delete}
use lanet.Ctl.Node.Hosts.{next_host-cases, addr6_for_host-IsAddr, Found, AllBusy}
use lanet.Ctl.Node.Invariant.{
  IsValid, enter-IsValid, with_new, new_node, enroll_new-eq-ok, with_new-IsValid,
}
use lanet.Ctl.Node.{
  Registry, Node, next_host, EnrollRequest, enroll, enroll_new, remove_node, restore_node,
  restored_ipv6, pool_exhausted, mem, not_member, taken_by_other, enter, addr6_for_host,
}

-- The three required fields are given, and the token is known.
abbrev pub IsAdmitted : Registry → EnrollRequest → Type 0
IsAdmitted r input =
    (is_empty input.token ≡ false)
    × (is_empty input.peer_id ≡ false)
    × (is_empty input.name ≡ false)
    × (mem input.token r.tokens ≡ true)

module _ (net : Netip) (r : Registry) (input : EnrollRequest) (now : Time)
    (ad : IsAdmitted r input) where
  enroll_known :
      (m : Node) → lookup input.peer_id r.nodes ≡ some m → enroll net r input now ≡ ok (r, m)
  unfolding enroll
  enroll_known m e = ground arith

  enroll_unknown :
      lookup input.peer_id r.nodes ≡ none → enroll net r input now ≡ enroll_new net r input now
  unfolding enroll
  enroll_unknown e = ground arith

  enroll_exhausted :
      next_host r ≡ err pool_exhausted → enroll_new net r input now ≡ err pool_exhausted
  unfolding enroll_new
  enroll_exhausted e = rw e

-- A request that succeeds was admitted.
pub enroll-ok-IsAdmitted :
    (net : Netip) (r : Registry) (input : EnrollRequest) (now : Time) (x : Registry × Node)
    → enroll net r input now ≡ ok x
    → IsAdmitted r input
unfolding enroll
enroll-ok-IsAdmitted net r input now x h = (ground arith, ground arith, ground arith, ground arith)

pub remove_node-unknown :
    (net : Netip) (r : Registry) (p : Text)
    → lookup p r.nodes ≡ none
    → remove_node net r p ≡ err not_member
unfolding remove_node
remove_node-unknown net r p h = ground arith

-- A text that stands for an address is not empty.
parsed-nonempty :
    (net : Netip) (t : Text) (a : Addr) → net.parse_addr t ≡ some a → is_empty t ≡ false
parsed-nonempty net [] a h = cc (net.parse_empty)
parsed-nonempty net (c ∷ t) a h = refl

pub remove_node-eq-ok :
    (net : Netip) (r : Registry) (p : Text) (m : Node) (a b : Addr)
    → lookup p r.nodes ≡ some m
    → net.parse_addr m.virtual_ip ≡ some a
    → net.parse_addr m.virtual_ipv6 ≡ some b
    → remove_node net r p
      ≡ ok (
        record r {
          nodes = delete p r.nodes;
          used_ips = delete (addr_key a) r.used_ips;
          used_ipv6 = delete (addr_key b) r.used_ipv6;
        },
        m,
      )
unfolding remove_node
remove_node-eq-ok net r p m a b e pa pb = ground (arith, parsed-nonempty net m.virtual_ipv6 b pb)

-- The IPv6 address that a stored row is restored with: the one of the host number of its IPv4
-- address if the row has none, else its own, if that is inside the prefix.
abbrev pub IsStoredIpv6 : Netip → Registry → Node → Addr → Addr → Type 0
IsStoredIpv6 net r input a b =
    ((input.virtual_ipv6 ≡ []) × (addr6_for_host r (get_or (bytes a) 3 0) ≡ ok b))
    ⊎ ((net.parse_addr input.virtual_ipv6 ≡ some b) × (contains r.prefix6 b ≡ true))

is_empty-true : (t : Text) → is_empty t ≡ true → t ≡ []
is_empty-true [] e = refl
is_empty-true (c ∷ t) e = cc

module _ (net : Netip) (n : ℕ) (r : Registry) (v : IsValid net n r) (now : Time) where
  -- A registry that keeps the invariant: an admitted request of a known peer gets the peer's node
  -- and changes nothing; one of a new peer gets the lowest host whose two addresses are free, and
  -- the invariant is kept; with no such host the call fails with the pool exhausted.
  pub enroll-cases :
      (input : EnrollRequest)
      → IsAdmitted r input
      → ((m : Node) × (lookup input.peer_id r.nodes ≡ some m)
          × (enroll net r input now ≡ ok (r, m)))
        ⊎ ((x : ℕ) × Found r n 2 253 x
            × (enroll net r input now
                ≡ ok (with_new net n r input now x, new_node net n input now x))
            × IsValid net n (with_new net n r input now x))
        ⊎ ((enroll net r input now ≡ err pool_exhausted) × AllBusy r n 2 255)
  enroll-cases input ad = elim (Option-cases (lookup input.peer_id r.nodes)) [
    | inr (m, e) ↦ inl (m, e, enroll_known net r input now ad m e)
    | inl e ↦ elim (next_host-cases r n v.below v.at_subnet) [
      | inl (x, host, f) ↦ inr (
          inl (
            x,
            f,
            enroll_unknown net r input now ad e
                ∙ enroll_new-eq-ok net n r v input now x host (omega arith) (omega arith),
            with_new-IsValid net n r v input now x e f.2,
          ))
      | inr (host, all) ↦ inr (
          inr (enroll_unknown net r input now ad e ∙ enroll_exhausted net r input now ad host, all))
    ]
  ]

  -- A peer that is removed is gone, its two addresses are free again, and the invariant is kept.
  pub remove_node-IsValid :
      (p : Text) (m : Node)
      → lookup p r.nodes ≡ some m
      → (r' : Registry) × (a : Addr) × (b : Addr) × (remove_node net r p ≡ ok (r', m))
        × IsValid net n r'
        × (lookup p r'.nodes ≡ none)
        × (net.parse_addr m.virtual_ip ≡ some a)
        × (lookup (addr_key a) r'.used_ips ≡ none)
        × (net.parse_addr m.virtual_ipv6 ≡ some b)
        × (lookup (addr_key b) r'.used_ipv6 ≡ none)
  remove_node-IsValid p m e =
      let (a, pa, ua) = v.ips.owned p m e in
      let (b, pb, ub) = v.ipv6.owned p m e in
      (
        record r {
          nodes = delete p r.nodes;
          used_ips = delete (addr_key a) r.used_ips;
          used_ipv6 = delete (addr_key b) r.used_ipv6;
        },
        a,
        b,
        remove_node-eq-ok net r p m a b e pa pb,
        record {
          below = v.below;
          at_subnet = v.at_subnet;
          ips = Indexed-delete net (λ k. k.virtual_ip) r.nodes r.used_ips v.ips p m a e pa;
          ipv6 = Indexed-delete net (λ k. k.virtual_ipv6) r.nodes r.used_ipv6 v.ipv6 p m b e pb;
          named = λ q k h. v.named q k (ground (arith, lookup-delete p q r.nodes));
          inside = λ q c (k, h, parsed).
              v.inside q c (k, ground (arith, lookup-delete p q r.nodes), parsed);
        },
        lookup-delete_self p r.nodes,
        pa,
        lookup-delete_self (addr_key a) r.used_ips,
        pb,
        lookup-delete_self (addr_key b) r.used_ipv6,
      )

  -- What `RestoreNode` has found when it enters a node.
  pub restore_node-inv :
      (input : Node) (r' : Registry)
      → restore_node net r input now ≡ ok r'
      → ((m : Node) × (lookup input.peer_id r.nodes ≡ some m) × (r' ≡ r))
        ⊎ ((a : Addr) × (b : Addr) × (lookup input.peer_id r.nodes ≡ none)
            × (net.parse_addr input.virtual_ip ≡ some a)
            × (contains r.prefix a ≡ true)
            × (restored_ipv6 net r input a ≡ ok b)
            × (taken_by_other r.used_ips a input.peer_id ≡ false)
            × (taken_by_other r.used_ipv6 b input.peer_id ≡ false)
            × (r'
                ≡ enter net r
                    (record input { virtual_ipv6 = net.print_addr b; enrolled_at = now })
                    a
                    b))
  unfolding restore_node
  restore_node-inv input r' h = elim (Option-cases (net.parse_addr input.virtual_ip)) [
    | inl e ↦ absurd (ground arith)
    | inr (a, e) ↦ elim (Result-cases (restored_ipv6 net r input a)) [
      | inr (x, f) ↦ absurd (ground arith)
      | inl (b, f) ↦ elim (Option-cases (lookup input.peer_id r.nodes)) [
        | inr (m, known) ↦ inl (m, known, ground arith)
        | inl new ↦ inr (a, b, new, e, ground arith, f, ground arith, ground arith, ground arith)
      ]
    ]
  ]

  free_of_not_taken :
      (field : Node → Text) (used : Dict Text) (a : Addr) (p : Text)
      → Indexed net field r.nodes used
      → lookup p r.nodes ≡ none
      → taken_by_other used a p ≡ false
      → lookup (addr_key a) used ≡ none
  free_of_not_taken field used a p i new h = elim (Option-cases (lookup (addr_key a) used)) [
    | inl e ↦ e
    | inr (q, e) ↦ let (m, known, _) = i.backed a q e in absurd (ground (arith, text_eq_iff q p))
  ]

  restored_ipv6-IsAddr : (input : Node) (a b : Addr) → restored_ipv6 net r input a ≡ ok b → IsAddr b
  unfolding restored_ipv6
  restored_ipv6-IsAddr input a b h = elim (Bool-cases (is_empty input.virtual_ipv6)) [
    | inl e ↦ addr6_for_host-IsAddr r n (get_or (bytes a) 3 0) b v.at_subnet (ground arith)
    | inr e ↦ elim (Option-cases (net.parse_addr input.virtual_ipv6)) [
      | inl f ↦ absurd (ground arith)
      | inr (c, f) ↦ let same : c ≡ b = ground arith in net.parse-IsAddr input.virtual_ipv6 b (cc)
    ]
  ]

  restored_ipv6-inv :
      (input : Node) (a b : Addr)
      → restored_ipv6 net r input a ≡ ok b
      → IsStoredIpv6 net r input a b
  unfolding restored_ipv6
  restored_ipv6-inv input a b h = elim (Bool-cases (is_empty input.virtual_ipv6)) [
    | inl e ↦ inl (is_empty-true input.virtual_ipv6 e, ground arith)
    | inr e ↦ elim (Option-cases (net.parse_addr input.virtual_ipv6)) [
      | inl f ↦ absurd (ground arith)
      | inr (c, f) ↦ let same : c ≡ b = ground arith in inr (cc, ground arith)
    ]
  ]

  -- After a restore that succeeds the peer has a node, and the invariant is kept.
  pub restore_node-IsValid :
      (input : Node) (r' : Registry)
      → restore_node net r input now ≡ ok r'
      → IsValid net n r' × (mem input.peer_id r'.nodes ≡ true)
  restore_node-IsValid input r' h = elim (restore_node-inv input r' h) [
    | inl (m, known, same) ↦ (rw same v, rw same (ground arith))
    | inr (a, b, new, pa, within, six, free, free6, same) ↦ rw same (
      enter-IsValid net n r v _ a b new pa (net.parse-print b (restored_ipv6-IsAddr input a b six))
          (subst (λ t. contains t a ≡ true) v.at_subnet within)
          (free_of_not_taken (λ k. k.virtual_ip) r.used_ips a input.peer_id v.ips new free)
          (free_of_not_taken (λ k. k.virtual_ipv6) r.used_ipv6 b input.peer_id v.ipv6 new free6),
      ground (
        arith,
        lookup-insert_self input.peer_id
            (record input { virtual_ipv6 = net.print_addr b; enrolled_at = now }) r.nodes,
      ),
    )
  ]

  -- A restore that succeeds, into a registry that keeps the invariant, keeps it. It changes nothing
  -- if the peer has a node; else the row's IPv4 address parses and is inside the prefix, its IPv6
  -- address is the stored one, inside its prefix, or the one derived if none is stored, both were
  -- free, the node entered is the row with that IPv6 address and the time of the call, and both
  -- tables lead to the peer.
  pub restore_node-cases :
      (input : Node) (r' : Registry)
      → restore_node net r input now ≡ ok r'
      → IsValid net n r'
        × (((m : Node) × (lookup input.peer_id r.nodes ≡ some m) × (r' ≡ r))
            ⊎ ((a : Addr) × (b : Addr) × (lookup input.peer_id r.nodes ≡ none)
                × (net.parse_addr input.virtual_ip ≡ some a)
                × (contains r.prefix a ≡ true)
                × IsStoredIpv6 net r input a b
                × (lookup (addr_key a) r.used_ips ≡ none)
                × (lookup (addr_key b) r.used_ipv6 ≡ none)
                × (lookup input.peer_id r'.nodes
                    ≡ some (record input { virtual_ipv6 = net.print_addr b; enrolled_at = now }))
                × (lookup (addr_key a) r'.used_ips ≡ some input.peer_id)
                × (lookup (addr_key b) r'.used_ipv6 ≡ some input.peer_id)))
  restore_node-cases input r' h = elim (restore_node-inv input r' h) [
    | inl (m, known, same) ↦ (rw same v, inl (m, known, same))
    | inr (a, b, new, pa, within, six, free, free6, same) ↦
        let node = record input { virtual_ipv6 = net.print_addr b; enrolled_at = now } in
        (
          (restore_node-IsValid input r' h).0,
          inr (
            a,
            b,
            new,
            pa,
            within,
            restored_ipv6-inv input a b six,
            free_of_not_taken (λ k. k.virtual_ip) r.used_ips a input.peer_id v.ips new free,
            free_of_not_taken (λ k. k.virtual_ipv6) r.used_ipv6 b input.peer_id v.ipv6 new free6,
            rw same (lookup-insert_self input.peer_id node r.nodes),
            rw same (lookup-insert_self (addr_key a) input.peer_id r.used_ips),
            rw same (lookup-insert_self (addr_key b) input.peer_id r.used_ipv6),
          ),
        )
  ]
