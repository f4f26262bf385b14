-- ===== src/Ctl/Node/Invariant.antt =====
-- What every call on a registry keeps: its subnet, and both address tables exact.
use lanet.Base.{
  ℕ, Time, ◌≤◌, ◌<◌, ◌≡◌, refl, subst, inl, inr, true, false, none, some, arith, Bool-cases, lookup,
  lookup-insert, ok, Text, text_eq, text_eq_iff, Dict,
}
use lanet.Netip.{Addr, subnet, addr_key, Netip, contains}
use lanet.Protocol.Addressing.{member_addr}
use lanet.Ctl.Node.Claims.{Indexed, Indexed-insert, Holds}
use lanet.Ctl.Node.Hosts.{
  host_addr, host_addr-IsAddr, host_addr-contains, member_addr-IsAddr, addr_for_host-eq-ok,
  addr6_for_host-eq-ok, busy,
}
use lanet.Ctl.Node.{Registry, Node, EnrollRequest, enroll_new, enrolled, enter, is_used, next_host}

module _ (net : Netip) where
  pub record IsValid (n : ℕ) (r : Registry) : Type 0 where
    pub below : n < 256
    pub at_subnet : r.prefix ≡ subnet n
    pub ips : Indexed net (λ m. m.virtual_ip) r.nodes r.used_ips
    pub ipv6 : Indexed net (λ m. m.virtual_ipv6) r.nodes r.used_ipv6
    pub named : (p : Text) (m : Node) → lookup p r.nodes ≡ some m → m.peer_id ≡ p
    pub inside :
        (p : Text) (a : Addr)
        → Holds net (λ m. m.virtual_ip) r.nodes p a
        → contains (subnet n) a ≡ true

-- An address table entry that is absent.
is_used-free :
    (used : Dict Text) (a : Addr) → is_used used a ≡ false → lookup (addr_key a) used ≡ none
is_used-free used a h = ground arith

-- The node and the registry that a first enrolment under host `x` leaves.
abbrev pub new_node : Netip → ℕ → EnrollRequest → Time → ℕ → Node
new_node net n input now x = enrolled net input (host_addr n x) (member_addr n x) now

abbrev pub with_new : Netip → ℕ → Registry → EnrollRequest → Time → ℕ → Registry
with_new net n r input now x =
    enter net r (new_node net n input now x) (host_addr n x) (member_addr n x)

module _ (net : Netip) (n : ℕ) (r : Registry) (v : IsValid net n r) where
  -- Entering a node under two free addresses keeps the registry valid.
  pub enter-IsValid :
      (m : Node) (a b : Addr)
      → lookup m.peer_id r.nodes ≡ none
      → net.parse_addr m.virtual_ip ≡ some a
      → net.parse_addr m.virtual_ipv6 ≡ some b
      → contains (subnet n) a ≡ true
      → lookup (addr_key a) r.used_ips ≡ none
      → lookup (addr_key b) r.used_ipv6 ≡ none
      → IsValid net n (enter net r m a b)
  enter-IsValid m a b new pa pb ca fa fb = record {
    below = v.below;
    at_subnet = v.at_subnet;
    ips = Indexed-insert net (λ k. k.virtual_ip) r.nodes r.used_ips v.ips m.peer_id m a new pa fa;
    ipv6 =
        Indexed-insert net (λ k. k.virtual_ipv6) r.nodes r.used_ipv6 v.ipv6 m.peer_id m b new pb fb;
    named = λ p k h. elim (Bool-cases (text_eq m.peer_id p)) [
      | inl e ↦ ground (arith, lookup-insert m.peer_id p m r.nodes, text_eq_iff m.peer_id p)
      | inr e ↦ v.named p k (ground (arith, lookup-insert m.peer_id p m r.nodes))
    ];
    inside = λ p c (k, known, parsed). elim (Bool-cases (text_eq m.peer_id p)) [
      | inl e ↦
          let same : m ≡ k = ground (arith, lookup-insert m.peer_id p m r.nodes) in
          let same_addr : a ≡ c = ground arith in
          subst (λ t. contains (subnet n) t ≡ true) same_addr ca
      | inr e ↦ v.inside p c (k, ground (arith, lookup-insert m.peer_id p m r.nodes), parsed)
    ];
  }

  pub enroll_new-eq-ok :
      (input : EnrollRequest) (now : Time) (x : ℕ)
      → next_host r ≡ ok x
      → 2 ≤ x
      → x ≤ 254
      → enroll_new net r input now ≡ ok (with_new net n r input now x, new_node net n input now x)
  unfolding enroll_new
  enroll_new-eq-ok input now x e lo hi =
      rw
        (
          e,
          addr_for_host-eq-ok r n x v.at_subnet,
          addr6_for_host-eq-ok r n x v.below v.at_subnet lo hi,
        )
        refl

  pub with_new-IsValid :
      (input : EnrollRequest) (now : Time) (x : ℕ)
      → lookup input.peer_id r.nodes ≡ none
      → busy r n x ≡ false
      → IsValid net n (with_new net n r input now x)
  with_new-IsValid input now x new free =
      enter-IsValid (new_node net n input now x) (host_addr n x) (member_addr n x) new
        (net.parse-print _ (host_addr-IsAddr n x v.below))
        (net.parse-print _ (member_addr-IsAddr n x)) (host_addr-contains n x)
        (is_used-free r.used_ips (host_addr n x) (ground arith))
        (is_used-free r.used_ipv6 (member_addr n x) (ground arith))
