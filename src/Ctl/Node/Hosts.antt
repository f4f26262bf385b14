-- ===== src/Ctl/Node/Hosts.antt =====
-- The host numbers of a group: `nextHost` finds the lowest one that is free in both families.
use lanet.Base.{
  ℕ, zero, suc, ◌+◌, ◌%◌, ◌≤◌, ◌<◌, ◌≡◌, refl, ◌⊎◌, inl, inr, Bool, true, false, ◌||◌, [], ◌∷◌,
  arith, Bool-cases, Result-cases, ℕ_discrete, ◌∙◌, ok, err,
}
use lanet.Netip.{Addr, v4, subnet, IsAddr, contains}
use lanet.Protocol.{member_ipv6}
use lanet.Protocol.Addressing.{member_addr, member_ipv6-eq-ok, member_ipv6-IsAddr}
use lanet.Ctl.Node.{
  Registry, pool_exhausted, addr_for_host, addr6_for_host, is_used, next_host_from, next_host,
}

-- The IPv4 address of host `h` of subnet `n`.
abbrev pub host_addr : ℕ → ℕ → Addr
host_addr n h = v4 (10 ∷ 7 ∷ n ∷ (h % 256) ∷ [])

pub addr_for_host-eq-ok :
    (r : Registry) (n h : ℕ) → r.prefix ≡ subnet n → addr_for_host r h ≡ ok (host_addr n h)
unfolding addr_for_host
addr_for_host-eq-ok r n h e = rw e (ground arith)

pub addr6_for_host-eq-ok :
    (r : Registry) (n h : ℕ)
    → n < 256
    → r.prefix ≡ subnet n
    → 2 ≤ h
    → h ≤ 254
    → addr6_for_host r h ≡ ok (member_addr n h)
unfolding addr6_for_host
addr6_for_host-eq-ok r n h b e lo hi = rw (e, member_ipv6-eq-ok n h (omega arith) lo hi) refl

pub host_addr-IsAddr : (n h : ℕ) → n < 256 → IsAddr (host_addr n h)
host_addr-IsAddr n h b = omega arith

pub host_addr-contains : (n h : ℕ) → contains (subnet n) (host_addr n h) ≡ true
host_addr-contains n h = ground arith

pub member_addr-IsAddr : (n h : ℕ) → IsAddr (member_addr n h)
member_addr-IsAddr n h = omega arith

pub addr6_for_host-IsAddr :
    (r : Registry) (n h : ℕ) (a : Addr) → r.prefix ≡ subnet n → addr6_for_host r h ≡ ok a → IsAddr a
unfolding addr6_for_host
addr6_for_host-IsAddr r n h a e f = elim (Result-cases (member_ipv6 n h)) [
  | inl (b, g) ↦ ground (arith, member_ipv6-IsAddr n h b g)
  | inr (x, g) ↦ absurd (ground arith)
]

-- One of the two addresses of a host is taken.
abbrev pub busy : Registry → ℕ → ℕ → Bool
busy r n h = is_used r.used_ips (host_addr n h) || is_used r.used_ipv6 (member_addr n h)

abbrev pub AllBusy : Registry → ℕ → ℕ → ℕ → Type 0
AllBusy r n lo hi = (y : ℕ) → lo ≤ y → y < hi → busy r n y ≡ true

-- The host that a search over `k` hosts from `h` finds: the lowest free one.
abbrev pub Found : Registry → ℕ → ℕ → ℕ → ℕ → Type 0
Found r n h k x = (h ≤ x) × (x < h + k) × (busy r n x ≡ false) × AllBusy r n h x

module _ (r : Registry) (n : ℕ) (b : n < 256) (e : r.prefix ≡ subnet n) where
  AllBusy-cons : (h hi : ℕ) → busy r n h ≡ true → AllBusy r n (suc h) hi → AllBusy r n h hi
  AllBusy-cons h hi now later y lo up = elim (ℕ_discrete h y) [
    | yes p ↦ rw (← p) now
    | no p ↦ later y (omega arith) up
  ]

  next_host_from-step :
      (k h : ℕ)
      → 2 ≤ h
      → h ≤ 254
      → next_host_from r (suc k) h
        ≡ (elim (busy r n h) [ true ↦ next_host_from r k (h + 1) | false ↦ ok h ])
  unfolding next_host_from
  next_host_from-step k h lo hi =
      rw (addr_for_host-eq-ok r n h e, addr6_for_host-eq-ok r n h b e lo hi) (ground arith)

  next_host_from-busy :
      (k h : ℕ)
      → 2 ≤ h
      → h ≤ 254
      → busy r n h ≡ true
      → next_host_from r (suc k) h ≡ next_host_from r k (h + 1)
  next_host_from-busy k h lo hi now = next_host_from-step k h lo hi ∙ ground arith

  next_host_from-free :
      (k h : ℕ) → 2 ≤ h → h ≤ 254 → busy r n h ≡ false → next_host_from r (suc k) h ≡ ok h
  next_host_from-free k h lo hi now = next_host_from-step k h lo hi ∙ ground arith

  next_host_from-cases :
      (k h : ℕ)
      → 2 ≤ h
      → h + k ≤ 255
      → ((x : ℕ) × (next_host_from r k h ≡ ok x) × Found r n h k x)
        ⊎ ((next_host_from r k h ≡ err pool_exhausted) × AllBusy r n h (h + k))
  unfolding next_host_from
  next_host_from-cases zero h lo hi = inr (refl, λ y p q. absurd (omega arith))
  next_host_from-cases (suc k) h lo hi = elim (Bool-cases (busy r n h)) [
    | inr free ↦ inl (
      h,
      next_host_from-free k h lo (omega arith) free,
      (omega arith, omega arith, free, λ y p q. absurd (omega arith)),
    )
    | inl now ↦
        let on = next_host_from-busy k h lo (omega arith) now in
        elim (next_host_from-cases k (h + 1) (omega arith) (omega arith)) [
          | inl (x, found, f) ↦ inl (
            x,
            on ∙ found,
            (omega arith, omega arith, f.2, AllBusy-cons h x now (λ y p q. f.3 y (omega arith) q)),
          )
          | inr (none_left, all) ↦ inr (
            on ∙ none_left,
            AllBusy-cons h (h + suc k) now (λ y p q. all y (omega arith) (omega arith)),
          )
        ]
  ]

  -- `nextHost` returns the lowest host of 2 to 254 whose two addresses are both free, and fails,
  -- with the pool exhausted, only if each of the 253 hosts has an address in use.
  pub next_host-cases :
      ((x : ℕ) × (next_host r ≡ ok x) × Found r n 2 253 x)
      ⊎ ((next_host r ≡ err pool_exhausted) × AllBusy r n 2 255)
  unfolding next_host
  next_host-cases = next_host_from-cases 253 2 (omega arith) (omega arith)
