-- ===== src/Ctl/Node/Run.antt =====
-- A registry over its whole life: any sequence of calls, by any peers, at any times.
use lanet.Base.{
  ℕ, Time, ◌<◌, ◌≡◌, refl, inl, inr, true, false, List, [], ◌∷◌, some, arith, Option-cases,
  Result-cases, is_empty, lookup-insert_self, lookup, ok, err, Text, Result,
}
use lanet.Netip.{Addr, subnet, subnet_text, Netip, Prefix, masked}
use lanet.Ctl.Node.Claims.{Indexed-empty, Holds, Holds-unique}
use lanet.Ctl.Node.Invariant.{IsValid}
use lanet.Ctl.Node.Calls.{
  enroll-cases, enroll-ok-IsAdmitted, remove_node-unknown, remove_node-IsValid,
  restore_node-IsValid,
}
use lanet.Ctl.Node.{
  Registry, Node, Error, EnrollRequest, enroll, remove_node, restore_node, new_registry, token_set,
  mem,
}

-- The two address families.
pub data Family : Type 0 where
  ipv4 ipv6 : Family

abbrev pub field : Family → Node → Text
field ipv4 m = m.virtual_ip
field ipv6 m = m.virtual_ipv6

pub data Call : Type 0 where
  enrolls : EnrollRequest → Call
  restores : Node → Call
  removes : Text → Call

-- A call that fails leaves the registry as it was.
abbrev after : Registry → Result Error (Registry × Node) → Registry
after r (ok (r', m)) = r'
after r (err e) = r

abbrev after_restore : Registry → Result Error Registry → Registry
after_restore r (ok r') = r'
after_restore r (err e) = r

module _ (net : Netip) where
  unfoldable pub step : Registry → Time × Call → Registry
  step r (now, enrolls input) = after r (enroll net r input now)
  step r (now, restores input) = after_restore r (restore_node net r input now)
  step r (now, removes p) = after r (remove_node net r p)

  unfoldable pub run : Registry → List (Time × Call) → Registry
  run r [] = r
  run r (c ∷ cs) = run (step r c) cs

  new_registry-fields :
      (n : ℕ) (six : Text) (tokens : List Text) (r : Registry) (p6 : Prefix)
      → n < 256
      → net.parse_prefix six ≡ some p6
      → new_registry net (subnet_text n) six tokens ≡ ok r
      → r ≡ record {
        prefix = subnet n;
        prefix6 = masked p6;
        tokens = token_set tokens;
        nodes = [];
        used_ips = [];
        used_ipv6 = [];
      }
  unfolding new_registry
  new_registry-fields n six tokens r p6 b e h = ground (arith, net.parse_subnet n b)

  -- A new registry of the subnet 10.7.n.0/24 satisfies the invariant.
  pub new_registry-IsValid :
      (n : ℕ) (six : Text) (tokens : List Text) (r : Registry)
      → n < 256
      → new_registry net (subnet_text n) six tokens ≡ ok r
      → IsValid net n r
  unfolding new_registry lookup
  new_registry-IsValid n six tokens r b h = elim (Option-cases (net.parse_prefix six)) [
    | inl e ↦ absurd (ground (arith, net.parse_subnet n b))
    | inr (p6, e) ↦ rw (new_registry-fields n six tokens r p6 b e h) (record {
      below = b;
      at_subnet = refl;
      ips = Indexed-empty net (field ipv4);
      ipv6 = Indexed-empty net (field ipv6);
      named = λ p m k. absurd (ground arith);
      inside = λ p a (m, k, parsed). absurd (ground arith);
    })
  ]

  -- A token that is not empty is known to the registry made for it.
  pub new_registry-mem_token :
      (n : ℕ) (six t : Text) (r : Registry)
      → n < 256
      → is_empty t ≡ false
      → new_registry net (subnet_text n) six (t ∷ []) ≡ ok r
      → mem t r.tokens ≡ true
  unfolding new_registry token_set
  new_registry-mem_token n six t r b e h = elim (Option-cases (net.parse_prefix six)) [
    | inl f ↦ absurd (ground (arith, net.parse_subnet n b))
    | inr (p6, f) ↦
        rw (new_registry-fields n six (t ∷ []) r p6 b f h)
          (ground (arith, lookup-insert_self {0} t tt []))
  ]

  step-IsValid :
      (n : ℕ) (r : Registry) (c : Time × Call) → IsValid net n r → IsValid net n (step r c)
  unfolding step
  step-IsValid n r (now, enrolls input) v = elim (Result-cases (enroll net r input now)) [
    | inr (x, e) ↦ rw e v
    | inl (x, e) ↦
        elim (enroll-cases net n r v now input (enroll-ok-IsAdmitted net r input now x e)) [
          | inl (m, known, eq) ↦ rw eq v
          | inr (inl (h, f, eq, valid)) ↦ rw eq valid
          | inr (inr (eq, all)) ↦ rw eq v
        ]
  ]
  step-IsValid n r (now, restores input) v = elim (Result-cases (restore_node net r input now)) [
    | inl (r', e) ↦ rw e (restore_node-IsValid net n r v now input r' e).0
    | inr (x, e) ↦ rw e v
  ]
  step-IsValid n r (now, removes p) v = elim (Option-cases (lookup p r.nodes)) [
    | inl e ↦ rw (remove_node-unknown net r p e) v
    | inr (m, e) ↦
        let (r', a, b, eq, valid, _, _, _, _, _) = remove_node-IsValid net n r v now p m e in
        rw eq valid
  ]

  pub run-IsValid :
      (n : ℕ) (r : Registry) (cs : List (Time × Call)) → IsValid net n r → IsValid net n (run r cs)
  unfolding run
  run-IsValid n r [] v = v
  run-IsValid n r (c ∷ cs) v = run-IsValid n (step r c) cs (step-IsValid n r c v)

  -- Whatever calls are made of a registry that `NewRegistry` made for the subnet 10.7.n.0/24, the
  -- invariant holds after them, so in each family two peers that hold one address are one peer.
  pub run-addresses_unique :
      (f : Family) (n : ℕ) (six : Text) (tokens : List Text) (r : Registry)
      (cs : List (Time × Call))
      → n < 256
      → new_registry net (subnet_text n) six tokens ≡ ok r
      → (p q : Text) (a : Addr) → Holds net (field f) (run r cs).nodes p a
      → Holds net (field f) (run r cs).nodes q a
      → p ≡ q
  run-addresses_unique ipv4 n six tokens r cs b h p q a x y =
      let v = run-IsValid n r cs (new_registry-IsValid n six tokens r b h) in
      Holds-unique net (field ipv4) _ _ v.ips p q a x y
  run-addresses_unique ipv6 n six tokens r cs b h p q a x y =
      let v = run-IsValid n r cs (new_registry-IsValid n six tokens r b h) in
      Holds-unique net (field ipv6) _ _ v.ipv6 p q a x y
