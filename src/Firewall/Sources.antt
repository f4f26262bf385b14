-- ===== src/Firewall/Sources.antt =====
-- Who passes the firewall, and by which rules.
use lanet.Base.{
  ℕ, ◌≡◌, refl, inl, inr, Bool, false, ◌||◌, List, [], ◌∷◌, ◌++◌, Option, arith, any, Text,
  is_empty, text_eq, Bool-cases,
}
use lanet.Firewall.{
  Firewall, Rule, mode_allow_all, mode_allow_list, source_match, allow, allow_stream, rule_allows,
  rule_allows_stream, set_rules, new_firewall,
}

any-append {ℓ} :
    {A : Type ℓ} (p : A → Bool) (xs ys : List A) → any p (xs ++ ys) ≡ (any p xs || any p ys)
any-append p [] ys = refl
any-append p (x ∷ xs) ys = ground (arith, any-append p xs ys)

any-false : {A : Type 0} (p : A → Bool) (xs : List A) → ((a : A) → p a ≡ false) → any p xs ≡ false
any-false p [] h = refl
any-false p (x ∷ xs) h = ground (arith, h x, any-false p xs h)

module _ {Ip IpNet : Type 0} (parse_ip : Text → Option Ip) (parse_cidr : Text → Option IpNet)
    (net_contains : IpNet → Ip → Bool) where
  source_match-nil :
      (pattern : Text) → source_match parse_ip parse_cidr net_contains pattern [] ≡ false
  unfolding source_match
  source_match-nil pattern = refl

  -- A packet or a stream from an unknown source passes if and only if the firewall is open to all.
  pub unknown_source :
      (f : Firewall) (proto : Text) (port : ℕ)
      → (allow parse_ip parse_cidr net_contains f [] proto port ≡ text_eq f.mode mode_allow_all)
        × (allow_stream parse_ip parse_cidr net_contains f [] proto ≡ text_eq f.mode mode_allow_all)
  unfolding allow allow_stream
  unknown_source f proto port = (
    ground (
      arith,
      any-false (rule_allows parse_ip parse_cidr net_contains [] proto port) f.rules
          (λ r. ground (arith, source_match-nil r.source)),
    ),
    ground (
      arith,
      any-false (rule_allows_stream parse_ip parse_cidr net_contains [] proto) f.rules
          (λ r. ground (arith, source_match-nil r.source)),
    ),
  )

  -- Under an allow list, what two lists of rules let in together is what either lets in: no rule
  -- takes away what another gives, and their order is of no matter.
  pub allow-append :
      (f : Firewall) (xs ys : List Rule) (source_ip proto : Text) (port : ℕ)
      → let pass = λ (rules : List Rule).
        allow parse_ip parse_cidr net_contains
          (set_rules f mode_allow_list rules)
          source_ip
          proto
          port in
        pass (xs ++ ys) ≡ (pass xs || pass ys)
  unfolding allow set_rules text_eq
  allow-append f xs ys source_ip proto port =
      any-append (rule_allows parse_ip parse_cidr net_contains source_ip proto port) xs ys

  -- Whatever the rules, a mode that is empty or is none of the two that open the firewall lets
  -- nothing in, by packet or by stream; so does a firewall that nobody has set.
  pub closed_mode :
      (f : Firewall) (mode : Text) (rules : List Rule) (source_ip proto : Text) (port : ℕ)
      → text_eq mode mode_allow_all ≡ false
      → text_eq mode mode_allow_list ≡ false
      → (allow parse_ip parse_cidr net_contains (set_rules f mode rules) source_ip proto port
          ≡ false)
        × (allow_stream parse_ip parse_cidr net_contains (set_rules f mode rules) source_ip proto
            ≡ false)
        × (allow parse_ip parse_cidr net_contains new_firewall source_ip proto port ≡ false)
  unfolding allow allow_stream set_rules new_firewall text_eq
  closed_mode f mode rules source_ip proto port h k = elim (Bool-cases (is_empty mode)) [
    | inl e ↦ (rw e refl, rw e refl, refl)
    | inr e ↦ (ground arith, ground arith, refl)
  ]
