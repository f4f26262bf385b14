-- ===== src/Ctl/Node/Outcomes.antt =====
-- What a caller needs of a call that succeeded: the invariant, who is entered, and the tokens.
use lanet.Base.{
  ok-injective, ℕ, Time, ◌≡◌, refl, sym, ap, subst, ◌∙◌, inl, inr, true, false, some, arith,
  Option-cases, lookup, lookup-insert, lookup-insert_self, lookup-delete, delete, ok, Text, text_eq,
  text_eq_iff,
}
use lanet.Netip.{Netip}
use lanet.Ctl.Node.{Registry, Node, EnrollRequest, enroll, remove_node, mem}
use lanet.Ctl.Node.Invariant.{IsValid, with_new, new_node}
use lanet.Ctl.Node.Calls.{
  enroll-ok-IsAdmitted, enroll-cases, remove_node-IsValid, remove_node-unknown,
}

-- Everyone who is entered in the one registry is entered in the other.
abbrev pub Keeps : Registry → Registry → Type 0
Keeps r r' = (p : Text) → mem p r.nodes ≡ true → mem p r'.nodes ≡ true

pub record Enrolled (net : Netip) (n : ℕ) (r r' : Registry) (p : Text) : Type 0 where
  pub valid : IsValid net n r'
  pub inside : mem p r'.nodes ≡ true
  pub keeps : Keeps r r'
  pub tokens : r'.tokens ≡ r.tokens

pub record Removed (net : Netip) (n : ℕ) (r r' : Registry) (p : Text) : Type 0 where
  pub valid : IsValid net n r'
  pub gone : mem p r'.nodes ≡ false
  pub keeps : (q : Text) → text_eq p q ≡ false → mem q r.nodes ≡ true → mem q r'.nodes ≡ true
  pub tokens : r'.tokens ≡ r.tokens

with_new-Enrolled :
    (net : Netip) (n : ℕ) (r : Registry) (now : Time) (input : EnrollRequest) (x : ℕ)
    → IsValid net n (with_new net n r input now x)
    → Enrolled net n r (with_new net n r input now x) input.peer_id
with_new-Enrolled net n r now input x valid = record {
  valid = valid;
  inside = ground (arith, lookup-insert_self input.peer_id (new_node net n input now x) r.nodes);
  keeps = λ p h. ground (arith, lookup-insert input.peer_id p (new_node net n input now x) r.nodes);
  tokens = refl;
}

remove_node-shape :
    (net : Netip) (r : Registry) (p : Text) (k : Node) (r' : Registry) (m : Node)
    → lookup p r.nodes ≡ some k
    → remove_node net r p ≡ ok (r', m)
    → (r'.nodes ≡ delete p r.nodes) × (r'.tokens ≡ r.tokens)
unfolding remove_node
remove_node-shape net r p k r' m e h = (ground arith, ground arith)

module _ (net : Netip) (n : ℕ) (r : Registry) (v : IsValid net n r) (now : Time) where
  -- An enrolment that succeeds enters the peer, loses nobody and keeps the invariant.
  pub enroll-Enrolled :
      (input : EnrollRequest) (r' : Registry) (m : Node)
      → enroll net r input now ≡ ok (r', m)
      → Enrolled net n r r' input.peer_id
  enroll-Enrolled input r' m h =
      elim (enroll-cases net n r v now input (enroll-ok-IsAdmitted net r input now (r', m) h)) [
        | inl (k, known, eq) ↦
            let same : r ≡ r' = ap (λ t. t.0) (ok-injective (r, k) (r', m) (sym eq ∙ h)) in
            subst (λ t. Enrolled net n r t input.peer_id) same
              (record { valid = v; inside = ground arith; keeps = λ p e. e; tokens = refl })
        | inr (inl (x, f, eq, valid)) ↦
            let same =
              ap (λ t. t.0)
                (ok-injective (with_new net n r input now x, new_node net n input now x) (r', m)
                  (sym eq ∙ h)) in
            subst (λ t. Enrolled net n r t input.peer_id) same
              (with_new-Enrolled net n r now input x valid)
        | inr (inr (eq, all)) ↦ absurd (ground arith)
      ]

  -- A removal that succeeds takes out the peer, loses nobody else and keeps the invariant.
  pub remove_node-Removed :
      (p : Text) (r' : Registry) (m : Node)
      → remove_node net r p ≡ ok (r', m)
      → Removed net n r r' p
  remove_node-Removed p r' m h = elim (Option-cases (lookup p r.nodes)) [
    | inl e ↦ absurd (ground (arith, remove_node-unknown net r p e))
    | inr (k, e) ↦
        let (r'', _, _, eq, valid, gone, _, _, _, _) = remove_node-IsValid net n r v now p k e in
        let same = ap (λ t. t.0) (ok-injective (r'', k) (r', m) (sym eq ∙ h)) in
        let (nodes, tokens) = remove_node-shape net r p k r' m e h in
        record {
          valid = subst (IsValid net n) same valid;
          gone = ground (arith, lookup-delete p p r.nodes, text_eq_iff p p);
          keeps = λ q ne inside. ground (arith, lookup-delete p q r.nodes);
          tokens = tokens;
        }
  ]
