-- ===== src/Ctl/Group/Rules.antt =====
-- How a method of the registry runs: a rule for each step that can fail, which leaves to prove
-- what the failure leaves behind, and the rest of the method.
use lanet.Base.{
  Bool, true, false, ◌≡◌, refl, subst, sym, Option, none, some, Option-cases, inl, inr, Result, ok,
  err, ◌⊎◌, ◌≢◌, arith,
}
use lanet.Ctl.Node
use lanet.Ctl.Group.Monad.{of_node, M, after, ◌>>=◌, ◌>>◌, require, found, lift, run_statement}
use lanet.Ctl.Group.Types.{Registry, Statement, Error, store_failed}

module _ {ℓ} {S B : Type 0} (P : Registry S × Result Error B → Type ℓ) (r : Registry S) where
  pub require_rule :
      (b : Bool) (e : Error) (k : M S B)
      → (b ≡ false → P (r, err e))
      → (b ≡ true → P (k r))
      → P ((require b e >> k) r)
  unfolding require
  require_rule true e k no_case yes_case = yes_case refl
  require_rule false e k no_case yes_case = no_case refl

  pub found_rule :
      {A : Type 0} (o : Option A) (e : Error) (k : A → M S B)
      → (o ≡ none → P (r, err e))
      → ((a : A) → o ≡ some a → P (k a r))
      → P ((found o e >>= k) r)
  unfolding found
  found_rule none e k no_case yes_case = no_case refl
  found_rule (some a) e k no_case yes_case = yes_case a refl

  pub lift_rule :
      {A : Type 0} (x : Result Error A) (k : A → M S B)
      → ((e : Error) → x ≡ err e → P (r, err e))
      → ((a : A) → x ≡ ok a → P (k a r))
      → P ((lift x >>= k) r)
  unfolding lift
  lift_rule (err e) k no_case yes_case = no_case e refl
  lift_rule (ok a) k no_case yes_case = yes_case a refl

-- A statement changes nothing but the store, and if it fails, nothing.
pub run_statement-cases :
    {S : Type 0} (exec : Statement → S → Option S) (c : Statement) (r : Registry S)
    → ((st : Option S) × (run_statement exec c r ≡ (record r { store = st }, ok tt)))
      ⊎ (run_statement exec c r ≡ (r, err store_failed))
unfolding run_statement
run_statement-cases exec c r = elim (Option-cases r.store) [
  | inl e ↦ inl (none, rw (e, run_statement) (ground arith))
  | inr (s, e) ↦ elim (Option-cases (exec c s)) [
    | inl f ↦ inr (ground arith)
    | inr (s', f) ↦ inl (some s', ground arith)
  ]
]

pub store_rule {ℓ} :
    {S B : Type 0} (P : Registry S × Result Error B → Type ℓ) (r : Registry S)
    (exec : Statement → S → Option S) (c : Statement) (k : M S B)
    → (run_statement exec c r ≡ (r, err store_failed) → P (r, err store_failed))
    → ((st : Option S) → P (k (record r { store = st })))
    → P ((run_statement exec c >> k) r)
store_rule P r exec c k no_case yes_case = elim (run_statement-cases exec c r) [
  | inl (st, e) ↦ subst (λ o. P (after o (λ _. k))) (sym e) (yes_case st)
  | inr e ↦ subst (λ o. P (after o (λ _. k))) (sym e) (no_case e)
]

-- A database on which no statement fails.
abbrev pub Reliable : {S : Type 0} → (Statement → S → Option S) → Type 0
Reliable {S} exec = (c : Statement) (s : S) → (s' : S) × (exec c s ≡ some s')

pub run_statement-ne-failed :
    {S : Type 0} (exec : Statement → S → Option S) (c : Statement) (r : Registry S)
    → Reliable exec
    → run_statement exec c r ≢ (r, err store_failed)
unfolding run_statement
run_statement-ne-failed exec c r rel e = elim (Option-cases r.store) [
  | inl f ↦ ground arith
  | inr (s, f) ↦ let (s', g) = rel c s in ground arith
]

-- What a call of the node registry returned.
pub of_node-ok : {A : Type 0} (x : Result Node.Error A) (a : A) → of_node x ≡ ok a → x ≡ ok a
of_node-ok (ok b) a e = cc
of_node-ok (err e') a e = cc
