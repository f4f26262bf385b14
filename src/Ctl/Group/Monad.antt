-- ===== src/Ctl/Group/Monad.antt =====
-- A method of the registry: it reads and changes the registry, and returns a value or an error.
-- What it has changed before an error stays changed, as in the source.
use lanet.Base.{Bool, true, false, Option, none, some, Result, ok, err}
use lanet.Ctl.Node
use lanet.Ctl.Group.Types.{Registry, Statement, Error, store_failed, node_error}

abbrev pub M : Type 0 → Type 0 → Type 0
M S A = Registry S → Registry S × Result Error A

-- The rest of a method, after a step's outcome.
abbrev pub after :
    {S A B : Type 0} → Registry S × Result Error A → (A → M S B) → Registry S × Result Error B
after (r, ok a) f = f a r
after (r, err e) f = (r, err e)

infixl 5 ◌>>=◌ ◌>>◌
abbrev pub ◌>>=◌ : {S A B : Type 0} → M S A → (A → M S B) → M S B
◌>>=◌ m f r = after (m r) f

abbrev pub ◌>>◌ : {S A B : Type 0} → M S A → M S B → M S B
m >> k = m >>= λ _. k

abbrev pub pure : {S A : Type 0} → A → M S A
pure a r = (r, ok a)

abbrev pub fail : {S A : Type 0} → Error → M S A
fail e r = (r, err e)

-- `if !cond { return error }`.
unfoldable pub require : {S : Type 0} → Bool → Error → M S (Unit {0})
require true e = pure tt
require false e = fail e

abbrev pub gets : {S A : Type 0} → (Registry S → A) → M S A
gets f r = (r, ok (f r))

abbrev pub modify : {S : Type 0} → (Registry S → Registry S) → M S (Unit {0})
modify f r = (f r, ok tt)

-- A value that may be missing.
unfoldable pub found : {S A : Type 0} → Option A → Error → M S A
found none e = fail e
found (some a) e = pure a

-- A call that returns a result of its own, with its error passed on.
unfoldable pub lift : {S A : Type 0} → Result Error A → M S A
lift (ok a) = pure a
lift (err e) = fail e

abbrev pub of_node : {A : Type 0} → Result Node.Error A → Result Error A
of_node (ok a) = ok a
of_node (err e) = err (node_error e)

-- A statement of the store: nothing is run without a store, and an error is passed on. `exec` is
-- the database: the state after the statement, or none if it fails.
unfoldable pub run_statement :
    {S : Type 0} → (Statement → S → Option S) → Statement → M S (Unit {0})
run_statement exec c r = elim r.store [
  | none ↦ (r, ok tt)
  | some s ↦ elim (exec c s) [
    | none ↦ (r, err store_failed)
    | some s' ↦ (record r { store = some s' }, ok tt)
  ]
]
