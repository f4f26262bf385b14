-- ===== src/Serverless/VirtualIps/Table/Sync.antt =====
-- `syncLocked` brings the table to the decision, whatever it held before.
use lanet.Base.{
  ℕ, ◌≡◌, refl, ◌∙◌, inl, inr, Bool, true, false, ◌&&◌, not, Option, none, some, List, [], ◌∷◌,
  arith, if◌then◌else◌, Text, is_empty, text_eq, text_eq_refl, text_eq→eq, text_eq_iff, Dict,
  lookup, lookup-insert, has, Bool-cases, Option-cases,
}
use lanet.Serverless.VirtualIps.{Lease, decide}
use lanet.Serverless.VirtualIps.Members.{decide-stranger}
use lanet.Serverless.VirtualIps.Table.{
  VirtualIpTable, Synced, equal_strings, drop_locked, keys, release_one, release_all,
  clear_conflicts, same_lease, issue, refresh, refresh_to, refresh_one, refresh_all, sync_locked,
}
use lanet.Serverless.VirtualIps.Table.Indexes.{
  IsIndexed, issue-IsIndexed, drop_locked-IsIndexed, drop_locked-lea,
}

equal_strings→eq : (xs ys : List Text) → equal_strings xs ys ≡ true → xs ≡ ys
unfolding equal_strings
equal_strings→eq [] [] h = refl
equal_strings→eq [] (y ∷ ys) h = cc
equal_strings→eq (x ∷ xs) [] h = cc
equal_strings→eq (x ∷ xs) (y ∷ ys) h = ground (arith, text_eq→eq x y, equal_strings→eq xs ys)

pub same_lease→eq : (prev next : Lease) → same_lease prev next ≡ true → prev ≡ next
unfolding same_lease
same_lease→eq prev next h = ground (
  arith,
  text_eq→eq prev.ip next.ip,
  text_eq→eq prev.base_ip next.base_ip,
  equal_strings→eq prev.losers next.losers,
)

unfoldable pub is_none : Option Lease → Bool
is_none none = true
is_none (some lease) = false

has-keys : (x : Text) (m : Dict Lease) → has x (keys m) ≡ not (is_none (lookup x m))
unfolding has keys is_none lookup
has-keys x [] = refl
has-keys x ((k, lease) ∷ m) = ground (arith, has-keys x m)

release_one-lea :
    (k : Text) (o : Option Lease) (t : VirtualIpTable) (x : Text)
    → lookup x (release_one k o t).lea ≡ (if text_eq k x && is_none o then none else lookup x t.lea)
unfolding release_one is_none
release_one-lea k none t x = drop_locked-lea k x t ∙ ground arith
release_one-lea k (some next) t x = ground arith

pub release_all-lea :
    (ks : List Text) (desired : Dict Lease) (t : VirtualIpTable) (x : Text)
    → lookup x (release_all ks desired t).lea
      ≡ (if has x ks && is_none (lookup x desired) then none else lookup x t.lea)
unfolding release_all has
release_all-lea [] desired t x = refl
release_all-lea (k ∷ ks) desired t x =
    let o = lookup k desired in
    release_all-lea ks desired (release_one k o t) x
    ∙ ground (arith, release_one-lea k o t x, text_eq_iff k x)

release_one-IsIndexed :
    (k : Text) (o : Option Lease) (t : VirtualIpTable) → IsIndexed t → IsIndexed (release_one k o t)
unfolding release_one
release_one-IsIndexed k none t h = drop_locked-IsIndexed k t h
release_one-IsIndexed k (some next) t h = h

release_all-IsIndexed :
    (ks : List Text) (desired : Dict Lease) (t : VirtualIpTable)
    → IsIndexed t
    → IsIndexed (release_all ks desired t)
unfolding release_all
release_all-IsIndexed [] desired t h = h
release_all-IsIndexed (k ∷ ks) desired t h =
    release_all-IsIndexed ks desired (release_one k (lookup k desired) t)
      (release_one-IsIndexed k (lookup k desired) t h)

-- What one round does: the peer has the lease wanted, and the others keep theirs.
pub refresh-lea :
    (id : Text) (next : Lease) (o : Option Lease) (s : Synced) (x : Text)
    → lookup id s.table.lea ≡ o
    → lookup x (refresh id next o s).table.lea
      ≡ (if text_eq id x then some next else lookup x s.table.lea)
unfolding refresh issue
refresh-lea id next none s x e = lookup-insert id x next s.table.lea
refresh-lea id next (some prev) s x e = elim (Bool-cases (same_lease prev next)) [
  | inl same ↦ rw same (ground (arith, same_lease→eq prev next same, text_eq_iff id x))
  | inr new ↦ rw new (
      lookup-insert id x next (drop_locked id s.table).lea
      ∙ ground (arith, drop_locked-lea id x s.table))
]

refresh-IsIndexed :
    (id : Text) (next : Lease) (o : Option Lease) (s : Synced)
    → lookup id s.table.lea ≡ o
    → IsIndexed s.table
    → IsIndexed (refresh id next o s).table
unfolding refresh
refresh-IsIndexed id next none s e h = issue-IsIndexed id next s.table e h
refresh-IsIndexed id next (some prev) s e h = elim (Bool-cases (same_lease prev next)) [
  | inl same ↦ rw same h
  | inr new ↦ rw new (
      issue-IsIndexed id next (drop_locked id s.table)
        (drop_locked-lea id id s.table ∙ rw (text_eq_refl id) refl)
        (drop_locked-IsIndexed id s.table h))
]

-- The lease wanted of a peer of the list, else the one it has.
abbrev wanted : Text → List Text → Dict Lease → Option Lease → Option Lease
wanted x ids desired old =
    if has x ids && not (is_empty x) && not (is_none (lookup x desired))
    then lookup x desired
    else old

refresh_to-lea :
    (id : Text) (o : Option Lease) (s : Synced) (x : Text)
    → lookup x (refresh_to id o s).table.lea
      ≡ (if text_eq id x && not (is_none o) then o else lookup x s.table.lea)
unfolding refresh_to is_none
refresh_to-lea id none s x = ground arith
refresh_to-lea id (some next) s x = refresh-lea id next _ s x refl ∙ ground arith

refresh_to-IsIndexed :
    (id : Text) (o : Option Lease) (s : Synced)
    → IsIndexed s.table
    → IsIndexed (refresh_to id o s).table
unfolding refresh_to
refresh_to-IsIndexed id none s h = h
refresh_to-IsIndexed id (some next) s h = refresh-IsIndexed id next _ s refl h

refresh_one-lea :
    (id : Text) (o : Option Lease) (s : Synced) (x : Text)
    → lookup x (refresh_one id o s).table.lea
      ≡ (if text_eq id x && not (is_empty id) && not (is_none o) then o else lookup x s.table.lea)
unfolding refresh_one
refresh_one-lea id o s x = elim (Bool-cases (is_empty id)) [
  | inl empty ↦ rw empty (ground arith)
  | inr full ↦ rw full (refresh_to-lea id o s x ∙ ground arith)
]

refresh_all-lea :
    (ids : List Text) (desired : Dict Lease) (s : Synced) (x : Text)
    → lookup x (refresh_all ids desired s).table.lea ≡ wanted x ids desired (lookup x s.table.lea)
unfolding refresh_all has
refresh_all-lea [] desired s x = refl
refresh_all-lea (id ∷ ids) desired s x =
    let o = lookup id desired in
    refresh_all-lea ids desired (refresh_one id o s) x
    ∙ ground (arith, refresh_one-lea id o s x, text_eq_iff id x)

refresh_one-IsIndexed :
    (id : Text) (o : Option Lease) (s : Synced)
    → IsIndexed s.table
    → IsIndexed (refresh_one id o s).table
unfolding refresh_one
refresh_one-IsIndexed id o s h = elim (Bool-cases (is_empty id)) [
  | inl empty ↦ rw empty h
  | inr full ↦ rw full (refresh_to-IsIndexed id o s h)
]

refresh_all-IsIndexed :
    (ids : List Text) (desired : Dict Lease) (s : Synced)
    → IsIndexed s.table
    → IsIndexed (refresh_all ids desired s).table
unfolding refresh_all
refresh_all-IsIndexed [] desired s h = h
refresh_all-IsIndexed (id ∷ ids) desired s h =
    refresh_all-IsIndexed ids desired (refresh_one id (lookup id desired) s)
      (refresh_one-IsIndexed id (lookup id desired) s h)

wanted-desired :
    (x : Text) (ids : List Text) (desired : Dict Lease) (old : Option Lease)
    → (lookup x desired ≡ none → old ≡ none)
    → (has x ids ≡ false → lookup x desired ≡ none)
    → (is_empty x ≡ true → lookup x desired ≡ none)
    → wanted x ids desired old ≡ lookup x desired
unfolding is_none
wanted-desired x ids desired old h absent empty = elim (Option-cases (lookup x desired)) [
  | inl e ↦ ground (arith, h e)
  | inr (next, e) ↦ ground arith
]

module _ (derive : Text → ℕ → Text) (t : VirtualIpTable) (ids : List Text) where
  kept_table : VirtualIpTable
  kept_table = clear_conflicts (release_all (keys t.lea) (decide derive ids) t)

  kept-lea : (x : Text) → lookup x (decide derive ids) ≡ none → lookup x kept_table.lea ≡ none
  unfolding kept_table clear_conflicts is_none
  kept-lea x h =
      release_all-lea (keys t.lea) (decide derive ids) t x
      ∙ ground (arith, has-keys x t.lea, Option-cases (lookup x t.lea))

  -- After `syncLocked` every peer has the lease that the decision gives it, and no other peer has
  -- one, whatever the table held before.
  pub sync_locked-decide :
      (x : Text) → lookup x (sync_locked derive t ids).table.lea ≡ lookup x (decide derive ids)
  unfolding sync_locked kept_table is_none
  sync_locked-decide x =
      refresh_all-lea ids (decide derive ids)
        (record { table = kept_table; updated = []; added = [] }) x
      ∙ wanted-desired x ids (decide derive ids) _ (kept-lea x)
          (λ absent. decide-stranger derive ids x (ground arith))
          (λ empty. decide-stranger derive ids x (ground arith))

  -- It keeps the indexes: the address of every peer is that of its lease, and the owners of every
  -- address are the peers whose lease has it.
  pub sync_locked-IsIndexed : IsIndexed t → IsIndexed (sync_locked derive t ids).table
  unfolding sync_locked clear_conflicts IsIndexed
  sync_locked-IsIndexed h =
      refresh_all-IsIndexed ids (decide derive ids) _
        (release_all-IsIndexed (keys t.lea) (decide derive ids) t h)
