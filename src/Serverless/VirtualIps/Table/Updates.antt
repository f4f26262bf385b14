-- ===== src/Serverless/VirtualIps/Table/Updates.antt =====
-- Whose address `syncLocked` reports as updated.
use lanet.Base.{
  ℕ, ◌≡◌, refl, sym, ap, ◌∙◌, ◌⊎◌, inl, inr, Bool, true, false, ◌&&◌, ◌||◌, not, Option, none, some,
  List, [], ◌∷◌, ◌++◌, arith, Text, is_empty, text_eq, text_eq→eq, Dict, lookup, has, has-append,
  Bool-cases,
}
use lanet.Serverless.VirtualIps.{Lease, decide}
use lanet.Serverless.VirtualIps.Table.{
  VirtualIpTable, Synced, same_lease, refresh, refresh_to, refresh_one, refresh_all, sync_locked,
  keys, release_all, clear_conflicts,
}
use lanet.Serverless.VirtualIps.Table.Indexes.{ip_of}
use lanet.Serverless.VirtualIps.Table.Sync.{is_none, same_lease→eq, refresh-lea, release_all-lea}

-- From one state of the loop to a later one, a peer reported stays reported, and one that is not
-- reported has the address it had.
unfoldable Reports : Text → Synced → Synced → Type 0
Reports x s r =
    (has x s.updated ≡ true → has x r.updated ≡ true)
    × ((has x r.updated ≡ true) ⊎ (ip_of (lookup x r.table.lea) ≡ ip_of (lookup x s.table.lea)))

Reports-refl : (x : Text) (s : Synced) → Reports x s s
unfolding Reports
Reports-refl x s = (λ h. h, inr refl)

Reports-trans : (x : Text) (s r u : Synced) → Reports x s r → Reports x r u → Reports x s u
unfolding Reports
Reports-trans x s r u h k = (
  λ e. k.0 (h.0 e),
  elim k.1 [
    | inl later ↦ inl later
    | inr same ↦ elim h.1 [ inl before ↦ inl (k.0 before) | inr same' ↦ inr (same ∙ same') ]
  ],
)

has-append_last :
    (x id : Text) (xs : List Text) → has x (xs ++ id ∷ []) ≡ (has x xs || text_eq id x)
unfolding has
has-append_last x id xs = has-append x xs (id ∷ []) ∙ ground arith

-- Whether a round reports its peer.
is_changed : Option Lease → Lease → Bool
is_changed none next = true
is_changed (some prev) next = not (same_lease prev next) && not (text_eq prev.ip next.ip)

refresh-updated :
    (id : Text) (next : Lease) (o : Option Lease) (s : Synced) (x : Text)
    → has x (refresh id next o s).updated ≡ (has x s.updated || (text_eq id x && is_changed o next))
unfolding refresh is_changed
refresh-updated id next none s x = has-append_last x id s.updated ∙ ground arith
refresh-updated id next (some prev) s x = elim (Bool-cases (same_lease prev next)) [
  | inl same ↦ rw same (ground arith)
  | inr new ↦ rw new (ground (arith, has-append_last x id s.updated))
]

-- A round that reports nothing leaves the address.
unchanged-ip :
    (o : Option Lease) (next : Lease) → is_changed o next ≡ false → ip_of (some next) ≡ ip_of o
unfolding is_changed
unchanged-ip none next h = cc
unchanged-ip (some prev) next h =
    ground (arith, same_lease→eq prev next, text_eq→eq prev.ip next.ip)

refresh-Reports :
    (id : Text) (next : Lease) (o : Option Lease) (s : Synced) (x : Text)
    → lookup id s.table.lea ≡ o
    → Reports x s (refresh id next o s)
unfolding Reports
refresh-Reports id next o s x e =
    let report = refresh-updated id next o s x in
    let lea = refresh-lea id next o s x e in
    (
      λ h. report ∙ rw h refl,
      elim (Bool-cases (text_eq id x)) [
        | inr other ↦
            let kept : lookup x (refresh id next o s).table.lea ≡ lookup x s.table.lea =
              lea ∙ rw other refl in
            inr (ap ip_of kept)
        | inl same ↦ elim (Bool-cases (is_changed o next)) [
          | inl changed ↦ inl (report ∙ ground arith)
          | inr still ↦
              let given : lookup x (refresh id next o s).table.lea ≡ some next =
                lea ∙ rw same refl in
              inr (
                ap ip_of given
                ∙ (unchanged-ip o next still
                    ∙ ap ip_of (sym e ∙ ap (λ k. lookup k s.table.lea) (text_eq→eq id x same))))
        ]
      ],
    )

refresh_to-Reports :
    (id : Text) (o : Option Lease) (s : Synced) (x : Text) → Reports x s (refresh_to id o s)
unfolding refresh_to
refresh_to-Reports id none s x = Reports-refl x s
refresh_to-Reports id (some next) s x = refresh-Reports id next (lookup id s.table.lea) s x refl

refresh_one-Reports :
    (id : Text) (o : Option Lease) (s : Synced) (x : Text) → Reports x s (refresh_one id o s)
unfolding refresh_one
refresh_one-Reports id o s x = elim (Bool-cases (is_empty id)) [
  | inl empty ↦ rw empty (Reports-refl x s)
  | inr full ↦ rw full (refresh_to-Reports id o s x)
]

refresh_all-Reports :
    (ids : List Text) (desired : Dict Lease) (s : Synced) (x : Text)
    → Reports x s (refresh_all ids desired s)
unfolding refresh_all
refresh_all-Reports [] desired s x = Reports-refl x s
refresh_all-Reports (id ∷ ids) desired s x =
    let o = lookup id desired in
    Reports-trans x s (refresh_one id o s) (refresh_all ids desired (refresh_one id o s))
      (refresh_one-Reports id o s x) (refresh_all-Reports ids desired (refresh_one id o s) x)

-- A member that is not reported has the address that the table had for it.
pub sync_locked-updated :
    (derive : Text → ℕ → Text) (t : VirtualIpTable) (ids : List Text) (x : Text) (lease : Lease)
    → lookup x (decide derive ids) ≡ some lease
    → (has x (sync_locked derive t ids).updated ≡ true)
      ⊎ (ip_of (lookup x (sync_locked derive t ids).table.lea) ≡ ip_of (lookup x t.lea))
unfolding sync_locked Reports clear_conflicts is_none
sync_locked-updated derive t ids x lease e =
    let kept = release_all (keys t.lea) (decide derive ids) t in
    let start : Synced = record { table = clear_conflicts kept; updated = []; added = [] } in
    elim (refresh_all-Reports ids (decide derive ids) start x).1 [
      | inl reported ↦ inl reported
      | inr same ↦
          let kept : lookup x (release_all (keys t.lea) (decide derive ids) t).lea
              ≡ lookup x t.lea =
            release_all-lea (keys t.lea) (decide derive ids) t x ∙ ground arith in
          inr (same ∙ ap ip_of kept)
    ]
