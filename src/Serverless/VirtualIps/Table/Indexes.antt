-- ===== src/Serverless/VirtualIps/Table/Indexes.antt =====
-- The table's indexes agree with its leases, and the calls keep them so.
use lanet.Base.{
  ◌≡◌, refl, sym, ap, ◌∙◌, inl, inr, Bool, true, false, ◌&&◌, ◌||◌, not, Option, none, some, List,
  [], ◌∷◌, arith, if◌then◌else◌, filter, Text, text_eq, text_eq_refl, text_eq→eq, text_eq_iff, Dict,
  lookup, insert, delete, lookup-insert, lookup-delete, has, has-filter, Bool-cases,
}
use lanet.Serverless.VirtualIps.{Lease, or_nil, members_of}
use lanet.Serverless.VirtualIps.Groups.{members_of-insert}
use lanet.Serverless.VirtualIps.Table.{
  VirtualIpTable, append_sorted, with_owners, drop_owner, drop_lease, drop_at, drop_locked, issue,
}

abbrev pub ip_of : Option Lease → Option Text
ip_of none = none
ip_of (some lease) = some lease.ip

abbrev pub owns : Text → Option Lease → Bool
owns ip none = false
owns ip (some lease) = text_eq lease.ip ip

-- The address of every peer is that of its lease, and the owners of every address are the peers
-- whose lease has it.
unfoldable pub IsIndexed : VirtualIpTable → Type 0
IsIndexed t =
    (id : Text)
    → (lookup id t.peer_ips ≡ ip_of (lookup id t.lea))
      × ((ip : Text) → has id (members_of ip t.ip_owners) ≡ owns ip (lookup id t.lea))

pub has-append_sorted :
    (x : Text) (ids : List Text) (id : Text)
    → has x (append_sorted ids id) ≡ (text_eq id x || has x ids)
unfolding append_sorted has
has-append_sorted x [] id = refl
has-append_sorted x (y ∷ ids) id = ground (arith, has-append_sorted x ids id, text_eq_iff y id)

members_of-delete :
    (base key : Text) (groups : Dict (List Text))
    → members_of base (delete key groups)
      ≡ (if text_eq key base then [] else members_of base groups)
unfolding members_of
members_of-delete base key groups = elim (Bool-cases (text_eq key base)) [
  | inl e ↦ ap or_nil (lookup-delete key base groups) ∙ rw e refl
  | inr e ↦ ap or_nil (lookup-delete key base groups) ∙ rw e refl
]

members_of-with_owners :
    (ip at : Text) (kept : List Text) (owners : Dict (List Text))
    → members_of at (with_owners ip kept owners)
      ≡ (if text_eq ip at then kept else members_of at owners)
unfolding with_owners
members_of-with_owners ip at [] owners = members_of-delete at ip owners
members_of-with_owners ip at (o ∷ kept) owners = members_of-insert at ip (o ∷ kept) owners

-- Dropping an owner takes it from the owners of that address only.
has-drop_owner :
    (ip at id x : Text) (os : List Text) (owners : Dict (List Text))
    → members_of ip owners ≡ os
    → has x (members_of at (drop_owner ip id os owners))
      ≡ (has x (members_of at owners) && not (text_eq ip at && text_eq x id))
unfolding drop_owner has
has-drop_owner ip at id x [] owners e = ground (arith, text_eq_iff ip at, ap (has x) e)
has-drop_owner ip at id x (o ∷ os) owners e =
    let kept = filter (λ y. not (text_eq y id)) (o ∷ os) in
    ap (has x) (members_of-with_owners ip at kept owners)
    ∙ ground
        (arith, text_eq_iff ip at, has-filter (λ y. not (text_eq y id)) x (o ∷ os), ap (has x) e)

owner_new :
    (ip id x : Text) (next : Lease) (owners others : List Text)
    → text_eq id x ≡ true
    → has x others ≡ false
    → has x (if text_eq next.ip ip then append_sorted owners id else others) ≡ text_eq next.ip ip
owner_new ip id x next owners others same new = elim (Bool-cases (text_eq next.ip ip)) [
  | inl e ↦ rw e (has-append_sorted x owners id ∙ rw same refl)
  | inr e ↦ rw e new
]

owner_old :
    (ip id x : Text) (next : Lease) (t : VirtualIpTable)
    → text_eq id x ≡ false
    → has x (
        if text_eq next.ip ip
        then append_sorted (members_of next.ip t.ip_owners) id
        else members_of ip t.ip_owners)
      ≡ has x (members_of ip t.ip_owners)
owner_old ip id x next t other = elim (Bool-cases (text_eq next.ip ip)) [
  | inl e ↦ rw e (
      has-append_sorted x (members_of next.ip t.ip_owners) id
      ∙ (rw other refl ∙ ap (λ k. has x (members_of k t.ip_owners)) (text_eq→eq next.ip ip e)))
  | inr e ↦ rw e refl
]

pub issue-IsIndexed :
    (id : Text) (next : Lease) (t : VirtualIpTable)
    → lookup id t.lea ≡ none
    → IsIndexed t
    → IsIndexed (issue id next t)
unfolding IsIndexed issue
issue-IsIndexed id next t new h x =
    let owners = members_of next.ip t.ip_owners in
    let at = lookup-insert id x next t.lea in
    elim (Bool-cases (text_eq id x)) [
      | inl same ↦
          let at_new : lookup x (insert id next t.lea) ≡ some next = at ∙ rw same refl in
          let bare : lookup x t.lea ≡ none =
            ap (λ k. lookup k t.lea) (sym (text_eq→eq id x same)) ∙ new in
          (
            lookup-insert id x next.ip t.peer_ips ∙ (rw same refl ∙ sym (ap ip_of at_new)),
            λ ip.
                ap (has x) (members_of-insert ip next.ip (append_sorted owners id) t.ip_owners)
                ∙ (owner_new ip id x next owners (members_of ip t.ip_owners) same
                      ((h x).1 ip ∙ ap (owns ip) bare)
                    ∙ sym (ap (owns ip) at_new)),
          )
      | inr other ↦
          let at_old : lookup x (insert id next t.lea) ≡ lookup x t.lea = at ∙ rw other refl in
          (
            lookup-insert id x next.ip t.peer_ips ∙ (rw other ((h x).0 ∙ sym (ap ip_of at_old))),
            λ ip.
                ap (has x) (members_of-insert ip next.ip (append_sorted owners id) t.ip_owners)
                ∙ (owner_old ip id x next t other ∙ ((h x).1 ip ∙ sym (ap (owns ip) at_old))),
          )
    ]

drop_lease-IsIndexed :
    (id : Text) (lease : Lease) (t : VirtualIpTable)
    → lookup id t.lea ≡ some lease
    → IsIndexed t
    → IsIndexed (drop_lease id lease t)
unfolding drop_lease IsIndexed
drop_lease-IsIndexed id lease t old h x =
    let owner = λ (ip : Text).
      has-drop_owner lease.ip ip id x (members_of lease.ip t.ip_owners) t.ip_owners refl in
    elim (Bool-cases (text_eq id x)) [
      | inl same ↦
          let gone : lookup x (delete id t.lea) ≡ none = lookup-delete id x t.lea ∙ rw same refl in
          let bare : lookup x t.lea ≡ some lease =
            ap (λ k. lookup k t.lea) (sym (text_eq→eq id x same)) ∙ old in
          (
            lookup-delete id x t.peer_ips ∙ (rw same refl ∙ sym (ap ip_of gone)),
            λ ip.
                owner ip
                ∙ (ground (
                  arith,
                  (h x).1 ip ∙ ap (owns ip) bare,
                  text_eq_iff id x,
                  text_eq_iff x id,
                  text_eq_refl x,
                )
                    ∙ sym (ap (owns ip) gone)),
          )
      | inr other ↦
          let kept : lookup x (delete id t.lea) ≡ lookup x t.lea =
            lookup-delete id x t.lea ∙ rw other refl in
          (
            lookup-delete id x t.peer_ips ∙ (rw other ((h x).0 ∙ sym (ap ip_of kept))),
            λ ip.
                owner ip
                ∙ (ground (arith, text_eq_iff id x, text_eq_iff x id)
                    ∙ ((h x).1 ip ∙ sym (ap (owns ip) kept))),
          )
    ]

drop_at-IsIndexed :
    (id : Text) (o : Option Lease) (t : VirtualIpTable)
    → lookup id t.lea ≡ o
    → IsIndexed t
    → IsIndexed (drop_at id o t)
unfolding drop_at
drop_at-IsIndexed id none t e h = h
drop_at-IsIndexed id (some lease) t e h = drop_lease-IsIndexed id lease t e h

pub drop_locked-IsIndexed :
    (id : Text) (t : VirtualIpTable) → IsIndexed t → IsIndexed (drop_locked id t)
unfolding drop_locked
drop_locked-IsIndexed id t h = drop_at-IsIndexed id (lookup id t.lea) t refl h

drop_at-lea :
    (id x : Text) (o : Option Lease) (t : VirtualIpTable)
    → lookup id t.lea ≡ o
    → lookup x (drop_at id o t).lea ≡ (if text_eq id x then none else lookup x t.lea)
unfolding drop_at drop_lease
drop_at-lea id x none t e = ground (arith, text_eq_iff id x)
drop_at-lea id x (some lease) t e = lookup-delete id x t.lea

pub drop_locked-lea :
    (id x : Text) (t : VirtualIpTable)
    → lookup x (drop_locked id t).lea ≡ (if text_eq id x then none else lookup x t.lea)
unfolding drop_locked
drop_locked-lea id x t = drop_at-lea id x (lookup id t.lea) t refl
