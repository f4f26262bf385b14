-- ===== src/Ctl/Group/Invariant.antt =====
-- What the registry keeps: its groups are the subnets given out, each group's node registry is
-- valid, each invite code leads to the group that shows it, and the indexes name real members.
use lanet.Base.{
  ℕ, ◌≤◌, ◌<◌, ◌≡◌, subst, inl, inr, true, ◌++◌, Option, some, arith, Bool-cases, lookup, insert,
  lookup-insert, Text, text_eq, text_eq_iff, text_eq→eq, Dict, codes, show_dec,
}
use lanet.Netip.{subnet_text, Netip}
use lanet.Ctl.Node.{mem}
use lanet.Ctl.Node.Invariant.{IsValid as NodesIsValid}
use lanet.Ctl.Group.Types.{Group, Registry}
use lanet.Ctl.Group.Methods.{base_prefix}

-- The ID of the group with subnet number `n`.
abbrev pub group_id_text : ℕ → Text
group_id_text n = codes "g" ++ show_dec n

module _ (net : Netip) where
  -- The group under key `g` is the one of subnet `n`, of those below `next`.
  pub record GroupIsValid (next : ℕ) (by_invite : Dict Text) (n : ℕ) (g : Text) (grp : Group)
      : Type 0 where
    pub given_out : n < next
    pub named : g ≡ group_id_text n
    pub id_is_key : grp.id ≡ g
    pub cidr_is_subnet : grp.cidr ≡ subnet_text n
    pub nodes_valid : NodesIsValid net n grp.registry
    pub token_known : mem grp.enroll_token grp.registry.tokens ≡ true
    pub invite_leads : lookup grp.invite_code by_invite ≡ some g

module _ (net : Netip) {S : Type 0} where
  -- Peer `p` is entered in the node registry of group `g`.
  abbrev pub IsMember : Registry S → Text → Text → Type 0
  IsMember r p g =
      (grp : Group) × (lookup g r.groups_by_id ≡ some grp) × (mem p grp.registry.nodes ≡ true)

  pub record IsValid (r : Registry S) : Type 0 where
    pub at_base : r.base ≡ base_prefix
    pub bounded : r.next_subnet ≤ 256
    pub groups :
        (g : Text) (grp : Group)
        → lookup g r.groups_by_id ≡ some grp
        → (n : ℕ) × GroupIsValid net r.next_subnet r.groups_by_invite n g grp
    pub invites :
        (code g : Text)
        → lookup code r.groups_by_invite ≡ some g
        → (grp : Group) × (lookup g r.groups_by_id ≡ some grp) × (grp.invite_code ≡ code)
    pub members : (p g : Text) → lookup p r.group_by_peer ≡ some g → IsMember r p g
    pub roles :
        (p role : Text)
        → lookup p r.member_role ≡ some role
        → (g : Text) × (lookup p r.group_by_peer ≡ some g)

  -- A new state of a group's node registry that loses no indexed member keeps the invariant.
  pub set_group-IsValid :
      (r : Registry S) (g : Text) (grp grp' : Group) (n : ℕ)
      → IsValid r
      → lookup g r.groups_by_id ≡ some grp
      → GroupIsValid net r.next_subnet r.groups_by_invite n g grp'
      → grp'.invite_code ≡ grp.invite_code
      → ((p : Text) → lookup p r.group_by_peer ≡ some g → mem p grp'.registry.nodes ≡ true)
      → IsValid (record r { groups_by_id = insert g grp' r.groups_by_id })
  set_group-IsValid r g grp grp' n v known ok' same keep = record {
    at_base = v.at_base;
    bounded = v.bounded;
    groups = λ h grp'' e. elim (Bool-cases (text_eq g h)) [
      | inl p ↦
          let same_group : grp' ≡ grp'' = ground (arith, lookup-insert g h grp' r.groups_by_id) in
          (
            n,
            subst (GroupIsValid net r.next_subnet r.groups_by_invite n h) same_group (
                subst (λ k. GroupIsValid net r.next_subnet r.groups_by_invite n k grp')
                  (text_eq→eq g h p) ok'),
          )
      | inr p ↦ v.groups h grp'' (ground (arith, lookup-insert g h grp' r.groups_by_id))
    ];
    invites = λ code h e. elim (Bool-cases (text_eq g h)) [
      | inl p ↦
          let (old, at, shown) = v.invites code h e in
          (
            grp',
            ground (arith, lookup-insert g h grp' r.groups_by_id),
            ground (arith, text_eq_iff g h),
          )
      | inr p ↦
          let (old, at, shown) = v.invites code h e in
          (old, ground (arith, lookup-insert g h grp' r.groups_by_id), shown)
    ];
    members = λ q h e. elim (Bool-cases (text_eq g h)) [
      | inl p ↦
          let same_g : g ≡ h = text_eq→eq g h p in
          (grp', ground (arith, lookup-insert g h grp' r.groups_by_id), keep q (cc))
      | inr p ↦
          let (old, at, inside) = v.members q h e in
          (old, ground (arith, lookup-insert g h grp' r.groups_by_id), inside)
    ];
    roles = v.roles;
  }

  -- The store is no part of the invariant.
  pub set_store-IsValid :
      (r : Registry S) (st : Option S) → IsValid r → IsValid (record r { store = st })
  set_store-IsValid r st v = record {
    at_base = v.at_base;
    bounded = v.bounded;
    groups = v.groups;
    invites = v.invites;
    members = v.members;
    roles = v.roles;
  }

  -- A member of a group is entered in the indexes.
  pub index-IsValid :
      (r : Registry S) (p g role : Text)
      → IsValid r
      → IsMember r p g
      → IsValid (record r {
        group_by_peer = insert p g r.group_by_peer;
        member_role = insert p role r.member_role;
      })
  index-IsValid r p g role v inside = record {
    at_base = v.at_base;
    bounded = v.bounded;
    groups = v.groups;
    invites = v.invites;
    members = λ q h e. elim (Bool-cases (text_eq p q)) [
      | inl same ↦
          subst (λ k. IsMember r k h) (text_eq→eq p q same)
            (subst (IsMember r p) (ground (arith, lookup-insert p q g r.group_by_peer)) inside)
      | inr other ↦ v.members q h (ground (arith, lookup-insert p q g r.group_by_peer))
    ];
    roles = λ q x e. elim (Bool-cases (text_eq p q)) [
      | inl same ↦ (g, ground (arith, lookup-insert p q g r.group_by_peer))
      | inr other ↦
          let (h, known) = v.roles q x (ground (arith, lookup-insert p q role r.member_role)) in
          (h, ground (arith, lookup-insert p q g r.group_by_peer))
    ];
  }
