-- ===== src/Ctl/Group/Reset.antt =====
-- `ResetInvite` and `Announce` keep the invariant.
use lanet.Base.{
  ℕ, Time, ◌≡◌, refl, sym, ap, subst, ◌∙◌, inl, inr, true, false, Option, none, some, arith,
  Bool-cases, lookup, insert, delete, lookup-insert, lookup-insert_self, lookup-delete, Text,
  text_eq, text_eq_iff, text_eq→eq, Dict, Result, if◌then◌else◌,
}
use lanet.Netip.{Netip}
use lanet.Ctl.Node.{mem}
use lanet.Ctl.Group.Types.{
  Group, Registry, Statement, Error, ResetInviteInput, reset_fields, unknown_group, not_owner_reset,
  AnnounceInput, announce_fields, unknown_peer, no_valid_addresses,
}
use lanet.Ctl.Group.Rules.{require_rule, found_rule, store_rule}
use lanet.Ctl.Group.Invariant.{IsValid, GroupIsValid, set_store-IsValid}
use lanet.Ctl.Group.Methods.{reset_invite, announce, expiry, next_version}

module _ (net : Netip) {S : Type 0} (exec : Statement → S → Option S) where
  module _ (r : Registry S) (g new_code : Text) (grp grp' : Group) (n : ℕ) (v : IsValid net r)
      (known : lookup g r.groups_by_id ≡ some grp)
      (gv : GroupIsValid net r.next_subnet r.groups_by_invite n g grp)
      (unused : lookup new_code r.groups_by_invite ≡ none) (shows : grp'.invite_code ≡ new_code)
      (same_id : grp'.id ≡ grp.id) (same_cidr : grp'.cidr ≡ grp.cidr)
      (same_nodes : grp'.registry ≡ grp.registry)
      (same_token : grp'.enroll_token ≡ grp.enroll_token) where
    abbrev by_invite : Dict Text
    by_invite = insert new_code grp.id (delete grp.invite_code r.groups_by_invite)

    lookup-by_invite :
        (code : Text)
        → lookup code by_invite ≡ (
            if text_eq new_code code
            then some grp.id
            else if text_eq grp.invite_code code
            then none
            else lookup code r.groups_by_invite)
    lookup-by_invite code = ground (
      arith,
      lookup-insert new_code code grp.id (delete grp.invite_code r.groups_by_invite),
      lookup-delete grp.invite_code code r.groups_by_invite,
    )

    this_group : GroupIsValid net r.next_subnet by_invite n g grp'
    this_group = record {
      given_out = gv.given_out;
      named = gv.named;
      id_is_key = same_id ∙ gv.id_is_key;
      cidr_is_subnet = same_cidr ∙ gv.cidr_is_subnet;
      nodes_valid = rw same_nodes gv.nodes_valid;
      token_known = rw (same_token, same_nodes) gv.token_known;
      invite_leads = rw shows (
          lookup-insert_self new_code grp.id (delete grp.invite_code r.groups_by_invite)
          ∙ ap some gv.id_is_key);
    }

    other_group :
        (h : Text) (old : Group) (k : ℕ)
        → text_eq g h ≡ false
        → GroupIsValid net r.next_subnet r.groups_by_invite k h old
        → GroupIsValid net r.next_subnet by_invite k h old
    other_group h old k ne w = record {
      given_out = w.given_out;
      named = w.named;
      id_is_key = w.id_is_key;
      cidr_is_subnet = w.cidr_is_subnet;
      nodes_valid = w.nodes_valid;
      token_known = w.token_known;
      invite_leads = ground (
        arith,
        lookup-by_invite old.invite_code,
        w.invite_leads,
        gv.invite_leads,
        unused,
        text_eq_iff new_code old.invite_code,
        text_eq_iff grp.invite_code old.invite_code,
        text_eq_iff g h,
      );
    }

    abbrev by_id : Dict Group
    by_id = insert g grp' r.groups_by_id

    reset-IsValid : IsValid net (record r { groups_by_id = by_id; groups_by_invite = by_invite })
    reset-IsValid = record {
      at_base = v.at_base;
      bounded = v.bounded;
      groups = λ h old e. elim (Bool-cases (text_eq g h)) [
        | inl p ↦
            let same : grp' ≡ old = ground (arith, lookup-insert g h grp' r.groups_by_id) in
            (
              n,
              subst (GroupIsValid net r.next_subnet by_invite n h) same (
                  subst (λ t. GroupIsValid net r.next_subnet by_invite n t grp') (text_eq→eq g h p)
                    this_group),
            )
        | inr p ↦
            let (k, w) = v.groups h old (ground (arith, lookup-insert g h grp' r.groups_by_id)) in
            (k, other_group h old k p w)
      ];
      invites = λ code h e. elim (Bool-cases (text_eq new_code code)) [
        | inl p ↦
            let at_g : grp.id ≡ h = ground (arith, lookup-by_invite code) in
            (
              grp',
              ground (arith, lookup-insert g h grp' r.groups_by_id, text_eq_iff g h, gv.id_is_key),
              shows ∙ text_eq→eq new_code code p,
            )
        | inr p ↦
            let (old, at_h, shown) = v.invites code h (ground (arith, lookup-by_invite code)) in
            (
              old,
              ground (
                arith,
                lookup-insert g h grp' r.groups_by_id,
                text_eq_iff g h,
                lookup-by_invite code,
                text_eq_iff grp.invite_code code,
              ),
              shown,
            )
      ];
      members = λ q h e.
          let (old, at_h, inside) = v.members q h e in
          elim (Bool-cases (text_eq g h)) [
            | inl p ↦ (
              grp',
              ground (arith, lookup-insert g h grp' r.groups_by_id),
              rw same_nodes (
                  let same : old ≡ grp = ground (arith, text_eq_iff g h) in
                  subst {A = Group} (λ k. mem q k.registry.nodes ≡ true) same inside),
            )
            | inr p ↦ (old, ground (arith, lookup-insert g h grp' r.groups_by_id), inside)
          ];
      roles = v.roles;
    }

  -- A registry that keeps the invariant keeps it through `ResetInvite`, whatever is asked and
  -- whatever the store answers, provided that the new random code is not in use.
  pub reset_invite-IsValid :
      (input : ResetInviteInput) (new_code : Text) (now : Time) (r : Registry S)
      → IsValid net r
      → lookup new_code r.groups_by_invite ≡ none
      → IsValid net (reset_invite net exec input new_code now r).0
  unfolding reset_invite
  reset_invite-IsValid input new_code now r v unused =
      let P = λ (o : Registry S × Result Error (Text × Option Time)). IsValid net o.0 in
      require_rule P r _ reset_fields _ (λ _. v)
        λ fields.
          found_rule P r (lookup input.group_id r.groups_by_id) unknown_group _ (λ _. v)
            λ grp known.
              require_rule P r _ not_owner_reset _ (λ _. v)
                λ owner.
                  store_rule P _ exec _ _ (λ _. v)
                    λ st.
                      store_rule P _ exec _ _ (λ _. set_store-IsValid net r st v)
                        λ st'.
                          let (n, gv) = v.groups input.group_id grp known in
                          let grp' = record grp {
                            invite_code = new_code;
                            invite_expires = expiry now input.valid_seconds;
                            version = next_version grp.version;
                          } in
                          let at : grp.id ≡ input.group_id = gv.id_is_key in
                          subst
                            (λ k. IsValid net (record r {
                              groups_by_id = insert k grp' r.groups_by_id;
                              groups_by_invite =
                                  insert new_code grp.id
                                    (delete grp.invite_code r.groups_by_invite);
                              store = st';
                            }))
                            (sym at)
                            (set_store-IsValid net _ st' (
                              reset-IsValid r input.group_id new_code grp grp' n v known gv unused
                                refl refl refl refl refl))

  -- `Announce` keeps the invariant, whatever is asked and whatever the store answers.
  pub announce-IsValid :
      (input : AnnounceInput) (r : Registry S)
      → IsValid net r
      → IsValid net (announce net exec input r).0
  unfolding announce
  announce-IsValid input r v =
      let P = λ (o : Registry S × Result Error (Unit {0})). IsValid net o.0 in
      require_rule P r _ announce_fields _ (λ _. v)
        λ fields.
          require_rule P r _ unknown_peer _ (λ _. v)
            λ known.
              require_rule P r _ no_valid_addresses _ (λ _. v)
                λ some_left.
                  store_rule P _ exec _ _ (λ _. v)
                    λ st. record {
                      at_base = v.at_base;
                      bounded = v.bounded;
                      groups = v.groups;
                      invites = v.invites;
                      members = v.members;
                      roles = v.roles;
                    }
