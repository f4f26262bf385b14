-- ===== src/Ctl/Group/Kick.antt =====
-- `Kick` keeps the invariant on a store that does not fail. On one that fails it does not: the
-- node registry has already lost the member that the indexes still name.
use lanet.Base.{
  ℕ, ◌≡◌, refl, subst, inl, inr, true, false, Option, some, arith, Bool-cases, lookup, insert,
  delete, lookup-insert, lookup-delete, Text, text_eq, text_eq_iff, text_eq→eq, Dict, Result,
  if◌then◌else◌, List, pos,
}
use lanet.Netip.{Netip}
use lanet.Ctl.Node
use lanet.Ctl.Node.{mem}
use lanet.Ctl.Node.Outcomes.{Removed, remove_node-Removed}
use lanet.Ctl.Group.Types.{
  Group, Registry, Statement, Error, KickInput, kick_fields, unknown_group, not_owner_kick,
  owner_kicks_self, target_not_member,
}
use lanet.Ctl.Group.Monad.{of_node}
use lanet.Ctl.Group.Rules.{
  require_rule, found_rule, lift_rule, store_rule, of_node-ok, Reliable, run_statement-ne-failed,
}
use lanet.Ctl.Group.Invariant.{IsValid, GroupIsValid, set_store-IsValid}
use lanet.Ctl.Group.Methods.{kick, next_version}

module _ (net : Netip) {S : Type 0} (exec : Statement → S → Option S) where
  module _ (r : Registry S) (g p : Text) (grp grp' : Group) (n : ℕ) (v : IsValid net r)
      (known : lookup g r.groups_by_id ≡ some grp)
      (gv' : GroupIsValid net r.next_subnet r.groups_by_invite n g grp')
      (same_code : grp'.invite_code ≡ grp.invite_code)
      (keeps : (q : Text)
        → text_eq p q ≡ false
        → mem q grp.registry.nodes ≡ true
        → mem q grp'.registry.nodes ≡ true)
      (addrs : Dict (List Text)) (by_id : Dict Group)
      (by_id_law : (h : Text)
        → lookup h by_id ≡ (if text_eq g h then some grp' else lookup h r.groups_by_id)) where
    -- The indexes lose the peer that the group has lost.
    removed-IsValid : IsValid net (record r {
      groups_by_id = by_id;
      group_by_peer = delete p r.group_by_peer;
      member_role = delete p r.member_role;
      announced_addrs = addrs;
    })
    removed-IsValid = record {
      at_base = v.at_base;
      bounded = v.bounded;
      groups = λ h old e. elim (Bool-cases (text_eq g h)) [
        | inl same_g ↦
            let same : grp' ≡ old = ground (arith, by_id_law h) in
            (
              n,
              subst (GroupIsValid net r.next_subnet r.groups_by_invite n h) same (
                  subst (λ t. GroupIsValid net r.next_subnet r.groups_by_invite n t grp')
                    (text_eq→eq g h same_g) gv'),
            )
        | inr other ↦ v.groups h old (ground (arith, by_id_law h))
      ];
      invites = λ code h e.
          let (old, at_h, shown) = v.invites code h e in
          elim (Bool-cases (text_eq g h)) [
            | inl same_g ↦ (grp', ground (arith, by_id_law h), ground (arith, text_eq_iff g h))
            | inr other ↦ (old, ground (arith, by_id_law h), shown)
          ];
      members = λ q h e.
          let away : text_eq p q ≡ false = ground (arith, lookup-delete p q r.group_by_peer) in
          let (old, at_h, inside) =
            v.members q h (ground (arith, lookup-delete p q r.group_by_peer)) in
          elim (Bool-cases (text_eq g h)) [
            | inl same_g ↦ (
              grp',
              ground (arith, by_id_law h),
              keeps q away (
                  let same : old ≡ grp = ground (arith, text_eq_iff g h) in
                  subst {A = Group} (λ k. mem q k.registry.nodes ≡ true) same inside),
            )
            | inr other ↦ (old, ground (arith, by_id_law h), inside)
          ];
      roles = λ q role e.
          let (h, there) = v.roles q role (ground (arith, lookup-delete p q r.member_role)) in
          (h, ground (arith, lookup-delete p q r.group_by_peer, lookup-delete p q r.member_role));
    }

  -- The group after a kick, and the map that holds it.
  abbrev kicked : Group → Node.Registry → Group
  kicked grp registry' = record grp { registry = registry'; version = next_version grp.version }

  abbrev kicked_by_id : Registry S → Group → Node.Registry → Dict Group
  kicked_by_id r grp registry' =
      insert grp.id (kicked grp registry')
        (insert grp.id (record grp { registry = registry' }) r.groups_by_id)

  kicked-IsValid :
      (r : Registry S) (grp : Group) (registry' : Node.Registry) (input : KickInput) (n : ℕ)
      (st : Option S)
      → IsValid net r
      → lookup input.group_id r.groups_by_id ≡ some grp
      → GroupIsValid net r.next_subnet r.groups_by_invite n input.group_id grp
      → Removed net n grp.registry registry' input.target_peer_id
      → IsValid net (record r {
        groups_by_id = kicked_by_id r grp registry';
        group_by_peer = delete input.target_peer_id r.group_by_peer;
        member_role = delete input.target_peer_id r.member_role;
        announced_addrs = delete input.target_peer_id r.announced_addrs;
        store = st;
      })
  kicked-IsValid r grp registry' input n st v known gv out =
      let p = input.target_peer_id in
      set_store-IsValid net _ st (
        removed-IsValid r input.group_id p grp (kicked grp registry') n v known
          (record {
            given_out = gv.given_out;
            named = gv.named;
            id_is_key = gv.id_is_key;
            cidr_is_subnet = gv.cidr_is_subnet;
            nodes_valid = out.valid;
            token_known = ground (arith, out.tokens, gv.token_known);
            invite_leads = gv.invite_leads;
          })
          refl out.keeps (delete p r.announced_addrs) (kicked_by_id r grp registry')
          (λ h. ground (
            arith,
            gv.id_is_key,
            lookup-insert grp.id h (kicked grp registry')
                (insert grp.id (record grp { registry = registry' }) r.groups_by_id),
            lookup-insert grp.id h (record grp { registry = registry' }) r.groups_by_id,
          )))

  -- A registry that keeps the invariant keeps it through `Kick`, whatever is asked, provided that
  -- no statement of the store fails.
  pub kick-IsValid :
      (input : KickInput) (r : Registry S)
      → Reliable exec
      → IsValid net r
      → IsValid net (kick net exec input r).0
  unfolding kick
  kick-IsValid input r rel v =
      let P = λ (o : Registry S × Result Error Node.Node). IsValid net o.0 in
      require_rule P r _ kick_fields _ (λ _. v)
        λ fields.
          found_rule P r (lookup input.group_id r.groups_by_id) unknown_group _ (λ _. v)
            λ grp known.
              require_rule P r _ not_owner_kick _ (λ _. v)
                λ owner.
                  require_rule P r _ owner_kicks_self _ (λ _. v)
                    λ other.
                      require_rule P r _ target_not_member _ (λ _. v)
                        λ inside.
                          lift_rule P r
                            (of_node (Node.remove_node net grp.registry input.target_peer_id)) _
                            (λ _ _. v)
                            λ (registry', gone) left.
                              store_rule P _ exec _ _
                                (λ e. absurd (run_statement-ne-failed exec _ _ rel e))
                                λ st.
                                  store_rule P _ exec _ _
                                    (λ e. absurd (run_statement-ne-failed exec _ _ rel e))
                                    λ st'.
                                      let (n, gv) = v.groups input.group_id grp known in
                                      let out =
                                        remove_node-Removed net n grp.registry gv.nodes_valid
                                          (pos 0) input.target_peer_id registry' gone
                                          (of_node-ok _ _ left) in
                                      kicked-IsValid r grp registry' input n st' v known gv out
