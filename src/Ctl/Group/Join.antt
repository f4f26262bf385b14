-- ===== src/Ctl/Group/Join.antt =====
-- `Join` keeps the invariant, whatever the store answers.
use lanet.Base.{
  ℕ, Time, ◌≡◌, refl, sym, subst, true, Option, some, arith, lookup, insert, lookup-insert_self,
  Text, Result,
}
use lanet.Netip.{Netip}
use lanet.Ctl.Node
use lanet.Ctl.Node.{mem}
use lanet.Ctl.Node.Outcomes.{Enrolled, enroll-Enrolled}
use lanet.Ctl.Group.Types.{
  Group, Registry, Statement, Error, JoinInput, join_fields, invalid_invite, invite_expired,
  in_another_group, role_member,
}
use lanet.Ctl.Group.Monad.{of_node}
use lanet.Ctl.Group.Rules.{require_rule, found_rule, lift_rule, store_rule, of_node-ok}
use lanet.Ctl.Group.Invariant.{
  IsValid, GroupIsValid, set_group-IsValid, set_store-IsValid, index-IsValid,
}
use lanet.Ctl.Group.Methods.{join, next_version}

module _ (net : Netip) {S : Type 0} (exec : Statement → S → Option S) where
  -- A group whose node registry has enrolled one more peer.
  set-Enrolled-IsValid :
      (r : Registry S) (g : Text) (grp : Group) (registry' : Node.Registry) (version : ℕ) (p : Text)
      → IsValid net r
      → lookup g r.groups_by_id ≡ some grp
      → (n : ℕ) → GroupIsValid net r.next_subnet r.groups_by_invite n g grp
      → Enrolled net n grp.registry registry' p
      → IsValid net (record r {
        groups_by_id =
            insert grp.id (record grp { registry = registry'; version = version }) r.groups_by_id;
      })
  set-Enrolled-IsValid r g grp registry' version p v known n gv en =
      let at : grp.id ≡ g = gv.id_is_key in
      subst
        (λ k. IsValid net (record r {
          groups_by_id =
              insert k (record grp { registry = registry'; version = version }) r.groups_by_id;
        }))
        (sym at)
        (set_group-IsValid net r g grp (record grp { registry = registry'; version = version }) n v
          known
          (record {
            given_out = gv.given_out;
            named = gv.named;
            id_is_key = at;
            cidr_is_subnet = gv.cidr_is_subnet;
            nodes_valid = en.valid;
            token_known = ground arith;
            invite_leads = gv.invite_leads;
          })
          refl
          (λ q e.
            let (old, at_g, inside) = v.members q g e in
            let same : old ≡ grp = ground arith in
            en.keeps q (subst (λ k. mem q k.registry.nodes ≡ true) same inside)))

  -- The last step of `Join`: the version and the indexes.
  finish_join-IsValid :
      (r : Registry S) (g : Text) (grp : Group) (registry' : Node.Registry) (p : Text)
      (st : Option S)
      → IsValid net (record r {
        groups_by_id = insert grp.id (record grp { registry = registry' }) r.groups_by_id;
      })
      → grp.id ≡ g
      → mem p registry'.nodes ≡ true
      → let joined = record grp { registry = registry'; version = next_version grp.version } in
        IsValid net (record r {
          groups_by_id =
              insert grp.id joined
                (insert grp.id (record grp { registry = registry' }) r.groups_by_id);
          group_by_peer = insert p grp.id r.group_by_peer;
          member_role = insert p role_member r.member_role;
          store = st;
        })
  finish_join-IsValid r g grp registry' p st v1 at inside =
      let grp' = record grp { registry = registry' } in
      let joined = record grp' { version = next_version grp.version } in
      let r1 = record r { groups_by_id = insert grp.id grp' r.groups_by_id } in
      let known1 : lookup grp.id r1.groups_by_id ≡ some grp' =
        lookup-insert_self grp.id grp' r.groups_by_id in
      let (n, gv) = v1.groups grp.id grp' known1 in
      let v2 =
        set-Enrolled-IsValid r1 grp.id grp' registry' (next_version grp.version) p v1 known1 n gv
          (record { valid = gv.nodes_valid; inside = inside; keeps = λ q h. h; tokens = refl }) in
      let r2 = record r1 { groups_by_id = insert grp.id joined r1.groups_by_id; store = st } in
      index-IsValid net r2 p grp.id role_member (set_store-IsValid net _ st v2)
        (joined, lookup-insert_self grp.id joined r1.groups_by_id, inside)

  -- Whatever it is asked, and whatever the store answers, `Join` keeps the invariant.
  pub join-IsValid :
      (input : JoinInput) (now : Time) (r : Registry S)
      → IsValid net r
      → IsValid net (join net exec input now r).0
  unfolding join
  join-IsValid input now r v =
      let P = λ (o : Registry S × Result Error (Group × Node.Node)). IsValid net o.0 in
      require_rule P r _ join_fields _ (λ _. v)
        λ fields.
          found_rule P r (lookup input.invite_code r.groups_by_invite) invalid_invite _ (λ _. v)
            λ g at_code.
              found_rule P r (lookup g r.groups_by_id) invalid_invite _ (λ _. v)
                λ grp known.
                  require_rule P r _ invite_expired _ (λ _. v)
                    λ alive.
                      require_rule P r _ in_another_group _ (λ _. v)
                        λ free.
                          lift_rule P r (of_node (Node.enroll net grp.registry _ now)) _ (λ _ _. v)
                            λ (registry', member) entered.
                              let (n, gv) = v.groups g grp known in
                              let en =
                                enroll-Enrolled net n grp.registry gv.nodes_valid now _ registry'
                                  member (of_node-ok _ _ entered) in
                              let v1 =
                                set-Enrolled-IsValid r g grp registry' grp.version input.peer_id v
                                  known n gv en in
                              store_rule P _ exec _ _ (λ _. v1)
                                λ st.
                                  store_rule P _ exec _ _ (λ _. set_store-IsValid net _ st v1)
                                    λ st'.
                                      finish_join-IsValid r g grp registry' input.peer_id st' v1
                                        gv.id_is_key en.inside
