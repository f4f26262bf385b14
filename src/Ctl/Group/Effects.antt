-- ===== src/Ctl/Group/Effects.antt =====
-- What the methods do: who may call them, and what a call that succeeds leaves behind.
use lanet.Base.{
  Time, ◌≡◌, refl, false, Option, none, arith, lookup, lookup-insert_self, lookup-delete_self, ok,
  err, Text, text_eq, Result,
}
use lanet.Netip.{Netip}
use lanet.Ctl.Node
use lanet.Ctl.Node.{mem}
use lanet.Ctl.Group.Types.{
  Group, Registry, Statement, Error, KickInput, kick_fields, unknown_group, not_owner_kick,
  owner_kicks_self, target_not_member, ResetInviteInput, reset_fields, not_owner_reset, JoinInput,
  join_fields, invalid_invite, invite_expired, in_another_group, role_owner, role_member,
}
use lanet.Ctl.Group.Monad.{of_node}
use lanet.Ctl.Group.Rules.{require_rule, found_rule, lift_rule, store_rule}
use lanet.Ctl.Group.Invariant.{IsValid}
use lanet.Ctl.Group.Methods.{kick, reset_invite, join, is_owner}

text_eq_role : text_eq role_member role_owner ≡ false
unfolding text_eq
text_eq_role = refl

module _ (net : Netip) {S : Type 0} (exec : Statement → S → Option S) (r : Registry S) where
  -- What is left of a peer in the indexes: nothing.
  abbrev pub IsForgotten : Registry S → Text → Type 0
  IsForgotten r' p =
      (lookup p r'.group_by_peer ≡ none)
      × (lookup p r'.member_role ≡ none)
      × (lookup p r'.announced_addrs ≡ none)

  -- A kick that succeeds leaves nothing of the target in the indexes.
  pub kick-IsForgotten :
      (input : KickInput) (m : Node.Node)
      → (kick net exec input r).1 ≡ ok m
      → IsForgotten (kick net exec input r).0 input.target_peer_id
  unfolding kick
  kick-IsForgotten input m =
      let P = λ (o : Registry S × Result Error Node.Node).
        o.1 ≡ ok m → IsForgotten o.0 input.target_peer_id in
      require_rule P r _ kick_fields _ (λ _ e. cc)
        λ fields.
          found_rule P r (lookup input.group_id r.groups_by_id) unknown_group _ (λ _ e. cc)
            λ grp known.
              require_rule P r _ not_owner_kick _ (λ _ e. cc)
                λ owner.
                  require_rule P r _ owner_kicks_self _ (λ _ e. cc)
                    λ other.
                      require_rule P r _ target_not_member _ (λ _ e. cc)
                        λ inside.
                          lift_rule P r
                            (of_node (Node.remove_node net grp.registry input.target_peer_id)) _
                            (λ _ _ e. cc)
                            λ (registry', gone) left.
                              store_rule P _ exec _ _ (λ _ e. cc)
                                λ st.
                                  store_rule P _ exec _ _ (λ _ e. cc)
                                    λ st' e. (
                                      lookup-delete_self input.target_peer_id r.group_by_peer,
                                      lookup-delete_self input.target_peer_id r.member_role,
                                      lookup-delete_self input.target_peer_id r.announced_addrs,
                                    )

  -- Nothing has changed, and an error is returned.
  abbrev pub IsRefused : {A : Type 0} → Registry S × Result Error A → Type 0
  IsRefused o = (o.0 ≡ r) × (e : Error) × (o.1 ≡ err e)

  -- A caller who does not own the group kicks nobody: an error, and nothing changes.
  pub kick-IsRefused :
      (input : KickInput)
      → IsValid net r
      → is_owner r input.operator_peer_id input.group_id ≡ false
      → IsRefused (kick net exec input r)
  unfolding kick
  kick-IsRefused input v stranger =
      let P = λ (o : Registry S × Result Error Node.Node). IsRefused o in
      require_rule P r _ kick_fields _ (λ _. (refl, kick_fields, refl))
        λ fields.
          found_rule P r (lookup input.group_id r.groups_by_id) unknown_group _
            (λ _. (refl, unknown_group, refl))
            λ grp known.
              require_rule P r _ not_owner_kick _ (λ _. (refl, not_owner_kick, refl))
                λ owner.
                  let (n, gv) = v.groups input.group_id grp known in
                  absurd (ground (arith, gv.id_is_key))

  -- A caller who does not own the group resets no invite code: an error, and nothing changes.
  pub reset_invite-IsRefused :
      (input : ResetInviteInput) (new_code : Text) (now : Time)
      → IsValid net r
      → is_owner r input.operator_peer_id input.group_id ≡ false
      → IsRefused (reset_invite net exec input new_code now r)
  unfolding reset_invite
  reset_invite-IsRefused input new_code now v stranger =
      let P = λ (o : Registry S × Result Error (Text × Option Time)). IsRefused o in
      require_rule P r _ reset_fields _ (λ _. (refl, reset_fields, refl))
        λ fields.
          found_rule P r (lookup input.group_id r.groups_by_id) unknown_group _
            (λ _. (refl, unknown_group, refl))
            λ grp known.
              require_rule P r _ not_owner_reset _ (λ _. (refl, not_owner_reset, refl))
                λ owner.
                  let (n, gv) = v.groups input.group_id grp known in
                  absurd (ground (arith, gv.id_is_key))

  -- After a `Join` that succeeds, the peer owns no group, also if it was the owner of the group
  -- that it joined.
  pub join-demotes :
      (input : JoinInput) (now : Time) (x : Group × Node.Node) (g : Text)
      → (join net exec input now r).1 ≡ ok x
      → is_owner (join net exec input now r).0 input.peer_id g ≡ false
  unfolding join
  join-demotes input now x g =
      let P = λ (o : Registry S × Result Error (Group × Node.Node)).
        o.1 ≡ ok x → is_owner o.0 input.peer_id g ≡ false in
      require_rule P r _ join_fields _ (λ _ e. cc)
        λ fields.
          found_rule P r (lookup input.invite_code r.groups_by_invite) invalid_invite _ (λ _ e. cc)
            λ k at_code.
              found_rule P r (lookup k r.groups_by_id) invalid_invite _ (λ _ e. cc)
                λ grp known.
                  require_rule P r _ invite_expired _ (λ _ e. cc)
                    λ alive.
                      require_rule P r _ in_another_group _ (λ _ e. cc)
                        λ free.
                          lift_rule P r (of_node (Node.enroll net grp.registry _ now)) _
                            (λ _ _ e. cc)
                            λ (registry', member) entered.
                              store_rule P _ exec _ _ (λ _ e. cc)
                                λ st.
                                  store_rule P _ exec _ _ (λ _ e. cc)
                                    λ st' e. ground (
                                      arith,
                                      text_eq_role,
                                      lookup-insert_self input.peer_id role_member r.member_role,
                                    )
