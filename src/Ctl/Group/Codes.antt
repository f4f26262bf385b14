-- ===== src/Ctl/Group/Codes.antt =====
-- Invite codes: which code admits a peer, and what a reset does to them.
use lanet.Base.{
  ◌^◌, Time, pos, scale, ◌+ℤ◌, ◌≤ℤ◌, ◌<ℤ◌, ◌≡◌, ◌≢◌, refl, ◌⊎◌, inl, inr, false, ◌||◌, Option, none,
  some, arith, lookup, delete, lookup-insert, lookup-insert_self, lookup-delete, ok, err, Text,
  is_empty, text_eq, text_eq_refl, Result,
}
use lanet.Netip.{Netip}
use lanet.Ctl.Node
use lanet.Ctl.Node.{mem}
use lanet.Ctl.Group.Types.{
  Group, Registry, Statement, Error, ResetInviteInput, reset_fields, not_owner_reset, unknown_group,
  JoinInput, join_fields, invalid_invite, invite_expired, in_another_group,
}
use lanet.Ctl.Group.Monad.{of_node}
use lanet.Ctl.Group.Rules.{require_rule, found_rule, lift_rule, store_rule}
use lanet.Ctl.Group.Expiry.{
  FitsDuration, IsExpiry, expiry-IsExpiry, IsPast, IsGood, has_expired-IsPast, has_expired-IsGood,
  by_deadline,
}
use lanet.Ctl.Group.Methods.{reset_invite, join, expiry, next_version}

-- The three required fields of a join are given.
abbrev pub HasFields : JoinInput → Type 0
HasFields input =
    (is_empty input.invite_code || is_empty input.peer_id || is_empty input.name) ≡ false

err-injective : {A : Type 0} {d e : Error} → Path (Result Error A) (err d) (err e) → d ≡ e
err-injective f = cc

-- An error of the node registry is not about the invite code.
of_node-err :
    {A : Type 0} (x : Result Node.Error A) (e : Error)
    → of_node x ≡ err e
    → (e ≢ invite_expired) × (e ≢ invalid_invite)
of_node-err (ok a) e h = absurd cc
of_node-err (err e') e h = ((λ f. cc), (λ f. cc))

module _ (net : Netip) {S : Type 0} (exec : Statement → S → Option S) (r : Registry S) where
  join-unknown :
      (input : JoinInput) (now : Time)
      → HasFields input
      → lookup input.invite_code r.groups_by_invite ≡ none
      → join net exec input now r ≡ (r, err invalid_invite)
  unfolding join
  join-unknown input now fields unknown =
      let P = λ (o : Registry S × Result Error (Group × Node.Node)). o ≡ (r, err invalid_invite) in
      require_rule P r _ join_fields _ (λ e. absurd (ground arith))
        λ given.
          found_rule P r (lookup input.invite_code r.groups_by_invite) invalid_invite _ (λ _. refl)
            λ g at_code. absurd (ground arith)

  -- A join by a code that leads to a group: refused if the code is past its expiry, with nothing
  -- changed, and otherwise not refused as expired.
  join_by_code :
      (input : JoinInput) (now : Time) (g : Text) (grp : Group)
      → HasFields input
      → lookup input.invite_code r.groups_by_invite ≡ some g
      → lookup g r.groups_by_id ≡ some grp
      → (IsPast grp.invite_expires now × (join net exec input now r ≡ (r, err invite_expired)))
        ⊎ (IsGood grp.invite_expires now
            × (((join net exec input now r).1 ≢ err invite_expired)
                × ((join net exec input now r).1 ≢ err invalid_invite)))
  unfolding join
  join_by_code input now g grp fields at_code known =
      let P = λ (o : Registry S × Result Error (Group × Node.Node)).
        (IsPast grp.invite_expires now × (o ≡ (r, err invite_expired)))
        ⊎ (IsGood grp.invite_expires now
            × ((o.1 ≢ err invite_expired) × (o.1 ≢ err invalid_invite))) in
      require_rule P r _ join_fields _ (λ e. absurd (ground arith))
        λ given.
          found_rule P r (lookup input.invite_code r.groups_by_invite) invalid_invite _
            (λ e. absurd (ground arith))
            λ g' at_code'.
              found_rule P r (lookup g' r.groups_by_id) invalid_invite _
                (λ e. absurd (ground arith))
                λ grp' known'.
                  let same : grp' ≡ grp = ground arith in
                  require_rule P r _ invite_expired _
                    (λ e. inl (has_expired-IsPast _ now (ground arith), refl))
                    λ alive.
                      let good : IsGood grp.invite_expires now =
                        has_expired-IsGood grp.invite_expires now (ground arith) in
                      require_rule P r _ in_another_group _
                        (λ _. inr (good, ((λ e. cc), (λ e. cc))))
                        λ free.
                          lift_rule P r (of_node (Node.enroll net grp'.registry _ now)) _
                            (λ e got.
                              let (a, b) = of_node-err _ e got in
                              inr (good, ((λ f. a (err-injective f)), (λ f. b (err-injective f)))))
                            λ entered got.
                              store_rule P _ exec _ _ (λ _. inr (good, ((λ e. cc), (λ e. cc))))
                                λ st.
                                  store_rule P _ exec _ _ (λ _. inr (good, ((λ e. cc), (λ e. cc))))
                                    λ st'. inr (good, ((λ e. cc), (λ e. cc)))

  -- A reset that succeeds under a code unlike the old one, for a number of seconds that a
  -- `time.Duration` can hold, revokes the old code, and the new code leads to the group, with no
  -- expiry if the reset asked for 0 seconds, and else with that of so many seconds from now.
  pub reset_invite-revokes :
      (input : ResetInviteInput) (new_code : Text) (now : Time) (x : Text × Option Time)
      (grp : Group)
      → lookup input.group_id r.groups_by_id ≡ some grp
      → text_eq new_code grp.invite_code ≡ false
      → FitsDuration input.valid_seconds
      → (reset_invite net exec input new_code now r).1 ≡ ok x
      → let r' = (reset_invite net exec input new_code now r).0 in
        (lookup grp.invite_code r'.groups_by_invite ≡ none)
        × (lookup new_code r'.groups_by_invite ≡ some grp.id)
        × (grp' : Group) × (lookup grp.id r'.groups_by_id ≡ some grp')
        × (grp'.invite_code ≡ new_code)
        × IsExpiry now input.valid_seconds grp'.invite_expires
  unfolding reset_invite
  reset_invite-revokes input new_code now x grp known differs fits =
      let P = λ (o : Registry S × Result Error (Text × Option Time)).
        o.1 ≡ ok x
        → (lookup grp.invite_code o.0.groups_by_invite ≡ none)
          × (lookup new_code o.0.groups_by_invite ≡ some grp.id)
          × (grp' : Group) × (lookup grp.id o.0.groups_by_id ≡ some grp')
          × (grp'.invite_code ≡ new_code)
          × IsExpiry now input.valid_seconds grp'.invite_expires in
      require_rule P r _ reset_fields _ (λ _ e. cc)
        λ fields.
          found_rule P r (lookup input.group_id r.groups_by_id) unknown_group _ (λ _ e. cc)
            λ grp0 known0.
              require_rule P r _ not_owner_reset _ (λ _ e. cc)
                λ owner.
                  store_rule P _ exec _ _ (λ _ e. cc)
                    λ st.
                      store_rule P _ exec _ _ (λ _ e. cc)
                        λ st' e.
                          let same : grp0 ≡ grp = ground arith in
                          let by = delete grp0.invite_code r.groups_by_invite in
                          let grp' = record grp0 {
                            invite_code = new_code;
                            invite_expires = expiry now input.valid_seconds;
                            version = next_version grp0.version;
                          } in
                          (
                            ground (
                              arith,
                              lookup-insert new_code grp.invite_code grp0.id by,
                              lookup-delete grp0.invite_code grp.invite_code r.groups_by_invite,
                              text_eq_refl grp.invite_code,
                            ),
                            ground (arith, lookup-insert_self {0} new_code grp0.id by),
                            grp',
                            ground (arith, lookup-insert_self {0} grp0.id grp' r.groups_by_id),
                            refl,
                            expiry-IsExpiry now input.valid_seconds fits,
                          )

-- A code that has just been reset, for a number of seconds other than 0 that a `time.Duration` can
-- hold, under a code unlike the old one. A join with its fields given by the old code is refused
-- as invalid, and one by the new code is refused as expired exactly if those seconds are over; a
-- refused call changes nothing, and one in time is not refused for its code.
pub join-refuses :
    (net : Netip) {S : Type 0} (exec : Statement → S → Option S) (r : Registry S)
    (input : ResetInviteInput) (new_code : Text) (now : Time) (x : Text × Option Time) (grp : Group)
    (by_old by_new : JoinInput) (later : Time)
    → lookup input.group_id r.groups_by_id ≡ some grp
    → text_eq new_code grp.invite_code ≡ false
    → FitsDuration input.valid_seconds
    → input.valid_seconds ≢ pos 0
    → (reset_invite net exec input new_code now r).1 ≡ ok x
    → HasFields by_old
    → by_old.invite_code ≡ grp.invite_code
    → HasFields by_new
    → by_new.invite_code ≡ new_code
    → let r' = (reset_invite net exec input new_code now r).0 in
      let deadline = now +ℤ scale (10 ^ 9) input.valid_seconds in
      (join net exec by_old later r' ≡ (r', err invalid_invite))
      × (((deadline <ℤ later) × (join net exec by_new later r' ≡ (r', err invite_expired)))
          ⊎ ((later ≤ℤ deadline)
              × (((join net exec by_new later r').1 ≢ err invite_expired)
                  × ((join net exec by_new later r').1 ≢ err invalid_invite))))
join-refuses net exec r input new_code now x grp by_old by_new later known differs fits timed done
      fields_old old fields_new new =
    let r' = (reset_invite net exec input new_code now r).0 in
    let (gone, leads, grp', known', coded, expires) =
      reset_invite-revokes net exec r input new_code now x grp known differs fits done in
    (
      join-unknown net exec r' by_old later fields_old (rw old gone),
      by_deadline grp'.invite_expires now input.valid_seconds later _ _ expires timed
          (join_by_code net exec r' by_new later grp.id grp' fields_new (rw new leads) known'),
    )
