-- ===== src/Ctl/Group/Subnets.antt =====
-- The subnets of the groups: every method of the registry, however it ends, leaves each group alone
-- in a subnet of its own.
use lanet.Base.{
  ℕ, Time, ◌+◌, ◌<◌, ◌≡◌, refl, sym, subst, inl, inr, Option, some, arith, Bool-cases, lookup,
  insert, lookup-insert, Text, [], ◌∷◌, ◌++◌, text_eq, text_eq→eq, Dict, Result, show_dec, codes,
  pos, ok,
}
use lanet.Netip.{Netip, Prefix, subnet_text}
use lanet.Ctl.Node
use lanet.Ctl.Node.Run.{new_registry-IsValid}
use lanet.Ctl.Node.Invariant.{IsValid as NodesIsValid}
use lanet.Ctl.Node.Outcomes.{enroll-Enrolled, remove_node-Removed}
use lanet.Ctl.Group.Types.{
  Group, Registry, Statement, Error, CreateInput, JoinInput, AnnounceInput, ResetInviteInput,
  KickInput, create_fields, already_in_group, subnet_pool_exhausted, join_fields, invalid_invite,
  invite_expired, in_another_group, reset_fields, unknown_group, not_owner_reset, kick_fields,
  not_owner_kick, owner_kicks_self, target_not_member, announce_fields, unknown_peer,
  no_valid_addresses,
}
use lanet.Ctl.Group.Monad.{of_node}
use lanet.Ctl.Group.Rules.{require_rule, found_rule, lift_rule, store_rule, of_node-ok}
use lanet.Ctl.Group.Invariant.{group_id_text}
use lanet.Ctl.Group.Create.{cidr_text}
use lanet.Ctl.Group.Methods.{
  create, join, reset_invite, kick, announce, new_group, subnet_base, base_prefix,
}

module _ (net : Netip) where
  -- The group under the key `g` has the subnet `n`, of those below `next`, and its members'
  -- addresses are of that subnet, each of one member.
  pub record Owns (next n : ℕ) (g : Text) (grp : Group) : Type 0 where
    pub given_out : n < next
    pub named : g ≡ group_id_text n
    pub id_is_key : grp.id ≡ g
    pub nodes_valid : NodesIsValid net n grp.registry

  pub record Allotted (base : Prefix) (next : ℕ) (by_id : Dict Group) : Type 0 where
    pub at_base : base ≡ base_prefix
    pub owned : (g : Text) (grp : Group) → lookup g by_id ≡ some grp → (n : ℕ) × Owns next n g grp

  -- A group entered under its ID.
  Allotted-insert :
      (base : Prefix) (next n : ℕ) (by_id : Dict Group) (grp : Group)
      → Allotted base next by_id
      → Owns next n grp.id grp
      → Allotted base next (insert grp.id grp by_id)
  Allotted-insert base next n by_id grp a o = record {
    at_base = a.at_base;
    owned = λ g old e. elim (Bool-cases (text_eq grp.id g)) [
      | inl p ↦
          let same : grp ≡ old = ground (arith, lookup-insert grp.id g grp by_id) in
          (n, subst (Owns next n g) same (subst (λ k. Owns next n k grp) (text_eq→eq grp.id g p) o))
      | inr p ↦ a.owned g old (ground (arith, lookup-insert grp.id g grp by_id))
    ];
  }

  -- A known group keeps its subnet through a change of its members and of its invite code.
  known-Owns :
      (next n : ℕ) (g code : Text) (expires : Option Time) (version : ℕ) (grp : Group)
      (registry' : Node.Registry)
      → Owns next n g grp
      → NodesIsValid net n registry'
      → Owns next n grp.id (record grp {
        registry = registry';
        invite_code = code;
        invite_expires = expires;
        version = version;
      })
  known-Owns next n g code expires version grp registry' o valid = record {
    given_out = o.given_out;
    named = subst (λ k. k ≡ group_id_text n) (sym o.id_is_key) o.named;
    id_is_key = refl;
    nodes_valid = valid;
  }

  -- One more subnet is given out.
  Allotted-suc :
      (base : Prefix) (next : ℕ) (by_id : Dict Group)
      → Allotted base next by_id
      → Allotted base (next + 1) by_id
  Allotted-suc base next by_id a = record {
    at_base = a.at_base;
    owned = λ g grp e.
        let (n, o) = a.owned g grp e in
        (
          n,
          record {
            given_out = omega (arith, o.given_out);
            named = o.named;
            id_is_key = o.id_is_key;
            nodes_valid = o.nodes_valid;
          },
        );
  }

  abbrev pub IsAllotted : {S : Type 0} → Registry S → Type 0
  IsAllotted r = Allotted r.base r.next_subnet r.groups_by_id

module _ (net : Netip) {S : Type 0} (exec : Statement → S → Option S) (r : Registry S)
    (a : IsAllotted net r) where
  -- The group that `Create` enters has the next subnet.
  created-Owns :
      (input : CreateInput) (prefix6 invite_code random24 : Text)
      (registry registry' : Node.Registry) (creator : Node.Node) (now : Time)
      → r.next_subnet < 256
      → let cidr = subnet_base r.base ++ (codes "." ++ (show_dec r.next_subnet ++ codes ".0/24")) in
        let token = codes "grp-" ++ random24 in
        Node.new_registry net cidr prefix6 (token ∷ []) ≡ ok registry
        → Node.enroll net registry
            (record { token = token; peer_id = input.peer_id; name = input.name; os = input.os })
            now
          ≡ ok (registry', creator)
        → let grp =
            new_group net exec input r.next_subnet cidr prefix6 invite_code token registry' now in
          Owns net (r.next_subnet + 1) r.next_subnet grp.id grp
  created-Owns input prefix6 invite_code random24 registry registry' creator now room made entered =
      let n = r.next_subnet in
      let token : Text = codes "grp-" ++ random24 in
      let cidr = subnet_base r.base ++ (codes "." ++ (show_dec n ++ codes ".0/24")) in
      let at : cidr ≡ subnet_text n =
        subst (λ b. subnet_base b ++ (codes "." ++ (show_dec n ++ codes ".0/24")) ≡ subnet_text n)
          (sym a.at_base) (cidr_text n) in
      let made' = subst (λ c. Node.new_registry net c prefix6 (token ∷ []) ≡ ok registry) at made in
      let valid = new_registry-IsValid net n prefix6 (token ∷ []) registry room made' in
      let en = enroll-Enrolled net n registry valid now _ registry' creator entered in
      record { given_out = omega arith; named = refl; id_is_key = refl; nodes_valid = en.valid }

  -- Whatever it is asked, whatever random strings it draws and whatever the store answers.
  pub create-IsAllotted :
      (input : CreateInput) (random24 invite_code : Text) (now : Time)
      → IsAllotted net (create net exec input random24 invite_code now r).0
  unfolding create
  create-IsAllotted input random24 invite_code now =
      let P = λ (o : Registry S × Result Error (Group × Node.Node)). IsAllotted net o.0 in
      require_rule P r _ create_fields _ (λ _. a)
        λ fields.
          require_rule P r _ already_in_group _ (λ _. a)
            λ free.
              require_rule P r _ subnet_pool_exhausted _ (λ _. a)
                λ room.
                  lift_rule P r _ _ (λ _ _. a)
                    λ prefix6 derived.
                      lift_rule P r (of_node (Node.new_registry net _ prefix6 _)) _ (λ _ _. a)
                        λ registry made.
                          lift_rule P r (of_node (Node.enroll net registry _ now)) _ (λ _ _. a)
                            λ (registry', creator) entered.
                              store_rule P _ exec _ _ (λ _. a)
                                λ st.
                                  store_rule P _ exec _ _ (λ _. a)
                                    λ st'.
                                      Allotted-insert net _ _ r.next_subnet r.groups_by_id _
                                        (Allotted-suc net _ _ _ a)
                                        (created-Owns input prefix6 invite_code random24 registry
                                          registry' creator now (ground arith) (of_node-ok _ _ made)
                                          (of_node-ok _ _ entered))

  pub join-IsAllotted :
      (input : JoinInput) (now : Time) → IsAllotted net (join net exec input now r).0
  unfolding join
  join-IsAllotted input now =
      let P = λ (o : Registry S × Result Error (Group × Node.Node)). IsAllotted net o.0 in
      require_rule P r _ join_fields _ (λ _. a)
        λ fields.
          found_rule P r (lookup input.invite_code r.groups_by_invite) invalid_invite _ (λ _. a)
            λ g at_code.
              found_rule P r (lookup g r.groups_by_id) invalid_invite _ (λ _. a)
                λ grp known.
                  require_rule P r _ invite_expired _ (λ _. a)
                    λ alive.
                      require_rule P r _ in_another_group _ (λ _. a)
                        λ free.
                          lift_rule P r (of_node (Node.enroll net grp.registry _ now)) _ (λ _ _. a)
                            λ (registry', member) entered.
                              let (n, o) = a.owned g grp known in
                              let en =
                                enroll-Enrolled net n grp.registry o.nodes_valid now _ registry'
                                  member (of_node-ok _ _ entered) in
                              let a1 = Allotted-insert net _ _ n r.groups_by_id _ a (
                                known-Owns net _ n g grp.invite_code grp.invite_expires grp.version
                                  grp registry' o en.valid) in
                              store_rule P _ exec _ _ (λ _. a1)
                                λ st.
                                  store_rule P _ exec _ _ (λ _. a1)
                                    λ st'. Allotted-insert net _ _ n _ _ a1 (
                                      known-Owns net _ n g grp.invite_code grp.invite_expires _ grp
                                        registry' o en.valid)

  pub reset_invite-IsAllotted :
      (input : ResetInviteInput) (new_code : Text) (now : Time)
      → IsAllotted net (reset_invite net exec input new_code now r).0
  unfolding reset_invite
  reset_invite-IsAllotted input new_code now =
      let P = λ (o : Registry S × Result Error (Text × Option Time)). IsAllotted net o.0 in
      require_rule P r _ reset_fields _ (λ _. a)
        λ fields.
          found_rule P r (lookup input.group_id r.groups_by_id) unknown_group _ (λ _. a)
            λ grp known.
              require_rule P r _ not_owner_reset _ (λ _. a)
                λ owner.
                  store_rule P _ exec _ _ (λ _. a)
                    λ st.
                      store_rule P _ exec _ _ (λ _. a)
                        λ st'.
                          let (n, o) = a.owned input.group_id grp known in
                          Allotted-insert net _ _ n r.groups_by_id _ a (
                            known-Owns net _ n input.group_id new_code _ _ grp grp.registry o
                              o.nodes_valid)

  pub kick-IsAllotted : (input : KickInput) → IsAllotted net (kick net exec input r).0
  unfolding kick
  kick-IsAllotted input =
      let P = λ (o : Registry S × Result Error Node.Node). IsAllotted net o.0 in
      require_rule P r _ kick_fields _ (λ _. a)
        λ fields.
          found_rule P r (lookup input.group_id r.groups_by_id) unknown_group _ (λ _. a)
            λ grp known.
              require_rule P r _ not_owner_kick _ (λ _. a)
                λ owner.
                  require_rule P r _ owner_kicks_self _ (λ _. a)
                    λ other.
                      require_rule P r _ target_not_member _ (λ _. a)
                        λ inside.
                          lift_rule P r
                            (of_node (Node.remove_node net grp.registry input.target_peer_id)) _
                            (λ _ _. a)
                            λ (registry', gone) left.
                              let (n, o) = a.owned input.group_id grp known in
                              let out =
                                remove_node-Removed net n grp.registry o.nodes_valid (pos 0)
                                  input.target_peer_id registry' gone (of_node-ok _ _ left) in
                              let a1 = Allotted-insert net _ _ n r.groups_by_id _ a (
                                known-Owns net _ n input.group_id grp.invite_code grp.invite_expires
                                  grp.version grp registry' o out.valid) in
                              store_rule P _ exec _ _ (λ _. a1)
                                λ st.
                                  store_rule P _ exec _ _ (λ _. a1)
                                    λ st'. Allotted-insert net _ _ n _ _ a1 (
                                      known-Owns net _ n input.group_id grp.invite_code
                                        grp.invite_expires _ grp registry' o out.valid)

  pub announce-IsAllotted : (input : AnnounceInput) → IsAllotted net (announce net exec input r).0
  unfolding announce
  announce-IsAllotted input =
      let P = λ (o : Registry S × Result Error (Unit {0})). IsAllotted net o.0 in
      require_rule P r _ announce_fields _ (λ _. a)
        λ fields.
          require_rule P r _ unknown_peer _ (λ _. a)
            λ known.
              require_rule P r _ no_valid_addresses _ (λ _. a)
                λ some_left. store_rule P _ exec _ _ (λ _. a) λ st. a
