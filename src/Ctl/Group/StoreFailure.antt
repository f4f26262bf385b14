-- ===== src/Ctl/Group/StoreFailure.antt =====
-- `Kick` when the store fails behind the node registry's back: the member is gone from the node
-- registry and still in the indexes, and no second kick can finish the work.
use lanet.Base.{
  ◌≡◌, ◌≢◌, true, ◌||◌, not, Option, none, some, arith, lookup, insert, lookup-insert, ok, err,
  is_empty, text_eq, text_eq_iff, Result, pos,
}
use lanet.Netip.{Netip}
use lanet.Ctl.Node
use lanet.Ctl.Node.{mem}
use lanet.Ctl.Node.Calls.{remove_node-unknown}
use lanet.Ctl.Node.Outcomes.{remove_node-Removed}
use lanet.Ctl.Group.Types.{
  Group, Registry, Statement, Error, KickInput, kick_fields, unknown_group, not_owner_kick,
  owner_kicks_self, target_not_member, store_failed, node_error,
}
use lanet.Ctl.Group.Monad.{of_node}
use lanet.Ctl.Group.Rules.{require_rule, found_rule, lift_rule, store_rule, of_node-ok}
use lanet.Ctl.Group.Invariant.{IsValid}
use lanet.Ctl.Group.Methods.{kick, is_owner, text_at}

-- The checks that a kick of `input` makes of the registry, all passed, for a target that the node
-- registry of the group does not know.
pub record IsStuck {S : Type 0} (input : KickInput) (r : Registry S) : Type 0 where
  pub fields :
      not (
        is_empty input.operator_peer_id || is_empty input.group_id || is_empty input.target_peer_id)
      ≡ true
  pub grp : Group
  pub known : lookup input.group_id r.groups_by_id ≡ some grp
  pub owner : is_owner r input.operator_peer_id grp.id ≡ true
  pub other : not (text_eq input.target_peer_id input.operator_peer_id) ≡ true
  pub indexed : text_eq (text_at input.target_peer_id r.group_by_peer) grp.id ≡ true
  pub gone : lookup input.target_peer_id grp.registry.nodes ≡ none

of_node-ne-failed :
    {A : Type 0} (x : Result Node.Error A) (e : Error) → of_node x ≡ err e → e ≢ store_failed
of_node-ne-failed (ok a) e h k = cc
of_node-ne-failed (err e') e h k = ground arith

module _ (net : Netip) {S : Type 0} (exec : Statement → S → Option S) where
  stuck_kick :
      (input : KickInput) (r : Registry S)
      → IsStuck input r
      → (kick net exec input r).1 ≡ err (node_error Node.not_member)
  unfolding kick
  stuck_kick input r s =
      let P = λ (o : Registry S × Result Error Node.Node). o.1 ≡ err (node_error Node.not_member) in
      require_rule P r _ kick_fields _ (λ e. absurd (ground (arith, s.fields)))
        λ fields.
          found_rule P r (lookup input.group_id r.groups_by_id) unknown_group _
            (λ e. absurd (ground (arith, s.known)))
            λ grp known.
              let same : s.grp ≡ grp = ground (arith, s.known) in
              require_rule P r _ not_owner_kick _ (λ e. absurd (ground (arith, s.owner)))
                λ owner.
                  require_rule P r _ owner_kicks_self _ (λ e. absurd (ground (arith, s.other)))
                    λ other.
                      require_rule P r _ target_not_member _
                        (λ e. absurd (ground (arith, s.indexed)))
                        λ inside.
                          lift_rule P r
                            (of_node (Node.remove_node net grp.registry input.target_peer_id)) _
                            (λ e failed. ground (
                              arith,
                              remove_node-unknown net grp.registry input.target_peer_id,
                              s.gone,
                            ))
                            λ (registry', gone) left. absurd (
                              ground (
                                arith,
                                remove_node-unknown net grp.registry input.target_peer_id,
                                s.gone,
                              ))

  kick-IsStuck :
      (input : KickInput) (r : Registry S)
      → IsValid net r
      → (kick net exec input r).1 ≡ err store_failed
      → IsStuck input (kick net exec input r).0
  unfolding kick
  kick-IsStuck input r v =
      let P =
        λ (o : Registry S × Result Error Node.Node). o.1 ≡ err store_failed → IsStuck input o.0 in
      require_rule P r _ kick_fields _ (λ _ e. cc)
        λ fields.
          found_rule P r (lookup input.group_id r.groups_by_id) unknown_group _ (λ _ e. cc)
            λ grp known.
              require_rule P r _ not_owner_kick _ (λ _ e. cc)
                λ owner.
                  require_rule P r _ owner_kicks_self _ (λ _ e. cc)
                    λ other.
                      require_rule P r _ target_not_member _ (λ _ e. cc)
                        λ inside.
                          lift_rule P r
                            (of_node (Node.remove_node net grp.registry input.target_peer_id)) _
                            (λ f failed e. absurd (of_node-ne-failed _ f failed (cc)))
                            λ (registry', gone) left.
                              let (n, gv) = v.groups input.group_id grp known in
                              let out =
                                remove_node-Removed net n grp.registry gv.nodes_valid (pos 0)
                                  input.target_peer_id registry' gone (of_node-ok _ _ left) in
                              let stuck : (st : Option S)
                                  → IsStuck input (record r {
                                    groups_by_id =
                                        insert grp.id (record grp { registry = registry' })
                                          r.groups_by_id;
                                    store = st;
                                  }) =
                                λ st. record {
                                  fields = fields;
                                  grp = record grp { registry = registry' };
                                  known = ground (
                                    arith,
                                    gv.id_is_key,
                                    lookup-insert grp.id input.group_id
                                        (record grp { registry = registry' }) r.groups_by_id,
                                    text_eq_iff grp.id input.group_id,
                                  );
                                  owner = owner;
                                  other = other;
                                  indexed = inside;
                                  gone = ground (arith, out.gone);
                                } in
                              store_rule P _ exec _ _ (λ _ e. stuck r.store)
                                λ st. store_rule P _ exec _ _ (λ _ e. stuck st) λ st' e. cc

-- A kick that fails because the store fails cannot be repeated: the same kick in the state that it
-- leaves fails, on any store, since the group no longer knows the target.
pub kick-store_failed :
    (net : Netip) {S : Type 0} (exec exec' : Statement → S → Option S) (input : KickInput)
    (r : Registry S)
    → IsValid net r
    → (kick net exec input r).1 ≡ err store_failed
    → (kick net exec' input (kick net exec input r).0).1 ≡ err (node_error Node.not_member)
kick-store_failed net exec exec' input r v e =
    stuck_kick net exec' input (kick net exec input r).0 (kick-IsStuck net exec input r v e)
