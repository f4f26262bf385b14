-- ===== src/Ctl/Group/Create.antt =====
-- `Create` keeps the invariant, if the random invite code is not in use.
use lanet.Base.{
  ℕ, Time, ◌+◌, ◌<◌, ◌≡◌, refl, sym, subst, ◌∙◌, inl, inr, true, false, Option, none, some, arith,
  Bool-cases, Option-cases, lookup, insert, lookup-insert, lookup-insert_self, ok, Text, [], ◌∷◌,
  ◌++◌, text_eq, text_eq_iff, text_eq→eq, Result, show_dec, show_dec-injective, codes,
}
use lanet.Netip.{Netip, subnet_text}
use lanet.Ctl.Node
use lanet.Ctl.Node.{mem}
use lanet.Ctl.Node.Run.{new_registry-IsValid, new_registry-mem_token}
use lanet.Ctl.Node.Outcomes.{enroll-Enrolled}
use lanet.Ctl.Group.Types.{
  Group, Registry, Statement, Error, CreateInput, create_fields, already_in_group,
  subnet_pool_exhausted, role_owner,
}
use lanet.Ctl.Group.Monad.{of_node}
use lanet.Ctl.Group.Rules.{require_rule, lift_rule, store_rule, of_node-ok}
use lanet.Ctl.Group.Invariant.{IsValid, GroupIsValid, set_store-IsValid, group_id_text}
use lanet.Ctl.Group.Methods.{create, add_group, new_group, subnet_base, base_prefix}

-- The CIDR that `Create` prints is the dotted text of the next subnet.
pub cidr_text :
    (n : ℕ)
    → subnet_base base_prefix ++ (codes "." ++ (show_dec n ++ codes ".0/24")) ≡ subnet_text n
unfolding subnet_base show_dec
cidr_text n = refl

group_id_text-injective : (a b : ℕ) → group_id_text a ≡ group_id_text b → a ≡ b
group_id_text-injective a b e = show_dec-injective a b (cc)

module _ (net : Netip) {S : Type 0} (exec : Statement → S → Option S) where
  -- No group has the ID of a subnet that is not given out yet.
  pub fresh_id :
      (r : Registry S) → IsValid net r → lookup (group_id_text r.next_subnet) r.groups_by_id ≡ none
  fresh_id r v = elim (Option-cases (lookup (group_id_text r.next_subnet) r.groups_by_id)) [
    | inl e ↦ e
    | inr (grp, e) ↦
        let (n, gv) = v.groups _ grp e in
        let same = group_id_text-injective r.next_subnet n gv.named in
        absurd (omega (arith, gv.given_out))
  ]

  module _ (r : Registry S) (input : CreateInput) (grp : Group) (v : IsValid net r)
      (room : r.next_subnet < 256) (unused : lookup grp.invite_code r.groups_by_invite ≡ none)
      (gv : GroupIsValid net
        (r.next_subnet + 1)
        (insert grp.invite_code grp.id r.groups_by_invite)
        r.next_subnet
        grp.id
        grp)
      (inside : mem input.peer_id grp.registry.nodes ≡ true) where
    other_group :
        (g : Text) (old : Group) → lookup g r.groups_by_id ≡ some old → text_eq grp.id g ≡ false
    other_group g old e = elim (Bool-cases (text_eq grp.id g)) [
      | inr p ↦ p
      | inl p ↦
          let same : group_id_text r.next_subnet ≡ g = sym gv.named ∙ text_eq→eq grp.id g p in
          absurd (ground (arith, fresh_id r v))
    ]

    kept :
        (g : Text) (old : Group)
        → lookup g r.groups_by_id ≡ some old
        → lookup g (insert grp.id grp r.groups_by_id) ≡ some old
    kept g old e = ground (arith, lookup-insert grp.id g grp r.groups_by_id, other_group g old e)

    old_group :
        (g : Text) (old : Group) (n : ℕ)
        → GroupIsValid net r.next_subnet r.groups_by_invite n g old
        → GroupIsValid net
            (r.next_subnet + 1)
            (insert grp.invite_code grp.id r.groups_by_invite)
            n
            g
            old
    old_group g old n k = record {
      given_out = omega (arith, k.given_out);
      named = k.named;
      id_is_key = k.id_is_key;
      cidr_is_subnet = k.cidr_is_subnet;
      nodes_valid = k.nodes_valid;
      token_known = k.token_known;
      invite_leads = ground (
        arith,
        k.invite_leads,
        lookup-insert grp.invite_code old.invite_code grp.id r.groups_by_invite,
        text_eq_iff grp.invite_code old.invite_code,
      );
    }

    add_group-IsValid : IsValid net (add_group net exec input grp r)
    add_group-IsValid = record {
      at_base = v.at_base;
      bounded = omega arith;
      groups = λ g old e. elim (Bool-cases (text_eq grp.id g)) [
        | inl p ↦
            let same : grp ≡ old = ground (arith, lookup-insert grp.id g grp r.groups_by_id) in
            (
              r.next_subnet,
              subst
                  (GroupIsValid net (r.next_subnet + 1)
                    (insert grp.invite_code grp.id r.groups_by_invite) r.next_subnet g)
                  same
                  (subst
                    (λ k.
                      GroupIsValid net (r.next_subnet + 1)
                        (insert grp.invite_code grp.id r.groups_by_invite) r.next_subnet k grp)
                    (text_eq→eq grp.id g p) gv),
            )
        | inr p ↦
            let (n, old_gv) =
              v.groups g old (ground (arith, lookup-insert grp.id g grp r.groups_by_id)) in
            (n, old_group g old n old_gv)
      ];
      invites = λ code g e. elim (Bool-cases (text_eq grp.invite_code code)) [
        | inl p ↦ (
          grp,
          ground (
            arith,
            lookup-insert grp.invite_code code grp.id r.groups_by_invite,
            lookup-insert_self {0} grp.id grp r.groups_by_id,
          ),
          text_eq→eq grp.invite_code code p,
        )
        | inr p ↦
            let (old, known, shown) =
              v.invites code g
                (ground (arith, lookup-insert grp.invite_code code grp.id r.groups_by_invite)) in
            (old, kept g old known, shown)
      ];
      members = λ p g e. elim (Bool-cases (text_eq input.peer_id p)) [
        | inl same ↦
            let at_g : grp.id ≡ g =
              ground (arith, lookup-insert input.peer_id p grp.id r.group_by_peer) in
            let same_p = text_eq→eq input.peer_id p same in
            (
              grp,
              ground (arith, lookup-insert_self {0} grp.id grp r.groups_by_id),
              subst (λ k. mem k grp.registry.nodes ≡ true) same_p inside,
            )
        | inr other ↦
            let (old, known, there) =
              v.members p g
                (ground (arith, lookup-insert input.peer_id p grp.id r.group_by_peer)) in
            (old, kept g old known, there)
      ];
      roles = λ p role e. elim (Bool-cases (text_eq input.peer_id p)) [
        | inl same ↦ (grp.id, ground (arith, lookup-insert input.peer_id p grp.id r.group_by_peer))
        | inr other ↦
            let (g, known) =
              v.roles p role
                (ground (arith, lookup-insert input.peer_id p role_owner r.member_role)) in
            (g, ground (arith, lookup-insert input.peer_id p grp.id r.group_by_peer))
      ];
    }

  -- The last step of `Create`.
  created-IsValid :
      (r : Registry S) (input : CreateInput) (prefix6 invite_code random24 : Text)
      (registry registry' : Node.Registry) (creator : Node.Node) (now : Time) (st : Option S)
      → IsValid net r
      → lookup invite_code r.groups_by_invite ≡ none
      → r.next_subnet < 256
      → let cidr = subnet_base r.base ++ (codes "." ++ (show_dec r.next_subnet ++ codes ".0/24")) in
        let token = codes "grp-" ++ random24 in
        Node.new_registry net cidr prefix6 (token ∷ []) ≡ ok registry
        → Node.enroll net registry
            (record { token = token; peer_id = input.peer_id; name = input.name; os = input.os })
            now
          ≡ ok (registry', creator)
        → IsValid net (
            add_group net exec input
              (new_group net exec input r.next_subnet cidr prefix6 invite_code token registry' now)
              (record r { store = st }))
  created-IsValid r input prefix6 invite_code random24 registry registry' creator now st v unused
        room made entered =
      let n = r.next_subnet in
      let token : Text = codes "grp-" ++ random24 in
      let cidr = subnet_base r.base ++ (codes "." ++ (show_dec n ++ codes ".0/24")) in
      let at : cidr ≡ subnet_text n =
        subst (λ b. subnet_base b ++ (codes "." ++ (show_dec n ++ codes ".0/24")) ≡ subnet_text n)
          (sym v.at_base) (cidr_text n) in
      let made' = subst (λ c. Node.new_registry net c prefix6 (token ∷ []) ≡ ok registry) at made in
      let valid = new_registry-IsValid net n prefix6 (token ∷ []) registry room made' in
      let en = enroll-Enrolled net n registry valid now _ registry' creator entered in
      add_group-IsValid (record r { store = st }) input
        (new_group net exec input n cidr prefix6 invite_code token registry' now)
        (set_store-IsValid net r st v) room unused
        (record {
          given_out = omega arith;
          named = refl;
          id_is_key = refl;
          cidr_is_subnet = at;
          nodes_valid = en.valid;
          token_known =
              subst (λ t. mem token t ≡ true) (sym en.tokens)
                (new_registry-mem_token net n prefix6 token registry room refl made');
          invite_leads = lookup-insert_self invite_code (group_id_text n) r.groups_by_invite;
        })
        en.inside

  -- A registry that keeps the invariant keeps it through `Create`, whatever is asked and whatever
  -- the store answers, provided that the random invite code is not in use.
  pub create-IsValid :
      (input : CreateInput) (random24 invite_code : Text) (now : Time) (r : Registry S)
      → IsValid net r
      → lookup invite_code r.groups_by_invite ≡ none
      → IsValid net (create net exec input random24 invite_code now r).0
  unfolding create
  create-IsValid input random24 invite_code now r v unused =
      let P = λ (o : Registry S × Result Error (Group × Node.Node)). IsValid net o.0 in
      require_rule P r _ create_fields _ (λ _. v)
        λ fields.
          require_rule P r _ already_in_group _ (λ _. v)
            λ free.
              require_rule P r _ subnet_pool_exhausted _ (λ _. v)
                λ room.
                  lift_rule P r _ _ (λ _ _. v)
                    λ prefix6 derived.
                      lift_rule P r (of_node (Node.new_registry net _ prefix6 _)) _ (λ _ _. v)
                        λ registry made.
                          lift_rule P r (of_node (Node.enroll net registry _ now)) _ (λ _ _. v)
                            λ (registry', creator) entered.
                              store_rule P _ exec _ _ (λ _. v)
                                λ st.
                                  store_rule P _ exec _ _ (λ _. set_store-IsValid net r st v)
                                    λ st'.
                                      created-IsValid r input prefix6 invite_code random24 registry
                                        registry' creator now st' v unused (ground arith)
                                        (of_node-ok _ _ made) (of_node-ok _ _ entered)
