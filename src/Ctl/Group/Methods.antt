-- ===== src/Ctl/Group/Methods.antt =====
-- The methods of registry.go. Random strings are arguments, and so is the time.
use lanet.Base.{
  ℕ, zero, ◌+◌, ◌^◌, ◌%◌, Bool, true, false, ◌&&◌, ◌||◌, not, List, [], ◌∷◌, ◌++◌, Option, none,
  some, map, ltb, ◌==◌, if◌then◌else◌, get_or, filter, Text, Time, scale, wrap_int64, ◌+ℤ◌, ltb_ℤ,
  codes, is_empty, show_dec, text_eq, Dict, lookup, insert, delete, Result, ok, err, pos,
}
use lanet.Netip.{v4, Prefix, bytes, is4, Netip}
use lanet.Protocol.{group_ipv6_prefix}
use lanet.Ctl.Node
use lanet.Ctl.Node.{mem, values}
use lanet.Ctl.Group.Monad.{
  M, ◌>>=◌, ◌>>◌, pure, require, gets, modify, found, lift, of_node, run_statement,
}
use lanet.Ctl.Group.Types.{
  role_owner, role_member, CreateInput, JoinInput, AnnounceInput, ResetInviteInput, KickInput,
  Group, MemberView, NetMap, GroupRow, MemberRow, Statement, insert_group, insert_member,
  bump_group_version, update_invite, delete_member, replace_announced_addrs, Error, create_fields,
  already_in_group, subnet_pool_exhausted, join_fields, invalid_invite, invite_expired,
  in_another_group, reset_fields, unknown_group, not_owner_reset, kick_fields, not_owner_kick,
  owner_kicks_self, target_not_member, announce_fields, unknown_peer, no_valid_addresses,
  peer_required, not_joined, bad_group_cidr, group_cidr_not_24, node_error, Registry,
}

-- `baseCIDR`, as `newRegistry` parses it: 10.7.0.0/16.
abbrev pub base_prefix : Prefix
base_prefix = record { addr = v4 (10 ∷ 7 ∷ 0 ∷ 0 ∷ []); bits = 16 }

-- `newRegistry`.
unfoldable pub new_registry : {S : Type 0} → Option S → Registry S
new_registry st = record {
  base = base_prefix;
  next_subnet = 0;
  groups_by_id = [];
  groups_by_invite = [];
  group_by_peer = [];
  announced_addrs = [];
  member_role = [];
  store = st;
}

-- `subnetBase`.
unfoldable pub subnet_base : Prefix → Text
subnet_base base =
    show_dec (get_or (bytes base.addr) 0 0)
    ++ (codes "." ++ show_dec (get_or (bytes base.addr) 1 0))

-- `uint64` addition of one.
abbrev pub next_version : ℕ → ℕ
next_version v = (v + 1) % 2 ^ 64

-- `m[k]` of a map of strings: the empty string if the key is missing.
abbrev pub text_at : Text → Dict Text → Text
text_at k m = elim (lookup k m) [ none ↦ [] | some t ↦ t ]

abbrev pub is_owner : {S : Type 0} → Registry S → Text → Text → Bool
is_owner r operator group_id =
    text_eq (text_at operator r.member_role) role_owner
    && text_eq (text_at operator r.group_by_peer) group_id

-- `insertMember` fills in the role.
abbrev pub insert_member_row : Text → MemberRow → Statement
insert_member_row group_id row =
    insert_member group_id
      (record row { role = if is_empty row.role then role_member else row.role })

abbrev pub row_of : Node.Node → Text → MemberRow
row_of n role = record {
  peer_id = n.peer_id;
  name = n.name;
  os = n.os;
  virtual_ip = n.virtual_ip;
  virtual_ipv6 = n.virtual_ipv6;
  role = role;
}

-- The time after which an invite code is refused: none for a code that stays valid. The product
-- `time.Duration(input.ValidSeconds) * time.Second` is one of `int64` and wraps.
abbrev pub expiry : Time → Time → Option Time
expiry now (pos zero) = none
expiry now valid_seconds = some (now +ℤ wrap_int64 (scale (10 ^ 9) valid_seconds))

-- `grp.InviteExpires != nil && time.Now().After(*grp.InviteExpires)`.
abbrev pub has_expired : Option Time → Time → Bool
has_expired none now = false
has_expired (some t) now = ltb_ℤ t now

-- `len(addrs) == 0`.
abbrev pub no_addrs : List Text → Bool
no_addrs [] = true
no_addrs (a ∷ l) = false

module _ (net : Netip) where
  -- `ipv6PrefixForCIDR`.
  unfoldable pub ipv6_prefix_for_cidr : Text → Result Error Text
  ipv6_prefix_for_cidr cidr = elim (net.parse_prefix cidr) [
    | none ↦ err bad_group_cidr
    | some prefix ↦
        if not (is4 prefix.addr) || not (prefix.bits == 24)
        then err group_cidr_not_24
        else elim (group_ipv6_prefix (get_or (bytes prefix.addr) 2 0)) [
          | ok prefix6 ↦ ok (net.print_prefix prefix6)
          | err e ↦ err (node_error (Node.range e))
        ]
  ]

  -- A member as `NetMapFor` shows it.
  unfoldable pub member_view : {S : Type 0} → Registry S → Node.Node → MemberView
  member_view r item =
      let role = text_at item.peer_id r.member_role in
      record {
        peer_id = item.peer_id;
        name = item.name;
        os = item.os;
        virtual_ip = item.virtual_ip;
        virtual_ipv6 = item.virtual_ipv6;
        role = if is_empty role then role_member else role;
        addrs = elim (lookup item.peer_id r.announced_addrs) [ none ↦ [] | some l ↦ l ];
      }

module _ (net : Netip) {S : Type 0} (exec : Statement → S → Option S) where
  -- The two rows that `Create` writes.
  abbrev pub group_row : Group → ℕ → GroupRow
  group_row grp n = record {
    id = grp.id;
    name = grp.name;
    creator_peer_id = grp.creator_peer_id;
    invite_code = grp.invite_code;
    invite_expires = none;
    cidr = grp.cidr;
    subnet_index = n;
    version = grp.version;
  }

  -- What `Create` enters when all has gone well.
  abbrev pub add_group : CreateInput → Group → Registry S → Registry S
  add_group input grp r = record r {
    next_subnet = r.next_subnet + 1;
    groups_by_id = insert grp.id grp r.groups_by_id;
    groups_by_invite = insert grp.invite_code grp.id r.groups_by_invite;
    group_by_peer = insert input.peer_id grp.id r.group_by_peer;
    member_role = insert input.peer_id role_owner r.member_role;
  }

  abbrev pub new_group : CreateInput → ℕ → Text → Text → Text → Text → Node.Registry → Time → Group
  new_group input n cidr prefix6 invite_code token registry now = record {
    id = codes "g" ++ show_dec n;
    name = input.group_name;
    creator_peer_id = input.peer_id;
    invite_code = invite_code;
    invite_expires = none;
    cidr = cidr;
    cidr_v6 = prefix6;
    created_at = now;
    version = 1;
    registry = registry;
    enroll_token = token;
  }

  -- `Create`.
  unfoldable pub create : CreateInput → Text → Text → Time → M S (Group × Node.Node)
  create input random24 invite_code now = do
    require (not (is_empty input.peer_id || is_empty input.name || is_empty input.group_name))
        create_fields
    r ← gets (λ r. r)
    require (not (mem input.peer_id r.group_by_peer)) already_in_group
    require (not (ltb 255 r.next_subnet)) subnet_pool_exhausted
    let cidr = subnet_base r.base ++ (codes "." ++ (show_dec r.next_subnet ++ codes ".0/24"))
    prefix6 ← lift (ipv6_prefix_for_cidr net cidr)
    let token = codes "grp-" ++ random24
    registry ← lift (of_node (Node.new_registry net cidr prefix6 (token ∷ [])))
    (registry', creator) ← lift (
        of_node (
          Node.enroll net registry
            (record { token = token; peer_id = input.peer_id; name = input.name; os = input.os })
            now))
    let grp = new_group input r.next_subnet cidr prefix6 invite_code token registry' now
    run_statement exec (insert_group (group_row grp r.next_subnet))
    run_statement exec (insert_member_row grp.id (row_of creator role_owner))
    modify (add_group input grp)
    pure (grp, creator)

  -- A group with new fields, seen through both maps.
  abbrev pub set_group : Group → Registry S → Registry S
  set_group grp r = record r { groups_by_id = insert grp.id grp r.groups_by_id }

  -- `Join`. The node registry is changed before the store is asked.
  unfoldable pub join : JoinInput → Time → M S (Group × Node.Node)
  join input now = do
    require (not (is_empty input.invite_code || is_empty input.peer_id || is_empty input.name))
        join_fields
    r ← gets (λ r. r)
    group_id ← found (lookup input.invite_code r.groups_by_invite) invalid_invite
    grp ← found (lookup group_id r.groups_by_id) invalid_invite
    require (not (has_expired grp.invite_expires now)) invite_expired
    require
        (not (mem input.peer_id r.group_by_peer)
          || text_eq (text_at input.peer_id r.group_by_peer) grp.id)
        in_another_group
    (registry', member) ← lift (
        of_node (
          Node.enroll net grp.registry
            (record {
              token = grp.enroll_token;
              peer_id = input.peer_id;
              name = input.name;
              os = input.os;
            })
            now))
    let grp' = record grp { registry = registry' }
    modify (set_group grp')
    run_statement exec (insert_member_row grp.id (row_of member role_member))
    run_statement exec (bump_group_version grp.id)
    let joined = record grp' { version = next_version grp.version }
    modify (λ r. record (set_group joined r) {
      group_by_peer = insert input.peer_id grp.id r.group_by_peer;
      member_role = insert input.peer_id role_member r.member_role;
    })
    pure (joined, member)

  -- `ResetInvite`.
  unfoldable pub reset_invite : ResetInviteInput → Text → Time → M S (Text × Option Time)
  reset_invite input new_code now = do
    require (not (is_empty input.operator_peer_id || is_empty input.group_id)) reset_fields
    r ← gets (λ r. r)
    grp ← found (lookup input.group_id r.groups_by_id) unknown_group
    require (is_owner r input.operator_peer_id grp.id) not_owner_reset
    let expires = expiry now input.valid_seconds
    run_statement exec (update_invite grp.id new_code expires)
    run_statement exec (bump_group_version grp.id)
    let grp' = record grp {
      invite_code = new_code;
      invite_expires = expires;
      version = next_version grp.version;
    }
    modify (λ r. record (set_group grp' r) {
      groups_by_invite = insert new_code grp.id (delete grp.invite_code r.groups_by_invite);
    })
    pure (new_code, expires)

  -- `Kick`. The node registry is changed before the store is asked.
  unfoldable pub kick : KickInput → M S Node.Node
  kick input = do
    require
        (not (
          is_empty input.operator_peer_id
          || is_empty input.group_id
          || is_empty input.target_peer_id))
        kick_fields
    r ← gets (λ r. r)
    grp ← found (lookup input.group_id r.groups_by_id) unknown_group
    require (is_owner r input.operator_peer_id grp.id) not_owner_kick
    require (not (text_eq input.target_peer_id input.operator_peer_id)) owner_kicks_self
    require (text_eq (text_at input.target_peer_id r.group_by_peer) grp.id) target_not_member
    (registry', removed) ← lift (of_node (Node.remove_node net grp.registry input.target_peer_id))
    let grp' = record grp { registry = registry' }
    modify (set_group grp')
    run_statement exec (delete_member grp.id input.target_peer_id)
    run_statement exec (bump_group_version grp.id)
    modify (λ r. record (set_group (record grp' { version = next_version grp.version }) r) {
      group_by_peer = delete input.target_peer_id r.group_by_peer;
      member_role = delete input.target_peer_id r.member_role;
      announced_addrs = delete input.target_peer_id r.announced_addrs;
    })
    pure removed

  -- `Announce`.
  unfoldable pub announce : AnnounceInput → M S (Unit {0})
  announce input = do
    require (not (is_empty input.peer_id || no_addrs input.addrs)) announce_fields
    r ← gets (λ r. r)
    require (mem input.peer_id r.group_by_peer) unknown_peer
    let addrs = filter (λ a. not (is_empty a)) input.addrs
    require (not (no_addrs addrs)) no_valid_addresses
    run_statement exec (replace_announced_addrs input.peer_id addrs)
    modify (λ r. record r { announced_addrs = insert input.peer_id addrs r.announced_addrs })

  -- `NetMapFor`.
  unfoldable pub net_map_for : Text → M S NetMap
  net_map_for peer_id = do
    require (not (is_empty peer_id)) peer_required
    r ← gets (λ r. r)
    group_id ← found (lookup peer_id r.group_by_peer) not_joined
    grp ← found (lookup group_id r.groups_by_id) not_joined
    pure (record {
      group_id = grp.id;
      group_name = grp.name;
      cidr = grp.cidr;
      cidr_v6 = grp.cidr_v6;
      version = grp.version;
      members = map (member_view net r) (Node.list_nodes grp.registry);
    })

  -- `ListGroups`.
  unfoldable pub list_groups : Registry S → List Group
  list_groups r = values r.groups_by_id

  -- `GroupOf`.
  unfoldable pub group_of : Registry S → Text → Option Group
  group_of r peer_id = elim (lookup peer_id r.group_by_peer) [
    | none ↦ none
    | some group_id ↦ lookup group_id r.groups_by_id
  ]
