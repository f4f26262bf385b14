-- ===== src/Ctl/Group/Restore.antt =====
-- `restore` and `rebuildGroup` of registry.go: the registry after a restart, from the rows of the
-- database. What the loading statements return is an argument, and so are the random tokens.
pub mod Members
use lanet.Base.{
  ℕ, ◌+◌, Time, Bool, true, false, ◌&&◌, ◌||◌, not, List, [], ◌∷◌, Option, none, some, ltb,
  if◌then◌else◌, any, Text, is_empty, text_eq, codes, ◌++◌, Dict, insert, Result,
}
use lanet.Netip.{Netip}
use lanet.Ctl.Node
use lanet.Ctl.Group.Types.{
  Group, Registry, GroupRow, MemberRow, Statement, backfill_member_ipv6, role_owner, role_member,
  store_failed,
}
use lanet.Ctl.Group.Monad.{M, ◌>>=◌, ◌>>◌, pure, gets, modify, found, lift, of_node, run_statement}
use lanet.Ctl.Group.Methods.{ipv6_prefix_for_cidr}

-- The rows of the database; a load that fails gives none.
pub record Stored : Type 0 where
  pub groups : Option (List GroupRow)
  pub members : Text → Option (List MemberRow)
  pub announced : Option (Dict (List Text))

-- The role of a row, which old rows leave empty.
unfoldable pub role_of : Text → MemberRow → Text
role_of creator row =
    if is_empty row.role
    then if text_eq row.peer_id creator then role_owner else role_member
    else row.role

abbrev pub restored_node : MemberRow → Time → Node.Node
restored_node row now = record {
  peer_id = row.peer_id;
  name = row.name;
  os = row.os;
  virtual_ip = row.virtual_ip;
  virtual_ipv6 = row.virtual_ipv6;
  enrolled_at = now;
}

-- `missingIPv6[p]`.
unfoldable pub lacks_ipv6 : List MemberRow → Text → Bool
lacks_ipv6 rows p = any (λ row. text_eq row.peer_id p && is_empty row.virtual_ipv6) rows

module _ (net : Netip) {S : Type 0} (exec : Statement → S → Option S) where
  -- The loop over the member rows.
  unfoldable pub restore_members : Group → Time → Node.Registry → List MemberRow → M S Node.Registry
  restore_members grp now registry [] = pure registry
  restore_members grp now registry (row ∷ rows) = do
    registry' ← lift (of_node (Node.restore_node net registry (restored_node row now) now))
    modify (λ r. record r {
      group_by_peer = insert row.peer_id grp.id r.group_by_peer;
      member_role = insert row.peer_id (role_of grp.creator_peer_id row) r.member_role;
    })
    restore_members grp now registry' rows

  -- The loop that writes the completed addresses back.
  unfoldable pub backfill : Text → List MemberRow → List Node.Node → M S (Unit {0})
  backfill group_id rows [] = pure tt
  backfill group_id rows (item ∷ items) =
      let rest = backfill group_id rows items in
      if not (lacks_ipv6 rows item.peer_id) || is_empty item.virtual_ipv6
      then rest
      else (run_statement exec (backfill_member_ipv6 group_id item.peer_id item.virtual_ipv6)
          >> rest)

  -- `rebuildGroup`.
  unfoldable pub rebuild_group : Group → List MemberRow → Text → Time → M S (Unit {0})
  rebuild_group grp rows random24 now = do
    let token = codes "grp-" ++ random24
    prefix6 ← lift (ipv6_prefix_for_cidr net grp.cidr)
    registry ← lift (of_node (Node.new_registry net grp.cidr prefix6 (token ∷ [])))
    registry' ← restore_members grp now registry rows
    backfill grp.id rows (Node.list_nodes registry')
    let rebuilt = record grp { cidr_v6 = prefix6; registry = registry'; enroll_token = token }
    modify (λ r. record r {
      groups_by_id = insert grp.id rebuilt r.groups_by_id;
      groups_by_invite = insert grp.invite_code grp.id r.groups_by_invite;
    })

  -- The group of a row, before it is rebuilt.
  abbrev pub group_of_row : GroupRow → Node.Registry → Time → Group
  group_of_row row registry now = record {
    id = row.id;
    name = row.name;
    creator_peer_id = row.creator_peer_id;
    invite_code = row.invite_code;
    invite_expires = row.invite_expires;
    cidr = row.cidr;
    cidr_v6 = [];
    created_at = now;
    version = row.version;
    registry = registry;
    enroll_token = [];
  }

  -- The loop of `restore` over the group rows. A group without a registry yet has an empty one,
  -- which rebuilding replaces.
  unfoldable pub restore_groups :
      Stored → (Text → Text) → Node.Registry → Time → List GroupRow → M S (Unit {0})
  restore_groups stored random24 unset now [] = pure tt
  restore_groups stored random24 unset now (row ∷ rows) = do
    members ← found (stored.members row.id) store_failed
    rebuild_group (group_of_row row unset now) members (random24 row.id) now
    modify (λ r. record r {
      next_subnet =
          if ltb r.next_subnet (row.subnet_index + 1) then row.subnet_index + 1 else r.next_subnet;
    })
    restore_groups stored random24 unset now rows

  abbrev pub insert_all : Dict (List Text) → Dict (List Text) → Dict (List Text)
  insert_all [] addrs = addrs
  insert_all ((p, list) ∷ rest) addrs = insert_all rest (insert p list addrs)

  -- `restore`; without a store there is nothing to do.
  unfoldable pub restore : Stored → (Text → Text) → Node.Registry → Time → M S (Unit {0})
  restore stored random24 unset now = do
    r ← gets (λ r. r)
    elim r.store [
      | none ↦ pure tt
      | some s ↦ do
        rows ← found stored.groups store_failed
        restore_groups stored random24 unset now rows
        addrs ← found stored.announced store_failed
        modify (λ r. record r { announced_addrs = insert_all addrs r.announced_addrs })
    ]
