-- ===== src/Ctl/Group/Types.antt =====
-- The data of registry.go and store.go. A `*Group` that both maps share is the group's ID, under
-- which `groups_by_id` keeps its fields: a change through one map is seen through the other.
use lanet.Base.{ℕ, Text, Time, codes, List, Option, Dict}
use lanet.Netip.{Prefix}
use lanet.Ctl.Node

abbrev pub role_owner : Text
role_owner = codes "owner"

abbrev pub role_member : Text
role_member = codes "member"

pub record CreateInput : Type 0 where
  pub peer_id : Text
  pub name : Text
  pub os : Text
  pub group_name : Text

pub record JoinInput : Type 0 where
  pub invite_code : Text
  pub peer_id : Text
  pub name : Text
  pub os : Text

pub record AnnounceInput : Type 0 where
  pub peer_id : Text
  pub addrs : List Text

pub record ResetInviteInput : Type 0 where
  pub operator_peer_id : Text
  pub group_id : Text
  pub valid_seconds : Time

pub record KickInput : Type 0 where
  pub operator_peer_id : Text
  pub group_id : Text
  pub target_peer_id : Text

pub record Group : Type 0 where
  pub id : Text
  pub name : Text
  pub creator_peer_id : Text
  pub invite_code : Text
  pub invite_expires : Option Time
  pub cidr : Text
  pub cidr_v6 : Text
  pub created_at : Time
  pub version : ℕ
  pub registry : Node.Registry
  pub enroll_token : Text

pub record MemberView : Type 0 where
  pub peer_id : Text
  pub name : Text
  pub os : Text
  pub virtual_ip : Text
  pub virtual_ipv6 : Text
  pub role : Text
  pub addrs : List Text

pub record NetMap : Type 0 where
  pub group_id : Text
  pub group_name : Text
  pub cidr : Text
  pub cidr_v6 : Text
  pub version : ℕ
  pub members : List MemberView

pub record GroupRow : Type 0 where
  pub id : Text
  pub name : Text
  pub creator_peer_id : Text
  pub invite_code : Text
  pub invite_expires : Option Time
  pub cidr : Text
  pub subnet_index : ℕ
  pub version : ℕ

pub record MemberRow : Type 0 where
  pub peer_id : Text
  pub name : Text
  pub os : Text
  pub virtual_ip : Text
  pub virtual_ipv6 : Text
  pub role : Text

-- The statements of store.go that write, with their parameters.
pub data Statement : Type 0 where
  insert_group : GroupRow → Statement
  insert_member : Text → MemberRow → Statement
  bump_group_version : Text → Statement
  update_invite : Text → Text → Option Time → Statement
  delete_member : Text → Text → Statement
  backfill_member_ipv6 : Text → Text → Text → Statement
  replace_announced_addrs : Text → List Text → Statement

pub data Error : Type 0 where
  create_fields already_in_group subnet_pool_exhausted : Error
  join_fields invalid_invite invite_expired in_another_group : Error
  reset_fields unknown_group not_owner_reset : Error
  kick_fields not_owner_kick owner_kicks_self target_not_member : Error
  announce_fields unknown_peer no_valid_addresses : Error
  peer_required not_joined : Error
  bad_group_cidr group_cidr_not_24 : Error
  store_failed : Error
  node_error : Node.Error → Error

-- `S` is the state of the database behind the store; a registry without a store is in memory only.
pub record Registry (S : Type 0) : Type 0 where
  pub base : Prefix
  pub next_subnet : ℕ
  pub groups_by_id : Dict Group
  pub groups_by_invite : Dict Text
  pub group_by_peer : Dict Text
  pub announced_addrs : Dict (List Text)
  pub member_role : Dict Text
  pub store : Option S
