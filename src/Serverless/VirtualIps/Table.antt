-- ===== src/Serverless/VirtualIps/Table.antt =====
-- The table of occupied addresses that `claimVirtualIPsLocked` keeps beside the member table. The
-- caller holds `Discovery.mu`, so a call is one step; a set is the list of its elements.
pub mod Indexes
pub mod Sync
pub mod Updates
use lanet.Base.{
  ℕ, zero, suc, ◌+◌, ◌-◌, Bool, true, false, ◌&&◌, ◌||◌, not, Option, none, some, List, [], ◌∷◌,
  ◌++◌, ltb, ◌==◌, if◌then◌else◌, filter, any, Text, is_empty, text_eq, text_lt, Dict, lookup,
  insert, delete, has,
}
use lanet.Serverless.VirtualIps.{Lease, members_of, decide}

-- `virtualIPTable`.
pub record VirtualIpTable : Type 0 where
  pub lea : Dict Lease
  pub ip_owners : Dict (List Text)
  pub peer_ips : Dict Text
  pub conflicts : List Text
  pub unresolved : ℕ

-- `newVirtualIPTable`.
abbrev pub new_virtual_ip_table : VirtualIpTable
new_virtual_ip_table = record {
  lea = [];
  ip_owners = [];
  peer_ips = [];
  conflicts = [];
  unresolved = 0;
}

-- `equalStrings`.
unfoldable pub equal_strings : List Text → List Text → Bool
equal_strings [] [] = true
equal_strings [] (b ∷ others) = false
equal_strings (a ∷ rest) [] = false
equal_strings (a ∷ rest) (b ∷ others) = text_eq a b && equal_strings rest others

-- `appendSorted`: `sort.SearchStrings` finds the first text that is not smaller.
unfoldable pub append_sorted : List Text → Text → List Text
append_sorted [] id = id ∷ []
append_sorted (x ∷ xs) id =
    let rest = append_sorted xs id in
    if text_lt x id then x ∷ rest else if text_eq x id then x ∷ xs else id ∷ x ∷ xs

-- An address without owners has no entry.
unfoldable pub with_owners : Text → List Text → Dict (List Text) → Dict (List Text)
with_owners ip [] owners = delete ip owners
with_owners ip (o ∷ kept) owners = insert ip (o ∷ kept) owners

-- The owners of an address without one peer, by the owners it had.
unfoldable pub drop_owner : Text → Text → List Text → Dict (List Text) → Dict (List Text)
drop_owner ip id [] owners = owners
drop_owner ip id (o ∷ os) owners = with_owners ip (filter (λ x. not (text_eq x id)) (o ∷ os)) owners

unfoldable pub less_unresolved : Bool → ℕ → ℕ
less_unresolved lost n = if lost && ltb 0 n then n - 1 else n

-- `dropLocked` on a peer with a lease.
unfoldable pub drop_lease : Text → Lease → VirtualIpTable → VirtualIpTable
drop_lease id lease t = record {
  lea = delete id t.lea;
  ip_owners = drop_owner lease.ip id (members_of lease.ip t.ip_owners) t.ip_owners;
  peer_ips = delete id t.peer_ips;
  conflicts = t.conflicts;
  unresolved = less_unresolved lease.unresolved t.unresolved;
}

unfoldable pub drop_at : Text → Option Lease → VirtualIpTable → VirtualIpTable
drop_at id none t = t
drop_at id (some lease) t = drop_lease id lease t

-- `dropLocked`.
unfoldable pub drop_locked : Text → VirtualIpTable → VirtualIpTable
drop_locked id t = drop_at id (lookup id t.lea) t

-- `occupiedLocked`.
unfoldable pub occupied_locked : VirtualIpTable → Text → Bool
occupied_locked t ip = any (λ o. true) (members_of ip t.ip_owners)

unfoldable pub keys : Dict Lease → List Text
keys [] = []
keys ((k, lease) ∷ m) = k ∷ keys m

unfoldable pub release_one : Text → Option Lease → VirtualIpTable → VirtualIpTable
release_one id none t = drop_locked id t
release_one id (some next) t = t

-- The first loop of `syncLocked`, over the keys of `lea`.
unfoldable pub release_all : List Text → Dict Lease → VirtualIpTable → VirtualIpTable
release_all [] desired t = t
release_all (id ∷ ids) desired t = release_all ids desired (release_one id (lookup id desired) t)

-- The second loop.
unfoldable pub clear_conflicts : VirtualIpTable → VirtualIpTable
clear_conflicts t = record t { conflicts = filter (occupied_locked t) t.conflicts }

unfoldable pub same_lease : Lease → Lease → Bool
same_lease prev next =
    text_eq prev.ip next.ip
    && text_eq prev.base_ip next.base_ip
    && (prev.salt == next.salt)
    && ((prev.unresolved && next.unresolved) || (not prev.unresolved && not next.unresolved))
    && equal_strings prev.losers next.losers

-- A new lease is written into every index.
unfoldable pub issue : Text → Lease → VirtualIpTable → VirtualIpTable
issue id next t = record {
  lea = insert id next t.lea;
  ip_owners = insert next.ip (append_sorted (members_of next.ip t.ip_owners) id) t.ip_owners;
  peer_ips = insert id next.ip t.peer_ips;
  conflicts =
      if any (λ o. true) next.losers || ltb 0 next.salt
      then (if has next.base_ip t.conflicts then t.conflicts else next.base_ip ∷ t.conflicts)
      else t.conflicts;
  unresolved = if next.unresolved then t.unresolved + 1 else t.unresolved;
}

-- The table with the peers whose address changed and those seen for the first time.
pub record Synced : Type 0 where
  pub table : VirtualIpTable
  pub updated : List Text
  pub added : List Text

-- The body of the third loop for a peer with a lease, by the lease it had.
unfoldable pub refresh : Text → Lease → Option Lease → Synced → Synced
refresh id next none s = record {
  table = issue id next s.table;
  updated = s.updated ++ id ∷ [];
  added = s.added ++ id ∷ [];
}
refresh id next (some prev) s = if same_lease prev next then s else record {
  table = issue id next (drop_locked id s.table);
  updated = if text_eq prev.ip next.ip then s.updated else s.updated ++ id ∷ [];
  added = s.added;
}

unfoldable pub refresh_to : Text → Option Lease → Synced → Synced
refresh_to id none s = s
refresh_to id (some next) s = refresh id next (lookup id s.table.lea) s

unfoldable pub refresh_one : Text → Option Lease → Synced → Synced
refresh_one id o s = if is_empty id then s else refresh_to id o s

-- The third loop of `syncLocked`.
unfoldable pub refresh_all : List Text → Dict Lease → Synced → Synced
refresh_all [] desired s = s
refresh_all (id ∷ ids) desired s = refresh_all ids desired (refresh_one id (lookup id desired) s)

-- `syncLocked`.
unfoldable pub sync_locked : (Text → ℕ → Text) → VirtualIpTable → List Text → Synced
sync_locked derive t ids =
    let desired = decide derive ids in
    let kept = clear_conflicts (release_all (keys t.lea) desired t) in
    refresh_all ids desired (record { table = kept; updated = []; added = [] })
