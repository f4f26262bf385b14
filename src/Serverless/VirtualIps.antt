-- ===== src/Serverless/VirtualIps.antt =====
-- pkg/serverless/vaddr_conflict.go and keys.go: which virtual IPv4 address each member of a group
-- has. SHA-256 is a parameter, from a byte list to the bytes of the digest.
pub mod Moves
pub mod Groups
pub mod Leases
pub mod Pendings
pub mod Orders
pub mod Decision
pub mod Clashes
pub mod Members
pub mod Table
pub mod Claims
pub mod Conflicts
use lanet.Base.{
  ℕ, zero, suc, ◌+◌, ◌%◌, Bool, true, false, ◌||◌, Option, none, some, List, [], ◌∷◌, ◌++◌, ltb,
  leb, ◌==◌, if◌then◌else◌, length, get_or, Text, codes, text_eq, text_lt, show_dec, Dict, lookup,
  insert, has, unique_from, sort_texts,
}

-- `VirtualIPv4SaltMax`.
abbrev pub salt_max : ℕ
salt_max = 64

-- `virtualIPDomainSep`.
abbrev pub domain_sep : Text
domain_sep = codes "lanet-virtual-ipv4-v2:"

-- `virtualIPLease`.
pub record Lease : Type 0 where
  pub base_ip : Text
  pub ip : Text
  pub salt : ℕ
  pub losers : List Text
  pub unresolved : Bool

-- What both derivations print of a digest.
abbrev pub digest_ip : List ℕ → Text
digest_ip h =
    codes "10.7."
    ++ show_dec (get_or h 0 0 % 254 + 1)
    ++ codes "."
    ++ show_dec (get_or h 1 0 % 254 + 1)

module _ (sha256 : List ℕ → List ℕ) where
  -- `DeriveVirtualIP`.
  unfoldable pub derive_virtual_ip : List ℕ → Text → Text
  derive_virtual_ip group_key peer_id = digest_ip (sha256 (group_key ++ peer_id))

  -- `deriveVirtualIPSalted`; no salt is negative.
  unfoldable pub derive_salted : List ℕ → Text → ℕ → Text
  derive_salted group_key peer_id zero = derive_virtual_ip group_key peer_id
  derive_salted group_key peer_id (suc s) =
      digest_ip
        (sha256 (domain_sep ++ show_dec (suc s) ++ codes ":" ++ group_key ++ codes ":" ++ peer_id))

abbrev pub or_nil : Option (List Text) → List Text
or_nil none = []
or_nil (some group) = group

-- `m[key]` of a map to slices.
unfoldable pub members_of : Text → Dict (List Text) → List Text
members_of base groups = or_nil (lookup base groups)

-- An update of the entry at a key that the map has.
unfoldable pub alter : Text → (Lease → Lease) → Dict Lease → Dict Lease
alter k f [] = []
alter k f ((j, lease) ∷ out) =
    let rest = alter k f out in if text_eq j k then (j, f lease) ∷ out else (j, lease) ∷ rest

-- An entry of `toReassign`.
pub record Pending : Type 0 where
  pub id : Text
  pub base : Text

unfoldable pub place_pending : Pending → List Pending → List Pending
place_pending p [] = p ∷ []
place_pending p (q ∷ qs) =
    let rest = place_pending p qs in if text_lt q.id p.id then q ∷ rest else p ∷ q ∷ qs

-- The `sort.Slice` of `toReassign` by peer id.
unfoldable pub sort_pending : List Pending → List Pending
sort_pending [] = []
sort_pending (p ∷ ps) = place_pending p (sort_pending ps)

-- `toReassign` after the members behind the first of one group.
unfoldable pub with_pending : Text → List Text → List Pending → List Pending
with_pending base [] ps = ps
with_pending base (id ∷ ids) ps = record { id = id; base = base } ∷ with_pending base ids ps

-- The loop over the groups: the base addresses of the groups of two or more, ...
unfoldable pub conflict_heads : Dict (List Text) → List Text
conflict_heads [] = []
conflict_heads ((base, group) ∷ groups) =
    let rest = conflict_heads groups in if ltb (length group) 2 then rest else base ∷ rest

-- ... the members that must move, ...
unfoldable pub to_reassign : Dict (List Text) → List Pending
to_reassign [] = []
to_reassign ((base, []) ∷ groups) = to_reassign groups
to_reassign ((base, winner ∷ others) ∷ groups) = with_pending base others (to_reassign groups)

-- ... and the first of each such group, which learns whom it displaced.
unfoldable pub set_losers : Dict (List Text) → Dict Lease → Dict Lease
set_losers [] out = out
set_losers ((base, []) ∷ groups) out = set_losers groups out
set_losers ((base, winner ∷ []) ∷ groups) out = set_losers groups out
set_losers ((base, winner ∷ loser ∷ others) ∷ groups) out =
    set_losers groups (alter winner (λ lease. record lease { losers = loser ∷ others }) out)

-- What the loop over the salts writes into the lease of a member.
unfoldable pub picked : Option (Text × ℕ) → Lease → Lease
picked none lease = lease
picked (some (candidate, salt)) lease = record lease {
  ip = candidate;
  salt = salt;
  unresolved = false;
}

-- Behind that loop: a member without a salt keeps its base address.
unfoldable pub settled : Text → Lease → Lease
settled base lease =
    if lease.salt == 0 then record lease { ip = base; unresolved = true } else lease

-- The addresses taken, with the one picked.
unfoldable pub grow : Option (Text × ℕ) → List Text → List Text
grow none taken = taken
grow (some (candidate, salt)) taken = candidate ∷ taken

-- A lease at the base address.
unfoldable pub base_lease : Text → Lease
base_lease base = record { base_ip = base; ip = base; salt = 0; losers = []; unresolved = false }

module _ (derive : Text → ℕ → Text) where
  -- The loop that fills `byBase`.
  unfoldable pub group_from : Dict (List Text) → List Text → Dict (List Text)
  group_from groups [] = groups
  group_from groups (id ∷ ids) =
      let base = derive id 0 in
      group_from (insert base (members_of base groups ++ id ∷ []) groups) ids

  -- The loop that fills `out` with the base addresses.
  unfoldable pub base_leases : Dict Lease → List Text → Dict Lease
  base_leases out [] = out
  base_leases out (id ∷ ids) = base_leases (insert id (base_lease (derive id 0)) out) ids

  -- The loop over the salts, with the number of salts left.
  unfoldable pub pick : List Text → Text → ℕ → ℕ → Option (Text × ℕ)
  pick taken id zero salt = none
  pick taken id (suc left) salt =
      let next = pick taken id left (suc salt) in
      let candidate = derive id salt in if has candidate taken then next else some (candidate, salt)

  -- The second pass.
  unfoldable pub reassign : List Text → List Pending → Dict Lease → Dict Lease
  reassign taken [] out = out
  reassign taken (p ∷ ps) out =
      let choice = pick taken p.id salt_max 1 in
      reassign (grow choice taken) ps
        (alter p.id (λ lease. settled p.base (picked choice lease)) out)

  -- The peer ids that `decideVirtualIPsWithBlocked` works on.
  abbrev pub sorted_ids : List Text → List Text
  sorted_ids peer_ids = sort_texts (unique_from [] peer_ids)

  -- The loops behind the one that fills `byBase`, for the order in which the map is visited.
  abbrev pub decide_in_order : Dict (List Text) → List Text → List Text → Dict Lease
  decide_in_order groups ids blocked =
      reassign (sort_texts (conflict_heads groups) ++ blocked) (sort_pending (to_reassign groups))
        (set_losers groups (base_leases [] ids))

  -- Its body behind `sort.Strings(ids)`, with the groups in the order of their first members: no
  -- other order gives another decision.
  unfoldable pub decide_sorted : List Text → List Text → Dict Lease
  decide_sorted ids blocked = decide_in_order (group_from [] ids) ids blocked

  -- `decideVirtualIPsWithBlocked`.
  unfoldable pub decide_blocked : List Text → List Text → Dict Lease
  decide_blocked peer_ids blocked = decide_sorted (sorted_ids peer_ids) blocked

  -- `decideVirtualIPs`.
  unfoldable pub decide : List Text → Dict Lease
  decide peer_ids = decide_blocked peer_ids []
