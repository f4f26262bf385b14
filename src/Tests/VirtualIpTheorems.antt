-- ===== src/Tests/VirtualIpTheorems.antt =====
-- The theorems on virtual addresses at three members: `a` and `b` have one base address, and `b`
-- moves to the base address of `c`.
use lanet.Base.{
  ℕ, zero, suc, ◌≤◌, ◌≡◌, refl, ◌⊎◌, not, ◌&&◌, some, List, [], ◌∷◌, arith, if◌then◌else◌, length,
  All, Text, codes, text_eq, is_empty, Dict, lookup, insert, has, unique_from, sort_texts, place,
  text_lt,
}
use lanet.Serverless.VirtualIps.{
  Lease, members_of, alter, place_pending, sort_pending, with_pending, conflict_heads, to_reassign,
  set_losers, picked, settled, grow, group_from, base_lease, base_leases, pick, reassign,
  decide_sorted, decide_blocked, decide, decide_in_order, sorted_ids,
}
use lanet.Serverless.VirtualIps.Orders.{same_head, exchange, all_done}
use lanet.Serverless.VirtualIps.Members.{IsDecided, decide-same, decide-IsLease, decide-clash}
use lanet.Serverless.VirtualIps.Table.{VirtualIpTable, new_virtual_ip_table, sync_locked}
use lanet.Serverless.VirtualIps.Table.Indexes.{IsIndexed}
use lanet.Serverless.VirtualIps.Table.Sync.{sync_locked-decide, sync_locked-IsIndexed}
use lanet.Serverless.VirtualIps.Claims.{
  Claimed, claim_virtual_ips, member_ids, IsAligned, claim_virtual_ips-decide,
}
use lanet.Serverless.VirtualIps.Conflicts.{
  virtual_ip_conflicts, virtual_ip_conflict_count, IsConflict, virtual_ip_conflicts-IsConflict,
}

abbrev low : Text
low = codes "10.7.1.1"

abbrev high : Text
high = codes "10.7.2.2"

abbrev a : Text
a = codes "a"

abbrev b : Text
b = codes "b"

abbrev c : Text
c = codes "c"

abbrev derive : Text → ℕ → Text
derive id zero = if text_eq id c then high else low
derive id (suc s) = high

abbrev peers : List Text
peers = b ∷ c ∷ a ∷ []

abbrev lease_b : (lease : Lease) × (lookup b (decide derive peers) ≡ some lease)
unfolding decide decide_blocked decide_sorted unique_from sort_texts place lookup has insert alter
    place_pending sort_pending with_pending conflict_heads to_reassign set_losers picked settled
    grow group_from base_lease base_leases pick reassign members_of text_eq text_lt
lease_b = (_, refl)

abbrev lease_c : (lease : Lease) × (lookup c (decide derive peers) ≡ some lease)
unfolding decide decide_blocked decide_sorted unique_from sort_texts place lookup has insert alter
    place_pending sort_pending with_pending conflict_heads to_reassign set_losers picked settled
    grow group_from base_lease base_leases pick reassign members_of text_eq text_lt
lease_c = (_, refl)

-- The groups of the three members, and the other order in which they may be visited.
abbrev in_order : Dict (List Text)
in_order = (low, a ∷ b ∷ []) ∷ (high, c ∷ []) ∷ []

abbrev exchanged : Dict (List Text)
exchanged = (high, c ∷ []) ∷ (low, a ∷ b ∷ []) ∷ []

decide-same_example :
    (decide_in_order derive exchanged (sorted_ids derive peers) [] ≡ decide derive peers)
    × (decide_in_order derive in_order (sorted_ids derive (a ∷ b ∷ a ∷ c ∷ [])) []
        ≡ decide derive peers)
unfolding has unique_from sort_texts place lookup insert group_from members_of text_eq text_lt
decide-same_example =
    decide-same derive peers (a ∷ b ∷ a ∷ c ∷ []) exchanged in_order (λ id full. ground arith)
      (exchange low high (a ∷ b ∷ []) (c ∷ []) [] refl)
      (same_head low (a ∷ b ∷ []) _ _ (same_head high (c ∷ []) [] [] all_done))

decide-IsLease_example :
    IsDecided derive (not (is_empty b) && has b peers) b (lookup b (decide derive peers))
decide-IsLease_example = decide-IsLease derive peers b

decide-clash_example :
    ((lease_b.0.salt ≡ 0) × (1 ≤ lease_c.0.salt)) ⊎ ((1 ≤ lease_b.0.salt) × (lease_c.0.salt ≡ 0))
unfolding text_eq base_lease picked settled lease_b lease_c
decide-clash_example =
    decide-clash derive peers b c lease_b.0 lease_c.0 (λ e. ground (arith, e)) lease_b.1 lease_c.1
      refl refl refl

sync_locked-decide_example :
    lookup b (sync_locked derive new_virtual_ip_table peers).table.lea
    ≡ lookup b (decide derive peers)
sync_locked-decide_example = sync_locked-decide derive new_virtual_ip_table peers b

abbrev new-IsIndexed : IsIndexed new_virtual_ip_table
unfolding IsIndexed lookup has members_of
new-IsIndexed id = (refl, λ ip. refl)

sync_locked-IsIndexed_example : IsIndexed (sync_locked derive new_virtual_ip_table peers).table
sync_locked-IsIndexed_example =
    sync_locked-IsIndexed derive new_virtual_ip_table peers new-IsIndexed

abbrev before : Claimed
before = record { members = (b, low) ∷ (a, low) ∷ []; vaddrs = new_virtual_ip_table }

abbrev before-IsAligned : IsAligned before
unfolding IsAligned lookup
before-IsAligned id ip lease e h = absurd cc

claim_virtual_ips-decide_example :
    ((lease : Lease) × (lookup b (decide derive (member_ids before.members)) ≡ some lease)
      × (lookup b (claim_virtual_ips derive before).0.members ≡ some lease.ip))
    × IsAligned (claim_virtual_ips derive before).0
unfolding lookup text_eq
claim_virtual_ips-decide_example =
    claim_virtual_ips-decide derive before b low before-IsAligned refl refl

abbrev synced : VirtualIpTable
synced = (sync_locked derive new_virtual_ip_table peers).table

abbrev synced-IsIndexed : IsIndexed synced
synced-IsIndexed = sync_locked-IsIndexed derive new_virtual_ip_table peers new-IsIndexed

virtual_ip_conflicts-IsConflict_example :
    (length (virtual_ip_conflicts synced) ≤ virtual_ip_conflict_count synced)
    × All (IsConflict synced) (virtual_ip_conflicts synced)
virtual_ip_conflicts-IsConflict_example = virtual_ip_conflicts-IsConflict synced synced-IsIndexed
