-- ===== src/Serverless/VirtualIps/Members.antt =====
-- The decision for the peer ids of a member table, as `decideVirtualIPs` gets them.
use lanet.Base.{
  ℕ, ◌≤◌, ◌≡◌, ◌≢◌, sym, subst, ◌∙◌, ◌⊎◌, inl, inr, Bool, true, false, ◌&&◌, not, Option, none,
  some, List, [], arith, Text, is_empty, Dict, lookup, has, Bool-cases,
}
use lanet.Serverless.VirtualIps.{
  Lease, group_from, sorted_ids, decide_in_order, decide_sorted, decide_blocked, decide,
}
use lanet.Serverless.VirtualIps.Orders.{Reordered, decide_in_order-Reordered}
use lanet.Serverless.VirtualIps.Pendings.{group_from-Grouped}
use lanet.Serverless.VirtualIps.Leases.{At, IsLease}
use lanet.Serverless.VirtualIps.Decision.{
  decide_blocked-same, has-sorted_ids, decide_sorted-IsLease, lookup-decide_sorted-none,
}
use lanet.Serverless.VirtualIps.Clashes.{decide_sorted-clash, decide_sorted-shared}

module _ (derive : Text → ℕ → Text) where
  -- Two lists of peer ids with the same non-empty ids, whatever their order and repetitions: in
  -- whatever order the loop over the map visits the groups of the one and of the other, the leases
  -- are those of the decision for the first list.
  pub decide-same :
      (peer_ids peer_ids' : List Text) (groups groups' : Dict (List Text))
      → ((id : Text) → is_empty id ≡ false → has id peer_ids ≡ has id peer_ids')
      → Reordered (group_from derive [] (sorted_ids derive peer_ids)) groups
      → Reordered (group_from derive [] (sorted_ids derive peer_ids')) groups'
      → (decide_in_order derive groups (sorted_ids derive peer_ids) [] ≡ decide derive peer_ids)
        × (decide_in_order derive groups' (sorted_ids derive peer_ids') [] ≡ decide derive peer_ids)
  unfolding decide decide_blocked decide_sorted
  decide-same peer_ids peer_ids' groups groups' same s s' =
      let visited =
        λ (ids : List Text) (x : Dict (List Text)) (r : Reordered (group_from derive [] ids) x).
          sym (
            decide_in_order-Reordered derive (group_from derive [] ids) x ids [] r
              (group_from-Grouped derive [] ids tt)) in
      (
        visited (sorted_ids derive peer_ids) groups s,
        visited (sorted_ids derive peer_ids') groups' s'
            ∙ sym (decide_blocked-same derive peer_ids peer_ids' [] same),
      )

  -- What the decision says of an id: nothing if it is no member, else a lease at its own base
  -- address, with an address derived for it.
  unfoldable pub IsDecided : Bool → Text → Option Lease → Type 0
  IsDecided member id none = member ≡ false
  IsDecided member id (some lease) = (member ≡ true) × IsLease derive id lease

  At-IsDecided :
      (member : Bool) (id : Text) (out : Dict Lease)
      → member ≡ true
      → At id (IsLease derive id) out
      → IsDecided member id (lookup id out)
  unfolding IsDecided
  At-IsDecided member id out m (lease, e, h) = subst (IsDecided member id) (sym e) (m, h)

  -- A member has a lease.
  pub decide-member :
      (peer_ids : List Text) (id : Text)
      → is_empty id ≡ false
      → has id peer_ids ≡ true
      → At id (IsLease derive id) (decide derive peer_ids)
  unfolding decide decide_blocked
  decide-member peer_ids id full member =
      decide_sorted-IsLease derive id _ [] (ground (arith, has-sorted_ids derive id peer_ids))

  -- No other text has one.
  pub decide-stranger :
      (peer_ids : List Text) (id : Text)
      → (not (is_empty id) && has id peer_ids) ≡ false
      → lookup id (decide derive peer_ids) ≡ none
  unfolding decide decide_blocked
  decide-stranger peer_ids id out =
      lookup-decide_sorted-none derive id _ [] (has-sorted_ids derive id peer_ids ∙ out)

  -- Exactly the non-empty ids of the list have a lease, and each lease has the member's own base
  -- address and an address derived for that member with a salt of at most 64.
  pub decide-IsLease :
      (peer_ids : List Text) (id : Text)
      → IsDecided (not (is_empty id) && has id peer_ids) id (lookup id (decide derive peer_ids))
  unfolding IsDecided
  decide-IsLease peer_ids id =
      let member = not (is_empty id) && has id peer_ids in
      elim (Bool-cases member) [
        | inl inside ↦
            At-IsDecided member id (decide derive peer_ids) inside
              (decide-member peer_ids id (ground arith) (ground arith))
        | inr outside ↦
            subst (IsDecided member id) (sym (decide-stranger peer_ids id outside)) outside
      ]

  -- Where two different members have one address and neither is marked unresolved, one of the two
  -- kept its base address and the other moved: two that kept theirs never share it, nor do two that
  -- moved.
  pub decide-clash :
      (peer_ids : List Text) (id id' : Text) (lease lease' : Lease)
      → id ≢ id'
      → lookup id (decide derive peer_ids) ≡ some lease
      → lookup id' (decide derive peer_ids) ≡ some lease'
      → lease.unresolved ≡ false
      → lease'.unresolved ≡ false
      → lease.ip ≡ lease'.ip
      → ((lease.salt ≡ 0) × (1 ≤ lease'.salt)) ⊎ ((1 ≤ lease.salt) × (lease'.salt ≡ 0))
  unfolding decide decide_blocked
  decide-clash peer_ids id id' lease lease' ne e e' r r' same =
      decide_sorted-clash derive id id' (sorted_ids derive peer_ids) [] lease lease' ne e e' r r'
        same

  -- A member that moved does not have an address that is the base address of two members.
  pub decide-shared :
      (peer_ids : List Text) (id a b : Text) (lease : Lease)
      → lookup id (decide derive peer_ids) ≡ some lease
      → 1 ≤ lease.salt
      → a ≢ b
      → is_empty a ≡ false
      → is_empty b ≡ false
      → has a peer_ids ≡ true
      → has b peer_ids ≡ true
      → derive a 0 ≡ derive b 0
      → lease.ip ≢ derive a 0
  unfolding decide decide_blocked
  decide-shared peer_ids id a b lease e h ne full full' ha hb same =
      decide_sorted-shared derive id a b (sorted_ids derive peer_ids) [] lease e h ne
        (ground (arith, has-sorted_ids derive a peer_ids))
        (ground (arith, has-sorted_ids derive b peer_ids)) same
