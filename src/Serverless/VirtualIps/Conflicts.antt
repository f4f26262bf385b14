-- ===== src/Serverless/VirtualIps/Conflicts.antt =====
-- The list of address conflicts that the console shows, and the two counts.
use lanet.Base.{
  ℕ, suc, ◌≤◌, ◌≡◌, ◌≢◌, refl, sym, ap, ◌∙◌, ◌⊎◌, inl, inr, Bool, true, false, ◌&&◌, not, Option,
  none, some, List, [], ◌∷◌, arith, if◌then◌else◌, length, All, Text, text_eq, text_eq_refl,
  text_eq→eq, Dict, lookup, has, sort_texts, length-sort_texts, Bool-cases,
}
use lanet.Serverless.VirtualIps.{Lease, members_of}
use lanet.Serverless.VirtualIps.Table.{VirtualIpTable}
use lanet.Serverless.VirtualIps.Table.Indexes.{IsIndexed, owns}

-- `VirtualIPConflict`.
pub record VirtualIpConflict : Type 0 where
  pub ip : Text
  pub peer_id : Text
  pub winner_ip : Text
  pub losers : List Text
  pub loser_ips : List Text
  pub resolved : Bool

abbrev is_nil : List Text → Bool
is_nil [] = true
is_nil (x ∷ xs) = false

-- A lease that keeps the address from others.
unfoldable pub is_head : Text → Lease → Bool
is_head ip lease = text_eq lease.base_ip ip && not (is_nil lease.losers)

abbrev pub head_or : Text → Text → Option Lease → Option (Text × Lease) → Option (Text × Lease)
head_or ip o none later = later
head_or ip o (some lease) later = if is_head ip lease then some (o, lease) else later

-- The loop over the owners of an address.
unfoldable pub head_among : Dict Lease → Text → List Text → Option (Text × Lease)
head_among lea ip [] = none
head_among lea ip (o ∷ os) = head_or ip o (lookup o lea) (head_among lea ip os)

abbrev pub with_ip : Option Lease → List Text → List Text
with_ip none ips = ips
with_ip (some lease) ips = lease.ip ∷ ips

abbrev pub is_resolved : Option Lease → Bool
is_resolved none = true
is_resolved (some lease) = not lease.unresolved

-- The loop over the losers.
unfoldable pub loser_ips_of : Dict Lease → List Text → List Text
loser_ips_of lea [] = []
loser_ips_of lea (l ∷ losers) = with_ip (lookup l lea) (loser_ips_of lea losers)

unfoldable pub all_resolved : Dict Lease → List Text → Bool
all_resolved lea [] = true
all_resolved lea (l ∷ losers) = is_resolved (lookup l lea) && all_resolved lea losers

unfoldable pub conflict_of : Dict Lease → Text → Text × Lease → VirtualIpConflict
conflict_of lea ip (winner, head) = record {
  ip = ip;
  peer_id = winner;
  winner_ip = ip;
  losers = head.losers;
  loser_ips = loser_ips_of lea head.losers;
  resolved = all_resolved lea head.losers;
}

unfoldable pub with_conflict :
    Dict Lease → Text → Option (Text × Lease) → List VirtualIpConflict → List VirtualIpConflict
with_conflict lea ip none conflicts = conflicts
with_conflict lea ip (some head) conflicts = conflict_of lea ip head ∷ conflicts

unfoldable pub conflicts_at : VirtualIpTable → List Text → List VirtualIpConflict
conflicts_at t [] = []
conflicts_at t (ip ∷ ips) =
    with_conflict t.lea ip (head_among t.lea ip (members_of ip t.ip_owners)) (conflicts_at t ips)

-- `virtualIPConflictsLocked`.
unfoldable pub virtual_ip_conflicts : VirtualIpTable → List VirtualIpConflict
virtual_ip_conflicts t = conflicts_at t (sort_texts t.conflicts)

-- `VirtualIPConflictCount`.
unfoldable pub virtual_ip_conflict_count : VirtualIpTable → ℕ
virtual_ip_conflict_count t = length t.conflicts

-- `VirtualIPConflictUnresolvedCount`.
unfoldable pub virtual_ip_conflict_unresolved_count : VirtualIpTable → ℕ
virtual_ip_conflict_unresolved_count t = t.unresolved

-- A record of the list: its winner has the lease of the address, with the losers named.
unfoldable pub IsConflict : VirtualIpTable → VirtualIpConflict → Type 0
IsConflict t c =
    (lease : Lease) × (lookup c.peer_id t.lea ≡ some lease)
    × (lease.ip ≡ c.ip)
    × (lease.base_ip ≡ c.ip)
    × (c.losers ≡ lease.losers)
    × (lease.losers ≢ [])

not-nil : (xs : List Text) → is_nil xs ≡ false → xs ≢ []
not-nil [] h e = cc
not-nil (x ∷ xs) h e = cc

abbrev IsHeadOf : Dict Lease → Text → Text → Lease → Type 0
IsHeadOf lea ip x head = (lookup x lea ≡ some head) × (is_head ip head ≡ true)

head_or-cases :
    (lea : Dict Lease) (ip o x : Text) (l : Option Lease) (later : Option (Text × Lease))
    (head : Lease)
    → lookup o lea ≡ l
    → head_or ip o l later ≡ some (x, head)
    → ((o ≡ x) × IsHeadOf lea ip x head) ⊎ (later ≡ some (x, head))
head_or-cases lea ip o x none later head e h = inr h
head_or-cases lea ip o x (some lease) later head e h = elim (Bool-cases (is_head ip lease)) [
  | inl hit ↦ inl (ground arith)
  | inr miss ↦ inr (ground arith)
]

head_among-has :
    (lea : Dict Lease) (ip : Text) (os : List Text) (x : Text) (head : Lease)
    → head_among lea ip os ≡ some (x, head)
    → (has x os ≡ true) × IsHeadOf lea ip x head
unfolding head_among has
head_among-has lea ip [] x head h = absurd cc
head_among-has lea ip (o ∷ os) x head h =
    elim (head_or-cases lea ip o x (lookup o lea) (head_among lea ip os) head refl h) [
      | inl (same, found) ↦ (ground (arith, text_eq_refl x), found)
      | inr later ↦
          let found = head_among-has lea ip os x head later in (ground (arith, found.0), found.1)
    ]

head-IsConflict :
    (t : VirtualIpTable) (ip x : Text) (head : Lease)
    → IsIndexed t
    → head_among t.lea ip (members_of ip t.ip_owners) ≡ some (x, head)
    → IsConflict t (conflict_of t.lea ip (x, head))
unfolding IsConflict IsIndexed conflict_of is_head
head-IsConflict t ip x head h e =
    let (owner, (at, hit)) = head_among-has t.lea ip (members_of ip t.ip_owners) x head e in
    let owned : text_eq head.ip ip ≡ true = sym (ap (owns ip) at) ∙ (sym ((h x).1 ip) ∙ owner) in
    (
      head,
      at,
      text_eq→eq head.ip ip owned,
      ground (arith, text_eq→eq head.base_ip ip),
      refl,
      not-nil head.losers (ground arith),
    )

with_conflict-All :
    (t : VirtualIpTable) (ip : Text) (o : Option (Text × Lease)) (later : List VirtualIpConflict)
    → IsIndexed t
    → head_among t.lea ip (members_of ip t.ip_owners) ≡ o
    → All (IsConflict t) later
    → All (IsConflict t) (with_conflict t.lea ip o later)
unfolding with_conflict
with_conflict-All t ip none later h e k = k
with_conflict-All t ip (some (x, head)) later h e k = (head-IsConflict t ip x head h e, k)

conflicts_at-All :
    (t : VirtualIpTable) (ips : List Text) → IsIndexed t → All (IsConflict t) (conflicts_at t ips)
unfolding conflicts_at
conflicts_at-All t [] h = tt
conflicts_at-All t (ip ∷ ips) h =
    with_conflict-All t ip _ (conflicts_at t ips) h refl (conflicts_at-All t ips h)

length-with_conflict :
    (lea : Dict Lease) (ip : Text) (o : Option (Text × Lease)) (later : List VirtualIpConflict)
    → length (with_conflict lea ip o later) ≤ suc (length later)
unfolding with_conflict
length-with_conflict lea ip none later = omega arith
length-with_conflict lea ip (some head) later = omega arith

length-conflicts_at :
    (t : VirtualIpTable) (ips : List Text) → length (conflicts_at t ips) ≤ length ips
unfolding conflicts_at
length-conflicts_at t [] = omega arith
length-conflicts_at t (ip ∷ ips) = omega (
  arith,
  length-conflicts_at t ips,
  length-with_conflict t.lea ip (head_among t.lea ip (members_of ip t.ip_owners))
      (conflicts_at t ips),
)

-- Of a table whose indexes agree with its leases, the list has no more records than the count says,
-- and the winner of every record has a lease on the conflict's address, which is its base address,
-- with the losers listed, of whom there is at least one.
pub virtual_ip_conflicts-IsConflict :
    (t : VirtualIpTable)
    → IsIndexed t
    → (length (virtual_ip_conflicts t) ≤ virtual_ip_conflict_count t)
      × All (IsConflict t) (virtual_ip_conflicts t)
unfolding virtual_ip_conflicts virtual_ip_conflict_count
virtual_ip_conflicts-IsConflict t h = (
  omega (arith, length-conflicts_at t (sort_texts t.conflicts), length-sort_texts t.conflicts),
  conflicts_at-All t (sort_texts t.conflicts) h,
)
