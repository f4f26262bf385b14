-- ===== src/Serverless/VirtualIps/Claims.antt =====
-- `claimVirtualIPsLocked`: the member table gets the addresses decided. Of a member the calls read
-- and write the field `VirtualIP` only, so a member stands here for that field.
use lanet.Base.{
  ℕ, ◌≡◌, refl, sym, ap, ◌∙◌, inl, inr, true, false, Option, none, some, List, [], ◌∷◌, arith,
  if◌then◌else◌, Text, is_empty, text_eq, text_eq_iff, Dict, lookup, insert, lookup-insert, has,
  Bool-cases, Option-cases,
}
use lanet.Serverless.VirtualIps.{Lease, decide}
use lanet.Serverless.VirtualIps.Members.{decide-member}
use lanet.Serverless.VirtualIps.Table.{VirtualIpTable, sync_locked}
use lanet.Serverless.VirtualIps.Table.Indexes.{ip_of}
use lanet.Serverless.VirtualIps.Table.Sync.{sync_locked-decide}
use lanet.Serverless.VirtualIps.Table.Updates.{sync_locked-updated}

-- The part of `Discovery` that the calls share.
pub record Claimed : Type 0 where
  pub members : Dict Text
  pub vaddrs : VirtualIpTable

unfoldable pub member_ids : Dict Text → List Text
member_ids [] = []
member_ids ((id, ip) ∷ members) = id ∷ member_ids members

unfoldable pub write_one : Text → Option Text → Option Lease → Dict Text → Dict Text
write_one id none lease members = members
write_one id (some ip) none members = members
write_one id (some ip) (some lease) members = insert id lease.ip members

-- The loop over the peers updated.
unfoldable pub write_back : List Text → Dict Lease → Dict Text → Dict Text
write_back [] lea members = members
write_back (id ∷ ids) lea members =
    write_back ids lea (write_one id (lookup id members) (lookup id lea) members)

module _ (derive : Text → ℕ → Text) where
  -- `claimVirtualIPsLocked`, which `releaseVirtualIPsLocked` also calls.
  unfoldable pub claim_virtual_ips : Claimed → Claimed × List Text
  claim_virtual_ips d =
      let s = sync_locked derive d.vaddrs (member_ids d.members) in
      (record { members = write_back s.updated s.table.lea d.members; vaddrs = s.table }, s.updated)

  unfoldable pub or_derived : Text → Option Text → Text
  or_derived id none = derive id 0
  or_derived id (some ip) = if is_empty ip then derive id 0 else ip

  -- `virtualIPOfPeerLocked`, and `alignedVirtualIP`, which a new member's field starts with.
  unfoldable pub virtual_ip_of_peer : Claimed → Text → Text
  virtual_ip_of_peer d id = or_derived id (lookup id d.vaddrs.peer_ips)

-- What the write leaves of a member.
abbrev written : Option Text → Option Lease → Option Text
written none lease = none
written (some ip) none = some ip
written (some ip) (some lease) = some lease.ip

lookup-write_one :
    (id x : Text) (o : Option Text) (l : Option Lease) (members : Dict Text)
    → lookup id members ≡ o
    → lookup x (write_one id o l members) ≡ (if text_eq id x then written o l else lookup x members)
unfolding write_one
lookup-write_one id x none l members e = ground (arith, text_eq_iff id x)
lookup-write_one id x (some ip) none members e = ground (arith, text_eq_iff id x)
lookup-write_one id x (some ip) (some lease) members e = lookup-insert id x lease.ip members

written_twice : (o : Option Text) (l : Option Lease) → written (written o l) l ≡ written o l
written_twice none l = refl
written_twice (some ip) none = refl
written_twice (some ip) (some lease) = refl

lookup-write_back :
    (ids : List Text) (lea : Dict Lease) (members : Dict Text) (x : Text)
    → lookup x (write_back ids lea members)
      ≡ (if has x ids then written (lookup x members) (lookup x lea) else lookup x members)
unfolding write_back has
lookup-write_back [] lea members x = refl
lookup-write_back (id ∷ ids) lea members x =
    let o = lookup id members in
    let l = lookup id lea in
    lookup-write_back ids lea (write_one id o l members) x
    ∙ ground (
      arith,
      lookup-write_one id x o l members refl,
      text_eq_iff id x,
      written_twice (lookup x members) (lookup x lea),
    )

has-member_ids :
    (x ip : Text) (members : Dict Text)
    → lookup x members ≡ some ip
    → has x (member_ids members) ≡ true
unfolding has member_ids lookup
has-member_ids x ip [] h = absurd cc
has-member_ids x ip ((k, v) ∷ members) h = ground (arith, has-member_ids x ip members)

-- A member whose peer has a lease has the address of that lease.
unfoldable pub IsAligned : Claimed → Type 0
IsAligned d =
    (id ip : Text) (lease : Lease)
    → lookup id d.members ≡ some ip
    → lookup id d.vaddrs.lea ≡ some lease
    → ip ≡ lease.ip

aligned-ip :
    (ip : Text) (lease : Lease) (o : Option Lease)
    → some lease.ip ≡ ip_of o
    → ((l : Lease) → o ≡ some l → ip ≡ l.ip)
    → some ip ≡ some lease.ip
aligned-ip ip lease none e h = absurd cc
aligned-ip ip lease (some l) e h = ap some (h l refl) ∙ sym e

module _ (derive : Text → ℕ → Text) where
  claim-written :
      (d : Claimed) (id ip : Text) (lease : Lease)
      → IsAligned d
      → lookup id d.members ≡ some ip
      → lookup id (decide derive (member_ids d.members)) ≡ some lease
      → lookup id (claim_virtual_ips derive d).0.members ≡ some lease.ip
  unfolding claim_virtual_ips IsAligned
  claim-written d id ip lease h e decided =
      let s = sync_locked derive d.vaddrs (member_ids d.members) in
      let now = sync_locked-decide derive d.vaddrs (member_ids d.members) id ∙ decided in
      let value = lookup-write_back s.updated s.table.lea d.members id in
      elim (Bool-cases (has id s.updated)) [
        | inl reported ↦ value ∙ rw (reported, e, now) refl
        | inr quiet ↦
            elim (sync_locked-updated derive d.vaddrs (member_ids d.members) id lease decided) [
              | inl reported ↦ absurd (ground arith)
              | inr same ↦
                  value
                  ∙ (rw (quiet, e)
                      (aligned-ip ip lease (lookup id d.vaddrs.lea) (sym (ap ip_of now) ∙ same)
                        (λ l at. h id ip l e at)))
            ]
      ]

  claim-members_none :
      (d : Claimed) (id : Text)
      → lookup id d.members ≡ none
      → lookup id (claim_virtual_ips derive d).0.members ≡ none
  unfolding claim_virtual_ips
  claim-members_none d id e =
      let s = sync_locked derive d.vaddrs (member_ids d.members) in
      lookup-write_back s.updated s.table.lea d.members id ∙ rw e (ground arith)

  claim-IsAligned : (d : Claimed) → IsAligned d → IsAligned (claim_virtual_ips derive d).0
  unfolding IsAligned claim_virtual_ips
  claim-IsAligned d h id ip lease e at =
      let decided = sym (sync_locked-decide derive d.vaddrs (member_ids d.members) id) ∙ at in
      elim (Option-cases (lookup id d.members)) [
        | inl absent ↦ absurd (ground (arith, claim-members_none d id absent))
        | inr (old, member) ↦ ground (arith, claim-written d id old lease h member decided)
      ]

  -- Where each member whose peer has a lease has the address of that lease, after the claim a
  -- member with a non-empty id has the address that the decision for the member table gives it, and
  -- the condition holds again.
  pub claim_virtual_ips-decide :
      (d : Claimed) (id ip : Text)
      → IsAligned d
      → is_empty id ≡ false
      → lookup id d.members ≡ some ip
      → ((lease : Lease) × (lookup id (decide derive (member_ids d.members)) ≡ some lease)
          × (lookup id (claim_virtual_ips derive d).0.members ≡ some lease.ip))
        × IsAligned (claim_virtual_ips derive d).0
  claim_virtual_ips-decide d id ip h full e =
      let (lease, decided, valid) =
        decide-member derive (member_ids d.members) id full (has-member_ids id ip d.members e) in
      ((lease, decided, claim-written d id ip lease h e decided), claim-IsAligned d h)
