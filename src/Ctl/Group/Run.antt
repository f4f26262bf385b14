-- ===== src/Ctl/Group/Run.antt =====
-- The registry over its whole life: any sequence of calls, with the random strings that they draw.
use lanet.Base.{Time, ◌≡◌, refl, subst, List, [], ◌∷◌, Option, none, some, arith, lookup, Text}
use lanet.Netip.{Addr, Netip, contains-subnet_unique}
use lanet.Ctl.Node.Claims.{Holds, Holds-unique}
use lanet.Ctl.Group.Types.{
  Group, Registry, Statement, CreateInput, JoinInput, ResetInviteInput, KickInput, AnnounceInput,
}
use lanet.Ctl.Group.Methods.{create, join, reset_invite, kick, announce, new_registry}
use lanet.Ctl.Group.Rules.{Reliable}
use lanet.Ctl.Group.Invariant.{IsValid}
use lanet.Ctl.Group.Create.{create-IsValid}
use lanet.Ctl.Group.Join.{join-IsValid}
use lanet.Ctl.Group.Reset.{reset_invite-IsValid, announce-IsValid}
use lanet.Ctl.Group.Kick.{kick-IsValid}
use lanet.Ctl.Group.Subnets.{
  IsAllotted, create-IsAllotted, join-IsAllotted, reset_invite-IsAllotted, kick-IsAllotted,
  announce-IsAllotted,
}

-- A call, with its random strings.
pub data Call : Type 0 where
  creates : CreateInput → Text → Text → Call
  joins : JoinInput → Call
  resets : ResetInviteInput → Text → Call
  kicks : KickInput → Call
  announces : AnnounceInput → Call

module _ (net : Netip) {S : Type 0} (exec : Statement → S → Option S) where
  unfoldable pub step : Registry S → Time × Call → Registry S
  step r (now, creates input random24 code) = (create net exec input random24 code now r).0
  step r (now, joins input) = (join net exec input now r).0
  step r (now, resets input code) = (reset_invite net exec input code now r).0
  step r (now, kicks input) = (kick net exec input r).0
  step r (now, announces input) = (announce net exec input r).0

  unfoldable pub run : Registry S → List (Time × Call) → Registry S
  run r [] = r
  run r (c ∷ cs) = run (step r c) cs

  -- The invite code that a call draws is not in use.
  abbrev pub IsFresh : Registry S → Time × Call → Type 0
  IsFresh r (now, creates input random24 code) = lookup code r.groups_by_invite ≡ none
  IsFresh r (now, resets input code) = lookup code r.groups_by_invite ≡ none
  IsFresh r (now, joins input) = Unit {0}
  IsFresh r (now, kicks input) = Unit {0}
  IsFresh r (now, announces input) = Unit {0}

  abbrev pub AllFresh : Registry S → List (Time × Call) → Type 0
  AllFresh r [] = Unit {0}
  AllFresh r (c ∷ cs) = IsFresh r c × AllFresh (step r c) cs

  pub new_registry-IsValid : (st : Option S) → IsValid net (new_registry st)
  unfolding new_registry lookup
  new_registry-IsValid st = record {
    at_base = refl;
    bounded = omega arith;
    groups = λ g grp h. absurd (ground arith);
    invites = λ code g h. absurd (ground arith);
    members = λ p g h. absurd (ground arith);
    roles = λ p role h. absurd (ground arith);
  }

  step-IsValid :
      (r : Registry S) (c : Time × Call)
      → Reliable exec
      → IsFresh r c
      → IsValid net r
      → IsValid net (step r c)
  unfolding step
  step-IsValid r (now, creates input random24 code) rel f v =
      create-IsValid net exec input random24 code now r v f
  step-IsValid r (now, joins input) rel f v = join-IsValid net exec input now r v
  step-IsValid r (now, resets input code) rel f v =
      reset_invite-IsValid net exec input code now r v f
  step-IsValid r (now, kicks input) rel f v = kick-IsValid net exec input r rel v
  step-IsValid r (now, announces input) rel f v = announce-IsValid net exec input r v

  -- From a registry that keeps the invariant, any sequence of calls whose invite codes are fresh,
  -- on a store that does not fail, keeps the invariant.
  pub run-IsValid :
      (r : Registry S) (cs : List (Time × Call))
      → Reliable exec
      → AllFresh r cs
      → IsValid net r
      → IsValid net (run r cs)
  unfolding run
  run-IsValid r [] rel f v = v
  run-IsValid r (c ∷ cs) rel f v = run-IsValid (step r c) cs rel f.1 (step-IsValid r c rel f.0 v)

  step-IsAllotted :
      (r : Registry S) (c : Time × Call) → IsAllotted net r → IsAllotted net (step r c)
  unfolding step
  step-IsAllotted r (now, creates input random24 code) a =
      create-IsAllotted net exec r a input random24 code now
  step-IsAllotted r (now, joins input) a = join-IsAllotted net exec r a input now
  step-IsAllotted r (now, resets input code) a = reset_invite-IsAllotted net exec r a input code now
  step-IsAllotted r (now, kicks input) a = kick-IsAllotted net exec r a input
  step-IsAllotted r (now, announces input) a = announce-IsAllotted net exec r a input

  run-IsAllotted :
      (r : Registry S) (cs : List (Time × Call)) → IsAllotted net r → IsAllotted net (run r cs)
  unfolding run
  run-IsAllotted r [] a = a
  run-IsAllotted r (c ∷ cs) a = run-IsAllotted (step r c) cs (step-IsAllotted r c a)

  new_registry-IsAllotted : (st : Option S) → IsAllotted net (new_registry st)
  unfolding new_registry lookup
  new_registry-IsAllotted st = record { at_base = refl; owned = λ g grp h. absurd (ground arith) }

  -- Two members of the groups that hold one IPv4 address are one peer in one group.
  isolated :
      (r : Registry S) (g h : Text) (grp grp' : Group) (p q : Text) (a : Addr)
      → IsAllotted net r
      → lookup g r.groups_by_id ≡ some grp
      → lookup h r.groups_by_id ≡ some grp'
      → Holds net (λ m. m.virtual_ip) grp.registry.nodes p a
      → Holds net (λ m. m.virtual_ip) grp'.registry.nodes q a
      → (g ≡ h) × (p ≡ q)
  isolated r g h grp grp' p q a v known known' x y =
      let (n, o) = v.owned g grp known in
      let (n', o') = v.owned h grp' known' in
      let here = o.nodes_valid.inside p a x in
      let there = o'.nodes_valid.inside q a y in
      let same_n : n ≡ n' = contains-subnet_unique n n' a (net.parse-IsAddr _ a x.2) here there in
      let same_g : g ≡ h = ground (arith, o.named, o'.named) in
      let same : grp' ≡ grp = ground arith in
      (
        same_g,
        Holds-unique net (λ m. m.virtual_ip) grp.registry.nodes grp.registry.used_ips
            o.nodes_valid.ips p q a x
            (subst {A = Group} (λ k. Holds net (λ m. m.virtual_ip) k.registry.nodes q a) same y),
      )

  -- From an empty registry, after any sequence of calls, whatever random strings they draw and
  -- whatever statements of the store fail: two members, of whatever groups, that hold one IPv4
  -- address are one peer in one group.
  pub run-isolated :
      (st : Option S) (cs : List (Time × Call)) (g h : Text) (grp grp' : Group) (p q : Text)
      (a : Addr)
      → lookup g (run (new_registry st) cs).groups_by_id ≡ some grp
      → lookup h (run (new_registry st) cs).groups_by_id ≡ some grp'
      → Holds net (λ m. m.virtual_ip) grp.registry.nodes p a
      → Holds net (λ m. m.virtual_ip) grp'.registry.nodes q a
      → (g ≡ h) × (p ≡ q)
  run-isolated st cs g h grp grp' p q a known known' x y =
      isolated (run (new_registry st) cs) g h grp grp' p q a
        (run-IsAllotted (new_registry st) cs (new_registry-IsAllotted st)) known known' x y
