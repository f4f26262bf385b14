-- ===== src/Tests/GroupTheorems.antt =====
-- The theorems on the group registry at the two groups of Tests/Groups.
use lanet.Base.{
  ◌^◌, arith, scale, ◌+ℤ◌, ◌≤ℤ◌, ◌<ℤ◌, ◌≢◌, ◌⊎◌, ◌≡◌, refl, false, List, [], ◌∷◌, Option, none,
  some, Text, codes, lookup, pos, ok, err, insert, delete, text_eq, show_dec, cut_at, atoi,
}
use lanet.Netip.{v4}
use lanet.Protocol.{member_ipv6, group_ipv6_prefix}
use lanet.Ctl.Node
use lanet.Ctl.Node.{
  token_set, subnet_index_of, addr_for_host, addr6_for_host, next_host_from, next_host, enroll_new,
  enroll, remove_node,
}
use lanet.Ctl.Group.Types.{Group, Statement, JoinInput, ResetInviteInput, KickInput}
use lanet.Ctl.Group.Monad.{require, found, lift, run_statement}
use lanet.Ctl.Group.Methods.{
  new_registry, subnet_base, ipv6_prefix_for_cidr, member_view, create, join, kick, reset_invite,
}
use lanet.Ctl.Group.Run.{step, run}
use lanet.Tests.Net.{test_netip}
use lanet.Netip.{addr_key}
use lanet.Protocol.Addressing.{member_addr}
use lanet.Ctl.Group.Types.{node_error, invalid_invite, invite_expired}
use lanet.Ctl.Group.Methods.{is_owner, expiry}
use lanet.Ctl.Group.Rules.{Reliable}
use lanet.Ctl.Group.Invariant.{IsValid}
use lanet.Ctl.Group.Run.{AllFresh, run-IsValid, run-isolated, new_registry-IsValid}
use lanet.Ctl.Group.Effects.{kick-IsForgotten, kick-IsRefused, join-demotes, IsForgotten, IsRefused}
use lanet.Ctl.Group.Codes.{join-refuses, reset_invite-revokes}
use lanet.Ctl.Group.Expiry.{IsExpiry}
use lanet.Ctl.Group.StoreFailure.{kick-store_failed}
use lanet.Tests.Groups.{
  log_statement, alice, bob, carol, home_code, empty_registry, calls, world, home,
}

log_statement-Reliable : Reliable log_statement
log_statement-Reliable = λ c s. (c ∷ s, refl)

calls-AllFresh : AllFresh test_netip log_statement empty_registry calls
unfolding run step create join new_registry Node.new_registry subnet_base ipv6_prefix_for_cidr
    member_view require found lift run_statement token_set subnet_index_of addr_for_host
    addr6_for_host next_host_from next_host enroll_new enroll member_ipv6 group_ipv6_prefix text_eq
    show_dec lookup insert delete cut_at atoi
calls-AllFresh = (refl, (tt, (refl, tt)))

world-IsValid : IsValid test_netip world
world-IsValid =
    run-IsValid test_netip log_statement empty_registry calls log_statement-Reliable calls-AllFresh
      (new_registry-IsValid test_netip log_statement (some []))

run-IsValid_example : IsValid test_netip (run test_netip log_statement empty_registry calls)
run-IsValid_example =
    run-IsValid test_netip log_statement empty_registry calls log_statement-Reliable calls-AllFresh
      (new_registry-IsValid test_netip log_statement (some []))

run-isolated_example : (codes "g0" ≡ codes "g0") × (bob ≡ bob)
unfolding run step create join new_registry Node.new_registry subnet_base ipv6_prefix_for_cidr
    member_view require found lift run_statement token_set subnet_index_of addr_for_host
    addr6_for_host next_host_from next_host enroll_new enroll member_ipv6 group_ipv6_prefix text_eq
    show_dec lookup insert delete cut_at atoi
run-isolated_example =
    run-isolated test_netip log_statement (some []) calls (codes "g0") (codes "g0") home.0 home.0
      bob bob (v4 (10 ∷ 7 ∷ 0 ∷ 3 ∷ [])) home.1 home.1 (_, refl, refl) (_, refl, refl)

abbrev kick_bob : KickInput
kick_bob = record { operator_peer_id = alice; group_id = codes "g0"; target_peer_id = bob }

abbrev bob_node : Node.Node
bob_node = record {
  peer_id = bob;
  name = codes "b";
  os = [];
  virtual_ip = addr_key (v4 (10 ∷ 7 ∷ 0 ∷ 3 ∷ []));
  virtual_ipv6 = addr_key (member_addr 0 3);
  enrolled_at = pos 2;
}

kick-IsForgotten_example :
    IsForgotten test_netip log_statement world (kick test_netip log_statement kick_bob world).0 bob
unfolding run step create join new_registry Node.new_registry subnet_base ipv6_prefix_for_cidr
    member_view require found lift run_statement token_set subnet_index_of addr_for_host
    addr6_for_host next_host_from next_host enroll_new enroll member_ipv6 group_ipv6_prefix text_eq
    show_dec lookup insert delete cut_at atoi kick remove_node
kick-IsForgotten_example = kick-IsForgotten test_netip log_statement world kick_bob bob_node refl

kick-IsRefused_example : IsRefused test_netip log_statement world (
    kick test_netip log_statement
      (record { operator_peer_id = bob; group_id = codes "g0"; target_peer_id = alice })
      world)
unfolding run step create join new_registry Node.new_registry subnet_base ipv6_prefix_for_cidr
    member_view require found lift run_statement token_set subnet_index_of addr_for_host
    addr6_for_host next_host_from next_host enroll_new enroll member_ipv6 group_ipv6_prefix text_eq
    show_dec lookup insert delete cut_at atoi
kick-IsRefused_example =
    kick-IsRefused test_netip log_statement world
      (record { operator_peer_id = bob; group_id = codes "g0"; target_peer_id = alice })
      world-IsValid refl

abbrev bob_resets : ResetInviteInput
bob_resets = record { operator_peer_id = bob; group_id = codes "g0"; valid_seconds = pos 60 }

abbrev alice_resets : ResetInviteInput
alice_resets = record { operator_peer_id = alice; group_id = codes "g0"; valid_seconds = pos 60 }

reset_invite-revokes_example :
    let r' = (reset_invite test_netip log_statement alice_resets (codes "NEW") (pos 9) world).0 in
    (lookup home.0.invite_code r'.groups_by_invite ≡ none)
    × (lookup (codes "NEW") r'.groups_by_invite ≡ some home.0.id)
    × (grp' : Group) × (lookup home.0.id r'.groups_by_id ≡ some grp')
    × (grp'.invite_code ≡ codes "NEW")
    × IsExpiry (pos 9) (pos 60) grp'.invite_expires
unfolding run step create join new_registry Node.new_registry subnet_base ipv6_prefix_for_cidr
    member_view require found lift run_statement token_set subnet_index_of addr_for_host
    addr6_for_host next_host_from next_host enroll_new enroll member_ipv6 group_ipv6_prefix text_eq
    show_dec lookup insert delete cut_at atoi reset_invite
reset_invite-revokes_example =
    reset_invite-revokes test_netip log_statement world alice_resets (codes "NEW") (pos 9)
      (codes "NEW", expiry (pos 9) (pos 60)) home.0 home.1 refl (omega arith, omega arith) refl

abbrev joins_by : Text → Text → JoinInput
joins_by code peer = record { invite_code = code; peer_id = peer; name = codes "x"; os = [] }

-- The group's code was reset at 9 for 60 seconds.
join-refuses_example :
    let r' = (reset_invite test_netip log_statement alice_resets (codes "NEW") (pos 9) world).0 in
    let later = pos 60000000010 in
    let deadline = pos 9 +ℤ scale (10 ^ 9) (pos 60) in
    (join test_netip log_statement (joins_by home.0.invite_code carol) later r'
      ≡ (r', err invalid_invite))
    × (((deadline <ℤ later)
          × (join test_netip log_statement (joins_by (codes "NEW") carol) later r'
              ≡ (r', err invite_expired)))
        ⊎ ((later ≤ℤ deadline)
            × (((join test_netip log_statement (joins_by (codes "NEW") carol) later r').1
                  ≢ err invite_expired)
                × ((join test_netip log_statement (joins_by (codes "NEW") carol) later r').1
                    ≢ err invalid_invite))))
unfolding run step create join new_registry Node.new_registry subnet_base ipv6_prefix_for_cidr
    member_view require found lift run_statement token_set subnet_index_of addr_for_host
    addr6_for_host next_host_from next_host enroll_new enroll member_ipv6 group_ipv6_prefix text_eq
    show_dec lookup insert delete cut_at atoi reset_invite
join-refuses_example =
    join-refuses test_netip log_statement world alice_resets (codes "NEW") (pos 9)
      (codes "NEW", expiry (pos 9) (pos 60)) home.0 (joins_by home.0.invite_code carol)
      (joins_by (codes "NEW") carol) (pos 60000000010) home.1 refl (omega arith, omega arith)
      (λ e. cc) refl refl refl refl refl

-- The owner of the group joins it by its invite code.
abbrev rejoined :
    (x : Group × Node.Node) × ((join test_netip log_statement
        (joins_by home_code alice)
        (pos 9)
        world).1
      ≡ ok x)
unfolding run step create join new_registry Node.new_registry subnet_base ipv6_prefix_for_cidr
    member_view require found lift run_statement token_set subnet_index_of addr_for_host
    addr6_for_host next_host_from next_host enroll_new enroll member_ipv6 group_ipv6_prefix text_eq
    show_dec lookup insert delete cut_at atoi
rejoined = (_, refl)

join-demotes_example :
    is_owner
      (join test_netip log_statement (joins_by home_code alice) (pos 9) world).0
      alice
      (codes "g0")
    ≡ false
join-demotes_example =
    join-demotes test_netip log_statement world (joins_by home_code alice) (pos 9) rejoined.0
      (codes "g0") rejoined.1

-- A store that is down.
abbrev refuse_statement : Statement → List Statement → Option (List Statement)
refuse_statement c done = none

kick-store_failed_example :
    (kick test_netip log_statement kick_bob (kick test_netip refuse_statement kick_bob world).0).1
    ≡ err (node_error Node.not_member)
unfolding run step create join new_registry Node.new_registry subnet_base ipv6_prefix_for_cidr
    member_view require found lift run_statement token_set subnet_index_of addr_for_host
    addr6_for_host next_host_from next_host enroll_new enroll member_ipv6 group_ipv6_prefix text_eq
    show_dec lookup insert delete cut_at atoi kick remove_node
kick-store_failed_example =
    kick-store_failed test_netip refuse_statement log_statement kick_bob world world-IsValid refl
