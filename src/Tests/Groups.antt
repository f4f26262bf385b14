-- ===== src/Tests/Groups.antt =====
-- Two groups with three peers, as a run of the group registry makes them.
use lanet.Base.{
  Time, ◌≡◌, refl, List, [], ◌∷◌, Option, some, Text, codes, lookup, pos, insert, delete, text_eq,
  show_dec, cut_at, atoi,
}
use lanet.Protocol.{member_ipv6, group_ipv6_prefix}
use lanet.Ctl.Node
use lanet.Ctl.Node.{
  token_set, subnet_index_of, addr_for_host, addr6_for_host, next_host_from, next_host, enroll_new,
  enroll, remove_node,
}
use lanet.Ctl.Group.Types.{Group, Registry, Statement}
use lanet.Ctl.Group.Monad.{require, found, lift, run_statement}
use lanet.Ctl.Group.Methods.{
  new_registry, subnet_base, ipv6_prefix_for_cidr, member_view, create, join,
}
use lanet.Ctl.Group.Run.{Call, creates, joins, step, run}
use lanet.Tests.Net.{test_netip}

-- A store that keeps the statements it is given.
abbrev pub log_statement : Statement → List Statement → Option (List Statement)
log_statement c done = some (c ∷ done)

abbrev pub alice : Text
alice = codes "alice"

abbrev pub bob : Text
bob = codes "bob"

abbrev pub carol : Text
carol = codes "carol"

abbrev pub home_code : Text
home_code = codes "HOME"

abbrev pub empty_registry : Registry (List Statement)
empty_registry = new_registry (some [])

abbrev pub calls : List (Time × Call)
calls =
    (
      pos 1,
      creates (record { peer_id = alice; name = codes "a"; os = []; group_name = codes "home" })
          (codes "r1") home_code,
    )
    ∷ (pos 2, joins (record { invite_code = home_code; peer_id = bob; name = codes "b"; os = [] }))
    ∷ (
      pos 3,
      creates (record { peer_id = carol; name = codes "c"; os = []; group_name = codes "work" })
          (codes "r2") (codes "WORK"),
    )
    ∷ []

abbrev pub world : Registry (List Statement)
world = run test_netip log_statement empty_registry calls

-- The group of a key, known to be there.
abbrev pub GroupAt : Registry (List Statement) → Text → Type 0
GroupAt r g = (grp : Group) × (lookup g r.groups_by_id ≡ some grp)

abbrev pub home : GroupAt world (codes "g0")
unfolding run step create join new_registry Node.new_registry subnet_base ipv6_prefix_for_cidr
    member_view require found lift run_statement token_set subnet_index_of addr_for_host
    addr6_for_host next_host_from next_host enroll_new enroll member_ipv6 group_ipv6_prefix text_eq
    show_dec lookup insert delete cut_at atoi
home = (_, refl)

abbrev pub work : GroupAt world (codes "g1")
unfolding run step create join new_registry Node.new_registry subnet_base ipv6_prefix_for_cidr
    member_view require found lift run_statement token_set subnet_index_of addr_for_host
    addr6_for_host next_host_from next_host enroll_new enroll member_ipv6 group_ipv6_prefix text_eq
    show_dec lookup insert delete cut_at atoi
work = (_, refl)
