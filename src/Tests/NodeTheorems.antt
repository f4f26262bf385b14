-- ===== src/Tests/NodeTheorems.antt =====
-- The theorems on the node registry of one group at a registry with two members.
use lanet.Base.{
  ℕ, Time, ◌≡◌, refl, ◌⊎◌, true, List, [], ◌∷◌, none, some, arith, Text, codes, lookup, insert,
  delete, text_eq, cut_at, atoi, show_dec, pos, ok, err,
}
use lanet.Netip.{Addr, v4, addr_key, subnet_text, contains}
use lanet.Protocol.{member_ipv6, group_ipv6_prefix}
use lanet.Protocol.Addressing.{member_addr}
use lanet.Ctl.Node.{
  Registry, Node, EnrollRequest, new_registry, enroll, enroll_new, next_host, next_host_from,
  addr_for_host, addr6_for_host, subnet_index_of, token_set, remove_node, restore_node,
  restored_ipv6, pool_exhausted,
}
use lanet.Ctl.Node.Hosts.{next_host-cases, Found, AllBusy}
use lanet.Ctl.Node.Invariant.{IsValid, with_new, new_node}
use lanet.Ctl.Node.Calls.{enroll-cases, remove_node-IsValid, restore_node-cases, IsStoredIpv6}
use lanet.Ctl.Node.Run.{
  Call, enrolls, ipv4, step, run, run-IsValid, new_registry-IsValid, run-addresses_unique,
}
use lanet.Ctl.Group.Types.{MemberRow}
use lanet.Ctl.Group.Monad.{lift}
use lanet.Ctl.Group.Restore.{restore_members}
use lanet.Ctl.Group.Restore.Members.{restore_members-Restored, Restored}
use lanet.Tests.Groups.{log_statement, world, home}
use lanet.Tests.Net.{test_netip}

abbrev token : Text
token = codes "T"

abbrev six : Text
six = test_netip.print_prefix (record { addr = member_addr 5 0; bits = 64 })

abbrev first : (r : Registry) × (new_registry test_netip (subnet_text 5) six (token ∷ []) ≡ ok r)
unfolding new_registry run step enroll enroll_new next_host next_host_from addr_for_host
    addr6_for_host subnet_index_of token_set member_ipv6 group_ipv6_prefix text_eq lookup insert
    delete cut_at atoi show_dec
first = (_, refl)

abbrev request : Text → EnrollRequest
request peer = record { token = token; peer_id = peer; name = codes "n"; os = [] }

abbrev calls : List (Time × Call)
calls = (pos 1, enrolls (request (codes "p"))) ∷ (pos 2, enrolls (request (codes "q"))) ∷ []

abbrev two : Registry
two = run test_netip first.0 calls

run-addresses_unique_example : codes "q" ≡ codes "q"
unfolding new_registry run step enroll enroll_new next_host next_host_from addr_for_host
    addr6_for_host subnet_index_of token_set member_ipv6 group_ipv6_prefix text_eq lookup insert
    delete cut_at atoi show_dec
run-addresses_unique_example =
    run-addresses_unique test_netip ipv4 5 six (token ∷ []) first.0 calls (omega arith) first.1
      (codes "q") (codes "q") (v4 (10 ∷ 7 ∷ 5 ∷ 3 ∷ [])) (_, refl, refl) (_, refl, refl)

two-IsValid : IsValid test_netip 5 two
two-IsValid =
    run-IsValid test_netip 5 first.0 calls
      (new_registry-IsValid test_netip 5 six (token ∷ []) first.0 (omega arith) first.1)

next_host-cases_example :
    ((x : ℕ) × (next_host two ≡ ok x) × Found two 5 2 253 x)
    ⊎ ((next_host two ≡ err pool_exhausted) × AllBusy two 5 2 255)
unfolding new_registry run step enroll enroll_new next_host next_host_from addr_for_host
    addr6_for_host subnet_index_of token_set member_ipv6 group_ipv6_prefix text_eq lookup insert
    delete cut_at atoi show_dec
next_host-cases_example = next_host-cases two 5 (omega arith) refl

enroll-cases_example :
    ((m : Node) × (lookup (codes "r") two.nodes ≡ some m)
      × (enroll test_netip two (request (codes "r")) (pos 3) ≡ ok (two, m)))
    ⊎ ((x : ℕ) × Found two 5 2 253 x
        × (enroll test_netip two (request (codes "r")) (pos 3)
            ≡ ok (
              with_new test_netip 5 two (request (codes "r")) (pos 3) x,
              new_node test_netip 5 (request (codes "r")) (pos 3) x,
            ))
        × IsValid test_netip 5 (with_new test_netip 5 two (request (codes "r")) (pos 3) x))
    ⊎ ((enroll test_netip two (request (codes "r")) (pos 3) ≡ err pool_exhausted)
        × AllBusy two 5 2 255)
unfolding new_registry run step enroll enroll_new next_host next_host_from addr_for_host
    addr6_for_host subnet_index_of token_set member_ipv6 group_ipv6_prefix text_eq lookup insert
    delete cut_at atoi show_dec
enroll-cases_example =
    enroll-cases test_netip 5 two two-IsValid (pos 3) (request (codes "r")) (refl, refl, refl, refl)

abbrev q_node : Node
q_node = record {
  peer_id = codes "q";
  name = codes "n";
  os = [];
  virtual_ip = addr_key (v4 (10 ∷ 7 ∷ 5 ∷ 3 ∷ []));
  virtual_ipv6 = addr_key (member_addr 5 3);
  enrolled_at = pos 2;
}

remove_node-IsValid_example :
    (r' : Registry) × (a : Addr) × (b : Addr) × (remove_node test_netip two (codes "q")
      ≡ ok (r', q_node))
    × IsValid test_netip 5 r'
    × (lookup (codes "q") r'.nodes ≡ none)
    × (test_netip.parse_addr q_node.virtual_ip ≡ some a)
    × (lookup (addr_key a) r'.used_ips ≡ none)
    × (test_netip.parse_addr q_node.virtual_ipv6 ≡ some b)
    × (lookup (addr_key b) r'.used_ipv6 ≡ none)
unfolding new_registry run step enroll enroll_new next_host next_host_from addr_for_host
    addr6_for_host subnet_index_of token_set member_ipv6 group_ipv6_prefix text_eq lookup insert
    delete cut_at atoi show_dec
remove_node-IsValid_example =
    remove_node-IsValid test_netip 5 two two-IsValid (pos 3) (codes "q") q_node refl

-- A stored row without an IPv6 address.
abbrev row : Node
row = record {
  peer_id = codes "s";
  name = codes "n";
  os = [];
  virtual_ip = addr_key (v4 (10 ∷ 7 ∷ 5 ∷ 9 ∷ []));
  virtual_ipv6 = [];
  enrolled_at = pos 0;
}

abbrev restored : (r : Registry) × (restore_node test_netip two row (pos 3) ≡ ok r)
unfolding new_registry run step enroll enroll_new next_host next_host_from addr_for_host
    addr6_for_host subnet_index_of token_set member_ipv6 group_ipv6_prefix text_eq lookup insert
    delete cut_at atoi show_dec restore_node restored_ipv6
restored = (_, refl)

restore_node-cases_example :
    IsValid test_netip 5 restored.0
    × (((m : Node) × (lookup row.peer_id two.nodes ≡ some m) × (restored.0 ≡ two))
        ⊎ ((a : Addr) × (b : Addr) × (lookup row.peer_id two.nodes ≡ none)
            × (test_netip.parse_addr row.virtual_ip ≡ some a)
            × (contains two.prefix a ≡ true)
            × IsStoredIpv6 test_netip two row a b
            × (lookup (addr_key a) two.used_ips ≡ none)
            × (lookup (addr_key b) two.used_ipv6 ≡ none)
            × (lookup row.peer_id restored.0.nodes
                ≡ some (record row { virtual_ipv6 = test_netip.print_addr b; enrolled_at = pos 3 }))
            × (lookup (addr_key a) restored.0.used_ips ≡ some row.peer_id)
            × (lookup (addr_key b) restored.0.used_ipv6 ≡ some row.peer_id)))
restore_node-cases_example =
    restore_node-cases test_netip 5 two two-IsValid (pos 3) row restored.0 restored.1

-- A stored row with an IPv6 address.
abbrev member_row : MemberRow
member_row = record {
  peer_id = codes "s";
  name = codes "n";
  os = [];
  virtual_ip = addr_key (v4 (10 ∷ 7 ∷ 5 ∷ 9 ∷ []));
  virtual_ipv6 = addr_key (member_addr 5 9);
  role = [];
}

abbrev rebuilt :
    (nodes : Registry) × ((restore_members test_netip log_statement home.0
        (pos 3)
        two
        (member_row ∷ [])
        world).1
      ≡ ok nodes)
unfolding new_registry run step enroll enroll_new next_host next_host_from addr_for_host
    addr6_for_host subnet_index_of token_set member_ipv6 group_ipv6_prefix text_eq lookup insert
    delete cut_at atoi show_dec restore_node restored_ipv6 restore_members lift
rebuilt = (_, refl)

restore_members-Restored_example : Restored test_netip 5 (member_row ∷ []) two rebuilt.0
restore_members-Restored_example =
    restore_members-Restored test_netip log_statement 5 home.0 (pos 3) (member_row ∷ []) two
      rebuilt.0 world two-IsValid rebuilt.1
