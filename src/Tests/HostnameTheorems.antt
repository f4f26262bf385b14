-- ===== src/Tests/HostnameTheorems.antt =====
-- The theorems on names and name queries at two members that are both called Box, and at one whose
-- address is an IPv4 address.
use lanet.Base.{
  ℕ, ◌≤◌, ◌≡◌, ◌≢◌, refl, true, Option, none, some, List, [], ◌∷◌, ◌++◌, arith, length,
  if◌then◌else◌, All, Text, codes, Dict, lookup, ok, text_eq, text_lt, to_lower, trim_space,
  trim_byte, trim_byte_left, trim_byte_right, insert, has,
}
use lanet.Serverless.Hostnames.{
  MemberRef, is_label_byte, hyphenated, collapsed, dns_label, free_from, free_label, place_member,
  sort_members, base_label, names_from, hostnames,
}
use lanet.Serverless.Hostnames.Distinct.{hostnames-distinct}
use lanet.Serverless.Dns.{reply, handle_query}
use lanet.Serverless.Dns.Names.{encoded}
use lanet.Serverless.Dns.Answers.{ask, answered}
use lanet.Serverless.Dns.Lookup.{full_labels, handle_query-member}
use lanet.Serverless.Hostnames.Targets.{Ip, four, dot_domain, hosts_of, resolve_target}
use lanet.Serverless.Hostnames.Targets.RoundTrip.{resolve_target-full_name}
use lanet.Serverless.Hostnames.Bounds.{dns_label-IsLabel}

abbrev first : MemberRef
first = record { peer_id = codes "12D3a"; name = codes "Box"; virtual_ip = []; virtual_ipv6 = [] }

abbrev second : MemberRef
second = record { peer_id = codes "12D3b"; name = codes "Box"; virtual_ip = []; virtual_ipv6 = [] }

abbrev members : List MemberRef
members = second ∷ first ∷ []

abbrev no_ip4 : Text → Option (List ℕ)
no_ip4 t = none

abbrev no_ip : Text → Option Ip
no_ip t = none

hostnames-distinct_example :
    (hosts : Dict Text) × (hostnames no_ip4 members ≡ some hosts)
    × All (λ m. lookup m.peer_id hosts ≢ none) members
    × ((id id' label : Text)
        → lookup id hosts ≡ some label
        → lookup id' hosts ≡ some label
        → id ≡ id')
hostnames-distinct_example = hostnames-distinct no_ip4 members (omega arith, (omega arith, tt))

abbrev hosts : (h : Dict Text) × (hosts_of no_ip members ≡ some h)
unfolding hostnames names_from base_label dns_label hyphenated collapsed free_label free_from
    sort_members place_member insert has text_eq text_lt to_lower trim_space trim_byte
    trim_byte_left trim_byte_right
hosts = (_, refl)

resolve_target-full_name_example :
    resolve_target no_ip members (codes "box-2d3b" ++ dot_domain) ≡ some (ok second)
unfolding hosts lookup text_eq
resolve_target-full_name_example =
    resolve_target-full_name no_ip members second hosts.0 (codes "box-2d3b")
      (omega arith, (omega arith, tt)) refl hosts.1 refl
      (refl, (refl, (refl, (refl, (refl, (refl, (refl, (refl, tt)))))))) refl refl

dns_label-IsLabel_example :
    (length (dns_label (codes " My_Box! ")) ≤ 63)
    × All (λ c. is_label_byte c ≡ true) (dns_label (codes " My_Box! "))
dns_label-IsLabel_example = dns_label-IsLabel (codes " My_Box! ")

-- One text is an IPv4 address.
abbrev parse_text : Text → Option Ip
parse_text t = if text_eq t (codes "10.7.1.2") then some (four (10 ∷ 7 ∷ 1 ∷ 2 ∷ [])) else none

abbrev box : MemberRef
box = record {
  peer_id = codes "12D3a";
  name = codes "Box";
  virtual_ip = codes "10.7.1.2";
  virtual_ipv6 = [];
}

abbrev box_hosts : (h : Dict Text) × (hosts_of parse_text (box ∷ []) ≡ some h)
unfolding hostnames names_from base_label dns_label hyphenated collapsed free_label sort_members
    insert has text_eq to_lower trim_space trim_byte trim_byte_left trim_byte_right place_member
box_hosts = (_, refl)

abbrev box_name : Text
box_name = codes "box"

handle_query-member_example :
    handle_query parse_text
      (some (box ∷ []))
      (ask 171 205 1 0 (0 ∷ 0 ∷ 0 ∷ 0 ∷ 0 ∷ 0 ∷ []) (encoded (full_labels box_name)) [])
    ≡ reply (answered 171 205 (encoded (full_labels box_name)) (10 ∷ 7 ∷ 1 ∷ 2 ∷ []))
unfolding box_hosts lookup text_eq
handle_query-member_example =
    handle_query-member parse_text (box ∷ []) box box_hosts.0 box_name (10 ∷ 7 ∷ 1 ∷ 2 ∷ []) 171 205
      1 0 0 0 0 0 0 0 [] (omega arith, tt) refl box_hosts.1 refl (refl, (refl, (refl, tt))) refl
      (omega arith) refl refl (omega arith)
