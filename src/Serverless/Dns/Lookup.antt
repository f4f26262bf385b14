-- ===== src/Serverless/Dns/Lookup.antt =====
-- From a question for a member's full name to the address of that member.
use lanet.Base.{
  ℕ, ◌+◌, ◌≤◌, ◌≡◌, refl, ap, ◌∙◌, true, false, ◌||◌, some, none, Option, List, [], ◌∷◌, ◌++◌,
  arith, ltb, length, length-append, filter, All, All-append, Text, codes, is_empty, text_eq,
  text_eq_refl, trim_space, IsSolid, trim_space-IsSolid, to_lower, Dict, lookup, ok,
}
use lanet.Serverless.Hostnames.{MemberRef, virtual_domain}
use lanet.Serverless.Hostnames.Targets.{Ip, dot_domain, trim_suffix, hosts_of, resolve_target}
use lanet.Serverless.Hostnames.Targets.RoundTrip.{
  IsLabel, to_lower-IsLabel, IsLabel-IsSolid, trim_suffix-dot, append-full,
  resolve_target-full_name,
}
use lanet.Serverless.Dns.{
  reply, all_name_bytes, valid_dns_label_bytes, has_suffix, address_for, answer_member, handle_name,
  resolve, handle_query, parse_dns_name,
}
use lanet.Serverless.Dns.Names.{encoded, dotted, dotted_from, IsDnsLabel, parse_dns_name-encoded}
use lanet.Serverless.Dns.Answers.{ask, answered, handle_name-ask, answer_member-ask}

has_suffix-append : (suffix s : Text) → has_suffix suffix (s ++ suffix) ≡ true
unfolding has_suffix
has_suffix-append [] [] = refl
has_suffix-append (c ∷ t) [] = ground (arith, text_eq_refl (c ∷ t))
has_suffix-append suffix (c ∷ s) = ground (arith, has_suffix-append suffix s)

-- The answer for a full name is that of `ResolveTarget`.
resolve-full :
    (parse_ip : Text → Option Ip) (m : MemberRef) (members : List MemberRef) (label : Text)
    → IsLabel label
    → is_empty label ≡ false
    → resolve parse_ip (some (m ∷ members)) (label ++ dot_domain)
      ≡ resolve_target parse_ip (m ∷ members) (label ++ dot_domain)
unfolding resolve to_lower
resolve-full parse_ip m members label plain full =
    let target = label ++ dot_domain in
    let solid : IsSolid target =
      All-append _ label dot_domain (IsLabel-IsSolid label plain)
        (refl, (refl, (refl, (refl, (refl, (refl, tt)))))) in
    let trimmed : to_lower (trim_suffix (codes ".") (trim_space target)) ≡ target =
      ap (λ t. to_lower (trim_suffix (codes ".") t)) (trim_space-IsSolid target solid)
      ∙ (ap to_lower (trim_suffix-dot label plain) ∙ to_lower-IsLabel label dot_domain plain) in
    rw (trimmed, append-full label dot_domain full, has_suffix-append dot_domain label) refl

all_name_bytes-IsLabel : (s : Text) → IsLabel s → all_name_bytes s ≡ true
unfolding all_name_bytes
all_name_bytes-IsLabel [] h = refl
all_name_bytes-IsLabel (c ∷ s) h = ground (arith, h.0, all_name_bytes-IsLabel s h.1)

label-IsDnsLabel : (s : Text) → IsLabel s → is_empty s ≡ false → length s ≤ 63 → IsDnsLabel s
unfolding valid_dns_label_bytes
label-IsDnsLabel s h full short = (short, ground (arith, all_name_bytes-IsLabel s h))

abbrev pub full_labels : Text → List Text
full_labels label = label ∷ virtual_domain ∷ []

-- The name of a question for a label in the domain.
read-full :
    (before rest : List ℕ) (label : Text)
    → IsLabel label
    → is_empty label ≡ false
    → length label ≤ 63
    → parse_dns_name (before ++ (encoded (full_labels label) ++ rest)) (length before)
      ≡ some (label ++ dot_domain, length before + length (encoded (full_labels label)))
unfolding valid_dns_label_bytes all_name_bytes dotted_from
read-full before rest label plain full short =
    let same : dotted (full_labels label) ≡ label ++ dot_domain = ground (arith, full) in
    parse_dns_name-encoded before rest (full_labels label) (omega arith)
      (label-IsDnsLabel label plain full short, ((omega arith, refl), tt))
    ∙ ap (λ t. some (t, length before + length (encoded (full_labels label)))) same

-- The length of a question.
length-ask :
    (id0 id1 f0 f1 a b c d e f : ℕ) (label tail : List ℕ)
    → length (ask id0 id1 f0 f1 (a ∷ b ∷ c ∷ d ∷ e ∷ f ∷ []) (encoded (full_labels label)) tail)
      ≡ 24 + length label + length tail
unfolding encoded
length-ask id0 id1 f0 f1 a b c d e f label tail =
    let name = encoded (full_labels label) in
    omega (
      arith,
      length-append name (0 ∷ 1 ∷ 0 ∷ 1 ∷ tail),
      length-append label (5 ∷ virtual_domain ++ 0 ∷ []),
    )

-- The member table is not empty when it has the member.
resolve-member :
    (parse_ip : Text → Option Ip) (members : List MemberRef) (m : MemberRef) (label : Text)
    → filter (λ n. text_eq n.peer_id m.peer_id) members ≡ m ∷ []
    → IsLabel label
    → is_empty label ≡ false
    → resolve parse_ip (some members) (label ++ dot_domain)
      ≡ resolve_target parse_ip members (label ++ dot_domain)
resolve-member parse_ip [] m label once plain full = absurd cc
resolve-member parse_ip (n ∷ members) m label once plain full =
    resolve-full parse_ip n members label plain full

-- A question of class IN for the IPv4 address of a member's full name, in a message of any id,
-- flags and counts with at most 1000 bytes behind it, is answered with the id, the question and the
-- address, where the member is the only one with its peer id, its label is a text of 1 to 63
-- lower-case letters, digits and hyphens, peer ids have at least four bytes, and Go reads no IP in
-- the name.
pub handle_query-member :
    (parse_ip : Text → Option Ip) (members : List MemberRef) (m : MemberRef) (hosts : Dict Text)
    (label : Text) (ip : List ℕ) (id0 id1 f0 f1 a b c d e f : ℕ) (tail : List ℕ)
    → All (λ n. 4 ≤ length n.peer_id) members
    → filter (λ n. text_eq n.peer_id m.peer_id) members ≡ m ∷ []
    → hosts_of parse_ip members ≡ some hosts
    → lookup m.peer_id hosts ≡ some label
    → IsLabel label
    → is_empty label ≡ false
    → length label ≤ 63
    → parse_ip (label ++ dot_domain) ≡ none
    → address_for parse_ip 1 m ≡ some ip
    → length tail ≤ 1000
    → handle_query parse_ip
        (some members)
        (ask id0 id1 f0 f1 (a ∷ b ∷ c ∷ d ∷ e ∷ f ∷ []) (encoded (full_labels label)) tail)
      ≡ reply (answered id0 id1 (encoded (full_labels label)) ip)
unfolding handle_query
handle_query-member parse_ip members m hosts label ip id0 id1 f0 f1 a b c d e f tail long once named
      at plain full short no_ip found few =
    let name = encoded (full_labels label) in
    let msg = ask id0 id1 f0 f1 (a ∷ b ∷ c ∷ d ∷ e ∷ f ∷ []) name tail in
    let before = id0 ∷ id1 ∷ f0 ∷ f1 ∷ 0 ∷ 1 ∷ a ∷ b ∷ c ∷ d ∷ e ∷ f ∷ [] in
    let size = length-ask id0 id1 f0 f1 a b c d e f label tail in
    let fits : (ltb (length msg) 12 || ltb 65535 (length msg)) ≡ false = ground (arith, size) in
    let target : resolve parse_ip (some members) (label ++ dot_domain) ≡ some (ok m) =
      resolve-member parse_ip members m label once plain full
      ∙ resolve_target-full_name parse_ip members m hosts label long once named at plain full
          no_ip in
    rw fits (
      ap (handle_name parse_ip (some members) msg)
        (read-full before (0 ∷ 1 ∷ 0 ∷ 1 ∷ tail) label plain full short)
      ∙ (handle_name-ask parse_ip (some members) id0 id1 f0 f1 a b c d e f name tail
            (label ++ dot_domain)
          ∙ (ap (answer_member parse_ip msg (12 + length name + 4) 1) target
              ∙ answer_member-ask parse_ip (some members) id0 id1 f0 f1 a b c d e f name tail ip m
                  found)))
