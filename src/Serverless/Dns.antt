-- ===== src/Serverless/Dns.antt =====
-- pkg/serverless/dns.go: the answers of the local name server to one message. The listeners around
-- it only carry messages. `members` is the result of the callback, and `none` stands for no callback.
pub mod Names
pub mod Answers
pub mod Lookup
use lanet.Base.{
  ℕ, zero, suc, ◌+◌, ◌-◌, ◌*◌, ◌/◌, ◌%◌, Bool, true, false, ◌&&◌, ◌||◌, not, Option, none, some,
  List, [], ◌∷◌, ◌++◌, ltb, leb, ◌==◌, if◌then◌else◌, length, get_or, take, drop, any, Text, codes,
  is_empty, text_eq, trim_space, to_lower, Result, ok, err,
}
use lanet.Serverless.Hostnames.{MemberRef}
use lanet.Serverless.Hostnames.Targets.{
  Ip, four, sixteen, to4, ResolveError, trim_suffix, dot_domain, resolve_target,
}

-- `dnsMaxMsgSize`.
abbrev pub dns_max_msg_size : ℕ
dns_max_msg_size = 65535

-- `dnsRCODEFormatError`, `dnsRCODENXDomain` and `dnsRCODENotImp`.
abbrev pub format_error : ℕ
format_error = 1

abbrev pub nx_domain : ℕ
nx_domain = 3

abbrev pub not_imp : ℕ
not_imp = 4

abbrev pub put_u16 : ℕ → List ℕ
put_u16 n = n / 256 % 256 ∷ n % 256 ∷ []

abbrev pub u16_of : List ℕ → ℕ → ℕ
u16_of msg i = get_or msg i 0 * 256 + get_or msg (suc i) 0

abbrev pub is_name_byte : ℕ → Bool
is_name_byte c =
    (leb b'a' c && leb c b'z')
    || (leb b'A' c && leb c b'Z')
    || (leb b'0' c && leb c b'9')
    || (c == b'-')
    || (c == b'_')

unfoldable pub all_name_bytes : Text → Bool
all_name_bytes [] = true
all_name_bytes (c ∷ s) = is_name_byte c && all_name_bytes s

-- `validDNSLabelBytes`.
unfoldable pub valid_dns_label_bytes : Text → Bool
valid_dns_label_bytes s = not (is_empty s) && all_name_bytes s

abbrev pub with_label : Text → Text → Text
with_label sb label = if is_empty sb then label else sb ++ b'.' ∷ label

-- The loop of `parseDNSName`, with the number of labels that may still come, and with the bytes of
-- the message from the offset on.
unfoldable pub parse_from : ℕ → Text → ℕ → List ℕ → Option (Text × ℕ)
parse_from left sb off [] = none
parse_from zero sb off (l ∷ rest) = if l == 0 then some (sb, off + 1) else none
parse_from (suc left) sb off (l ∷ rest) =
    let next = parse_from left (with_label sb (take l rest)) (off + 1 + l) (drop l rest) in
    if l == 0
    then some (sb, off + 1)
    else if leb 192 l || ltb 63 l || ltb (length rest) l
    then none
    else if valid_dns_label_bytes (take l rest)
    then next
    else none

-- `parseDNSName`: of more than sixteen labels it refuses the name.
unfoldable pub parse_dns_name : List ℕ → ℕ → Option (Text × ℕ)
parse_dns_name msg off = parse_from 16 [] off (drop off msg)

-- What a message gives: nothing, an answer, or a panic of `Hostnames`.
pub data Reply : Type 0 where
  dropped : Reply
  panics : Reply
  reply : List ℕ → Reply

-- The twelve bytes of the header: the id of the query, the flags with the code, and the two counts.
abbrev pub header : List ℕ → ℕ → ℕ → ℕ → List ℕ
header query rcode questions answers =
    take 2 query
    ++ put_u16 (33792 + rcode)
    ++ put_u16 questions
    ++ put_u16 answers
    ++ 0 ∷ 0 ∷ 0 ∷ 0 ∷ []

-- `errorResponse`.
unfoldable pub error_response : List ℕ → ℕ → Reply
error_response query rcode =
    if ltb (length query) 12 then dropped else reply (header query rcode 0 0)

abbrev pub is_lanet : List ℕ → Bool
is_lanet b =
    (get_or b 0 0 == 0xfd)
    && (get_or b 1 0 == 0)
    && (get_or b 2 0 == 0x6c)
    && (get_or b 3 0 == 0x61)
    && (get_or b 4 0 == 0x6e)
    && (get_or b 5 0 == 0x65)

-- The address of an AAAA answer: sixteen bytes in the prefix of the network.
abbrev pub lanet_ip6 : Option Ip → Option (List ℕ)
lanet_ip6 (some (sixteen b)) = if is_lanet b then some b else none
lanet_ip6 _ = none

unfoldable pub has_suffix : Text → Text → Bool
has_suffix suffix [] = is_empty suffix
has_suffix suffix (c ∷ s) = text_eq (c ∷ s) suffix || has_suffix suffix s

-- An answer record behind the name pointer: type, class IN, no lifetime, the address.
abbrev pub answer : ℕ → List ℕ → List ℕ
answer qtype ip =
    0xC0 ∷ 0x0C ∷ put_u16 qtype ++ put_u16 1 ++ 0 ∷ 0 ∷ 0 ∷ 0 ∷ put_u16 (length ip) ++ ip

-- The echo of the question, which ends at an offset.
abbrev pub question : List ℕ → ℕ → List ℕ
question query until = take (until - 12) (drop 12 query)

-- What is answered for a member, by the address found.
unfoldable pub answer_ip : List ℕ → ℕ → ℕ → Option (List ℕ) → Reply
answer_ip query until qtype none =
    if qtype == 28
    then reply (header query 0 1 0 ++ question query until)
    else reply (header query nx_domain 1 0 ++ question query until)
answer_ip query until qtype (some ip) =
    reply (header query 0 1 1 ++ question query until ++ answer qtype ip)

abbrev pub refused : Option (Result ResolveError MemberRef)
refused = some (err ResolveError.name_unknown)

module _ (parse_ip : Text → Option Ip) where
  abbrev pub address_for : ℕ → MemberRef → Option (List ℕ)
  address_for qtype m =
      if qtype == 1 then to4 (parse_ip m.virtual_ip) else lanet_ip6 (parse_ip m.virtual_ipv6)

  unfoldable pub answer_member : List ℕ → ℕ → ℕ → Option (Result ResolveError MemberRef) → Reply
  answer_member query until qtype none = panics
  answer_member query until qtype (some (err e)) =
      reply (header query nx_domain 1 0 ++ question query until)
  answer_member query until qtype (some (ok m)) = answer_ip query until qtype (address_for qtype m)

  -- `resolve`, whose refusals stand as an error.
  unfoldable pub resolve : Option (List MemberRef) → Text → Option (Result ResolveError MemberRef)
  resolve none name = refused
  resolve (some []) name = refused
  resolve (some (m ∷ members)) name =
      let trimmed = to_lower (trim_suffix (codes ".") (trim_space name)) in
      if is_empty trimmed
      then refused
      else if not (has_suffix dot_domain trimmed) && any (λ c. c == b'.') trimmed
      then refused
      else resolve_target parse_ip (m ∷ members) name

  -- `handleQuery` behind the name.
  unfoldable pub handle_name : Option (List MemberRef) → List ℕ → Option (Text × ℕ) → Reply
  handle_name members query none = dropped
  handle_name members query (some (name, off)) =
      let qtype = u16_of query off in
      let qclass = u16_of query (off + 2) in
      if ltb (length query) (off + 4)
      then dropped
      else if not (qclass == 1) || (not (qtype == 1) && not (qtype == 28))
      then reply (header query not_imp 1 0 ++ question query (off + 4))
      else answer_member query (off + 4) qtype (resolve members name)

  -- `handleQuery`.
  unfoldable pub handle_query : Option (List MemberRef) → List ℕ → Reply
  handle_query members query =
      if ltb (length query) 12 || ltb dns_max_msg_size (length query)
      then dropped
      else if not (u16_of query 4 == 1)
      then error_response query format_error
      else handle_name members query (parse_dns_name query 12)
