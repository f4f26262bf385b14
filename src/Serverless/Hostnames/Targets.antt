-- ===== src/Serverless/Hostnames/Targets.antt =====
-- pkg/serverless/vaddr.go: `ResolveTarget`, from a text to a member.
pub mod RoundTrip
use lanet.Base.{
  ℕ, ◌+◌, Bool, true, false, ◌&&◌, not, Option, none, some, List, [], ◌∷◌, ◌++◌, if◌then◌else◌, map,
  filter, Text, codes, is_empty, text_eq, trim_space, to_lower, has_prefix, Dict, lookup, Result,
  ok, err,
}
use lanet.Serverless.Hostnames.{virtual_domain, MemberRef, hostnames}

-- What net.ParseIP returns: an address that `To4` has a form of, with its four bytes, or one that it
-- has not, with its sixteen.
pub data Ip : Type 0 where
  four : List ℕ → Ip
  sixteen : List ℕ → Ip

abbrev pub to4 : Option Ip → Option (List ℕ)
to4 none = none
to4 (some (four bytes)) = some bytes
to4 (some (sixteen bytes)) = none

abbrev pub is_four : List ℕ → Option Ip → Bool
is_four bytes (some (four other)) = text_eq other bytes
is_four bytes _ = false

abbrev pub is_sixteen : List ℕ → Option Ip → Bool
is_sixteen bytes (some (sixteen other)) = text_eq other bytes
is_sixteen bytes _ = false

pub data ResolveError : Type 0 where
  empty_target : ResolveError
  ip_unknown : ResolveError
  ip_ambiguous : ResolveError
  label_ambiguous : ResolveError
  name_unknown : ResolveError
  name_ambiguous : List Text → ResolveError

-- `strings.TrimSuffix`.
unfoldable pub trim_suffix : Text → Text → Text
trim_suffix suffix [] = []
trim_suffix suffix (c ∷ s) =
    let rest = trim_suffix suffix s in if text_eq (c ∷ s) suffix then [] else c ∷ rest

abbrev pub cut_here : Bool → ℕ → Option Text → Option Text
cut_here here c (some before) = some (c ∷ before)
cut_here here c none = if here then some [] else none

-- The text before the last `part`, as by `strings.LastIndex`.
unfoldable pub cut_last : Text → Text → Option Text
cut_last part [] = if is_empty part then some [] else none
cut_last part (c ∷ s) = cut_here (has_prefix part (c ∷ s)) c (cut_last part s)

abbrev pub or_whole : Text → Option Text → Text
or_whole s none = s
or_whole s (some before) = before

abbrev pub dot_domain : Text
dot_domain = codes "." ++ virtual_domain

-- The label that a target asks for.
unfoldable pub target_label : Text → Text
target_label target =
    let short = trim_suffix dot_domain (trim_suffix (codes ".") (to_lower target)) in
    or_whole short (cut_last dot_domain short)

abbrev pub is_label : Text → Option Text → Bool
is_label label none = is_empty label
is_label label (some other) = text_eq other label

abbrev pub full_name : Option Text → Text
full_name none = dot_domain
full_name (some label) = label ++ dot_domain

-- The end of a search: one hit is the member.
abbrev pub one_hit :
    List MemberRef → Result ResolveError MemberRef → ResolveError → Result ResolveError MemberRef
one_hit [] otherwise several = otherwise
one_hit (m ∷ []) otherwise several = ok m
one_hit (m ∷ n ∷ rest) otherwise several = err several

module _ (parse_ip : Text → Option Ip) where
  abbrev pub hosts_of : List MemberRef → Option (Dict Text)
  hosts_of members = hostnames (λ t. to4 (parse_ip t)) members

  -- Whether a member has the address.
  unfoldable pub has_ip : Ip → MemberRef → Bool
  has_ip (four bytes) m = is_four bytes (parse_ip m.virtual_ip)
  has_ip (sixteen bytes) m = is_sixteen bytes (parse_ip m.virtual_ipv6)

  -- The part of `ResolveTarget` for an address.
  unfoldable pub resolve_ip : List MemberRef → Ip → Result ResolveError MemberRef
  resolve_ip members ip = one_hit (filter (has_ip ip) members) (err ip_unknown) ip_ambiguous

  -- The search by the original name, with the hits and the names of the members; no names are a
  -- panic of `Hostnames`, which is called only for several hits.
  unfoldable pub resolve_hits :
      List MemberRef → Option (Dict Text) → Option (Result ResolveError MemberRef)
  resolve_hits [] hosts = some (err name_unknown)
  resolve_hits (m ∷ []) hosts = some (ok m)
  resolve_hits (m ∷ n ∷ rest) none = none
  resolve_hits (m ∷ n ∷ rest) (some hosts) =
      some (err (name_ambiguous (map (λ hit. full_name (lookup hit.peer_id hosts)) (m ∷ n ∷ rest))))

  unfoldable pub resolve_name : List MemberRef → Text → Option (Result ResolveError MemberRef)
  resolve_name members target =
      resolve_hits (filter (λ m. text_eq m.name target) members) (hosts_of members)

  unfoldable pub resolve_labelled :
      List MemberRef → Text → List MemberRef → Option (Result ResolveError MemberRef)
  resolve_labelled members target [] = resolve_name members target
  resolve_labelled members target (m ∷ []) = some (ok m)
  resolve_labelled members target (m ∷ n ∷ rest) = some (err label_ambiguous)

  -- The search by label; no names are a panic.
  unfoldable pub resolve_label :
      List MemberRef → Text → Text → Option (Dict Text) → Option (Result ResolveError MemberRef)
  resolve_label members target label none = none
  resolve_label members target label (some hosts) =
      resolve_labelled members target
        (filter (λ m. is_label label (lookup m.peer_id hosts)) members)

  unfoldable pub resolve_text : List MemberRef → Text → Option (Result ResolveError MemberRef)
  resolve_text members target =
      let label = target_label target in
      if is_empty label
      then resolve_name members target
      else resolve_label members target label (hosts_of members)

  unfoldable pub resolve_parsed :
      List MemberRef → Text → Option Ip → Option (Result ResolveError MemberRef)
  resolve_parsed members target none = resolve_text members target
  resolve_parsed members target (some ip) = some (resolve_ip members ip)

  -- `ResolveTarget`; no result is a panic.
  unfoldable pub resolve_target : List MemberRef → Text → Option (Result ResolveError MemberRef)
  resolve_target members raw =
      let target = trim_space raw in
      if is_empty target
      then some (err empty_target)
      else resolve_parsed members target (parse_ip target)
