-- ===== src/Serverless/Hostnames/Targets/RoundTrip.antt =====
-- The full name of a member is resolved to that member.
use lanet.Base.{
  ◌≤◌, ◌≡◌, refl, ap, subst, ◌∙◌, inl, inr, Bool, true, false, Option, none, some, List, [], ◌∷◌,
  ◌++◌, arith, filter, length, All, All-append, Text, codes, is_empty, text_eq, text_eq_iff,
  IsSolid, trim_space-IsSolid, to_lower, has_prefix, Dict, lookup, ok, Option-cases,
}
use lanet.Serverless.Hostnames.{MemberRef, is_label_byte}
use lanet.Serverless.Hostnames.Distinct.{hostnames-distinct}
use lanet.Serverless.Hostnames.Targets.{
  Ip, to4, trim_suffix, cut_last, or_whole, dot_domain, target_label, is_label, hosts_of,
  resolve_labelled, resolve_label, resolve_text, resolve_parsed, resolve_target,
}

abbrev pub IsLabel : Text → Type 0
IsLabel s = All (λ c. is_label_byte c ≡ true) s

pub to_lower-IsLabel : (s t : Text) → IsLabel s → to_lower (s ++ t) ≡ s ++ to_lower t
unfolding to_lower
to_lower-IsLabel [] t h = refl
to_lower-IsLabel (c ∷ s) t h = ground (arith, h.0, to_lower-IsLabel s t h.1)

pub IsLabel-IsSolid : (s : Text) → IsLabel s → IsSolid s
IsLabel-IsSolid [] h = tt
IsLabel-IsSolid (c ∷ s) h = (ground (arith, h.0), IsLabel-IsSolid s h.1)

-- A name that ends in the domain does not end in a dot.
pub trim_suffix-dot :
    (s : Text) → IsLabel s → trim_suffix (codes ".") (s ++ dot_domain) ≡ s ++ dot_domain
unfolding trim_suffix text_eq
trim_suffix-dot [] h = refl
trim_suffix-dot (c ∷ s) h = ground (arith, h.0, trim_suffix-dot s h.1)

trim_suffix-domain : (s : Text) → IsLabel s → trim_suffix dot_domain (s ++ dot_domain) ≡ s
unfolding trim_suffix text_eq
trim_suffix-domain [] h = refl
trim_suffix-domain (c ∷ s) h = ground (arith, h.0, trim_suffix-domain s h.1)

cut_last-label : (s : Text) → IsLabel s → cut_last dot_domain s ≡ none
unfolding cut_last has_prefix
cut_last-label [] h = refl
cut_last-label (c ∷ s) h = ground (arith, h.0, cut_last-label s h.1)

target_label-full : (label : Text) → IsLabel label → target_label (label ++ dot_domain) ≡ label
unfolding target_label to_lower
target_label-full label h =
    let same : trim_suffix dot_domain (trim_suffix (codes ".") (to_lower (label ++ dot_domain)))
        ≡ label =
      ap (λ t. trim_suffix dot_domain (trim_suffix (codes ".") t))
        (to_lower-IsLabel label dot_domain h)
      ∙ (ap (trim_suffix dot_domain) (trim_suffix-dot label h) ∙ trim_suffix-domain label h) in
    ap (λ t. or_whole t (cut_last dot_domain t)) same ∙ ap (or_whole label) (cut_last-label label h)

filter-same :
    (p q : MemberRef → Bool) (ms : List MemberRef)
    → ((m : MemberRef) → p m ≡ q m)
    → filter p ms ≡ filter q ms
filter-same p q [] h = refl
filter-same p q (m ∷ ms) h = ground (arith, h m, filter-same p q ms h)

-- The members with a label are those with the peer id that has it.
is_label-lookup :
    (hosts : Dict Text) (id label : Text)
    → is_empty label ≡ false
    → lookup id hosts ≡ some label
    → ((id' l : Text) → lookup id hosts ≡ some l → lookup id' hosts ≡ some l → id ≡ id')
    → (id' : Text) → is_label label (lookup id' hosts) ≡ text_eq id' id
is_label-lookup hosts id label full at distinct id' = elim (Option-cases (lookup id' hosts)) [
  | inl absent ↦ ap (is_label label) absent ∙ ground (arith, text_eq_iff id' id)
  | inr (other, e) ↦
      ap (is_label label) e
      ∙ ground (arith, text_eq_iff id' id, text_eq_iff other label, distinct id' label)
]

pub append-full : (s t : Text) → is_empty s ≡ false → is_empty (s ++ t) ≡ false
append-full [] t h = absurd cc
append-full (c ∷ s) t h = refl

module _ (parse_ip : Text → Option Ip) where
  resolve-labelled :
      (members : List MemberRef) (m : MemberRef) (hosts : Dict Text) (label : Text)
      → filter (λ n. text_eq n.peer_id m.peer_id) members ≡ m ∷ []
      → hosts_of parse_ip members ≡ some hosts
      → ((id id' l : Text) → lookup id hosts ≡ some l → lookup id' hosts ≡ some l → id ≡ id')
      → lookup m.peer_id hosts ≡ some label
      → IsLabel label
      → is_empty label ≡ false
      → parse_ip (label ++ dot_domain) ≡ none
      → resolve_target parse_ip members (label ++ dot_domain) ≡ some (ok m)
  unfolding resolve_target resolve_text resolve_label resolve_labelled resolve_parsed
  resolve-labelled members m hosts label once named distinct at plain full no_ip =
      let target = label ++ dot_domain in
      let solid : IsSolid target =
        All-append _ label dot_domain (IsLabel-IsSolid label plain)
          (refl, (refl, (refl, (refl, (refl, (refl, tt)))))) in
      let hits : filter (λ n. is_label label (lookup n.peer_id hosts)) members ≡ m ∷ [] =
        filter-same _ _ members
          (λ n. is_label-lookup hosts m.peer_id label full at (distinct m.peer_id) n.peer_id)
        ∙ once in
      let found : resolve_text parse_ip members target ≡ some (ok m) =
        rw (target_label-full label plain, full)
          (ap (resolve_label parse_ip members target label) named
            ∙ ap (resolve_labelled parse_ip members target) hits) in
      rw (trim_space-IsSolid target solid, append-full label dot_domain full, no_ip) found

  -- Of members whose peer ids have at least four bytes, a member whose peer id no other has, and
  -- whose label is a text of lower-case letters, digits and hyphens that is not empty, is what its
  -- full name, the label with `.lanet` behind it, resolves to, where Go reads no IP in that name.
  pub resolve_target-full_name :
      (members : List MemberRef) (m : MemberRef) (hosts : Dict Text) (label : Text)
      → All (λ n. 4 ≤ length n.peer_id) members
      → filter (λ n. text_eq n.peer_id m.peer_id) members ≡ m ∷ []
      → hosts_of parse_ip members ≡ some hosts
      → lookup m.peer_id hosts ≡ some label
      → IsLabel label
      → is_empty label ≡ false
      → parse_ip (label ++ dot_domain) ≡ none
      → resolve_target parse_ip members (label ++ dot_domain) ≡ some (ok m)
  resolve_target-full_name members m hosts label long once named at plain full no_ip =
      let (found, e, all, distinct) = hostnames-distinct (λ t. to4 (parse_ip t)) members long in
      let same : found ≡ hosts = ground arith in
      resolve-labelled members m hosts label once named
        (subst (λ h. (id id' l : Text) → lookup id h ≡ some l → lookup id' h ≡ some l → id ≡ id')
          same distinct)
        at plain full no_ip
