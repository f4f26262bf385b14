-- ===== src/Serverless/Hostnames/Distinct.antt =====
-- `Hostnames` returns, and gives every member a label of its own.
use lanet.Base.{
  ℕ, ◌≤◌, ◌≡◌, ◌≢◌, refl, subst, ◌∙◌, inl, inr, Option, none, some, List, [], ◌∷◌, ◌++◌, arith,
  if◌then◌else◌, length, take, codes, All, Text, is_empty, text_lt, text_eq_iff, Dict, lookup,
  insert, lookup-insert, Bool-cases,
}
use lanet.Serverless.Hostnames.{
  MemberRef, free_label, dns_label, node_name, base_label, names_from, hostnames, place_member,
  sort_members,
}
use lanet.Serverless.Hostnames.Labels.{IsNaming, names_from-step, names_from-IsNaming}

place_member-All :
    (P : MemberRef → Type 0) (m : MemberRef) (ms : List MemberRef)
    → P m
    → All P ms
    → All P (place_member m ms)
unfolding place_member
place_member-All P m [] h hs = (h, tt)
place_member-All P m (n ∷ ns) h hs = elim (Bool-cases (text_lt n.peer_id m.peer_id)) [
  | inl e ↦ rw e (hs.0, place_member-All P m ns h hs.1)
  | inr e ↦ rw e (h, hs)
]

All-place_member :
    (P : MemberRef → Type 0) (m : MemberRef) (ms : List MemberRef)
    → All P (place_member m ms)
    → P m × All P ms
unfolding place_member
All-place_member P m [] h = h
All-place_member P m (n ∷ ns) h = elim (Bool-cases (text_lt n.peer_id m.peer_id)) [
  | inl e ↦
      let later = subst (λ b. All P (if b then n ∷ place_member m ns else m ∷ n ∷ ns)) e h in
      let parts = All-place_member P m ns later.1 in (parts.0, (later.0, parts.1))
  | inr e ↦ subst (λ b. All P (if b then n ∷ place_member m ns else m ∷ n ∷ ns)) e h
]

pub sort_members-All :
    (P : MemberRef → Type 0) (ms : List MemberRef) → All P ms → All P (sort_members ms)
unfolding sort_members
sort_members-All P [] h = tt
sort_members-All P (m ∷ ms) h =
    place_member-All P m (sort_members ms) h.0 (sort_members-All P ms h.1)

pub All-sort_members :
    (P : MemberRef → Type 0) (ms : List MemberRef) → All P (sort_members ms) → All P ms
unfolding sort_members
All-sort_members P [] h = tt
All-sort_members P (m ∷ ms) h =
    let parts = All-place_member P m (sort_members ms) h in (parts.0, All-sort_members P ms parts.1)

module _ (parse_ip4 : Text → Option (List ℕ)) where
  node_name-some :
      (peer_id : Text) (o : Option (List ℕ))
      → 4 ≤ length peer_id
      → (label : Text) × (node_name peer_id o ≡ some label)
  node_name-some peer_id (some o) h = (_, refl)
  node_name-some peer_id none h = (codes "node-" ++ take 4 peer_id, ground arith)

  base_label-some :
      (m : MemberRef)
      → 4 ≤ length m.peer_id
      → (label : Text) × (base_label parse_ip4 m ≡ some label)
  unfolding base_label
  base_label-some m h =
      let (label, e) = node_name-some m.peer_id (parse_ip4 m.virtual_ip) h in
      elim (Bool-cases (is_empty (dns_label m.name))) [
        | inl none_left ↦ (label, rw none_left e)
        | inr named ↦ (dns_label m.name, rw named refl)
      ]

  -- The loop keeps the labels given and gives one to every member.
  names_from-total :
      (taken : List Text) (out : Dict Text) (ms : List MemberRef)
      → All (λ m. 4 ≤ length m.peer_id) ms
      → (hosts : Dict Text) × (names_from parse_ip4 taken out ms ≡ some hosts)
        × ((id : Text) → lookup id out ≢ none → lookup id hosts ≢ none)
        × All (λ m. lookup m.peer_id hosts ≢ none) ms
  unfolding names_from
  names_from-total taken out [] h = (out, refl, λ id k. k, tt)
  names_from-total taken out (m ∷ ms) h =
      let (label, given) = base_label-some m h.0 in
      let final = free_label taken m.peer_id label in
      let (hosts, e, kept, all) =
        names_from-total (final ∷ taken) (insert m.peer_id final out) ms h.1 in
      let at = λ (id : Text). lookup-insert m.peer_id id final out in
      (
        hosts,
        names_from-step parse_ip4 taken out m ms label given ∙ e,
        λ id k. kept id (λ gone. k (ground (arith, at id))),
        (
          kept m.peer_id
              (λ gone. absurd (ground (arith, at m.peer_id, text_eq_iff m.peer_id m.peer_id))),
          all,
        ),
      )

  -- Of members whose peer ids have at least four bytes, `Hostnames` returns a map in which every
  -- member has a label and two peers that have one label are one peer.
  pub hostnames-distinct :
      (members : List MemberRef)
      → All (λ m. 4 ≤ length m.peer_id) members
      → (hosts : Dict Text) × (hostnames parse_ip4 members ≡ some hosts)
        × All (λ m. lookup m.peer_id hosts ≢ none) members
        × ((id id' label : Text)
            → lookup id hosts ≡ some label
            → lookup id' hosts ≡ some label
            → id ≡ id')
  unfolding hostnames IsNaming lookup
  hostnames-distinct members h =
      let (hosts, e, kept, all) =
        names_from-total [] [] (sort_members members) (sort_members-All _ members h) in
      let (taken, naming) =
        names_from-IsNaming parse_ip4 [] [] (sort_members members) hosts
          (λ x l f. absurd cc, λ x y l f g. absurd cc) e in
      (hosts, e, All-sort_members _ members all, naming.1)
