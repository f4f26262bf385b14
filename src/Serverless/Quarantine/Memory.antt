-- ===== src/Serverless/Quarantine/Memory.antt =====
-- What the quarantine of members remembers.
use lanet.Base.{
  suc, ◌+◌, ◌≤◌, ◌<◌, ◌≡◌, ◌≢◌, refl, ap, Bool, true, false, not, List, [], ◌∷◌, arith, length,
  filter, All, Text, text_eq, text_eq_refl, text_eq→eq,
}
use lanet.Serverless.Quarantine.{
  MemberQuarantine, expired_member_limit, contains_id, remember, requires_handshake, verified, Call,
  remembers, verifies, step, run, empty_quarantine,
}

filter-contains_id :
    (ids : List Text) (id other : Text)
    → other ≢ id
    → contains_id (filter (λ t. not (text_eq t other)) ids) id ≡ contains_id ids id
unfolding contains_id
filter-contains_id [] id other h = refl
filter-contains_id (x ∷ ids) id other h =
    ground (
      arith,
      text_eq→eq x other,
      text_eq→eq x id,
      text_eq_refl x,
      filter-contains_id ids id other h,
    )

filter-not_contains :
    (ids : List Text) (id : Text) (p : Text → Bool)
    → contains_id ids id ≡ false
    → contains_id (filter p ids) id ≡ false
unfolding contains_id
filter-not_contains [] id p h = refl
filter-not_contains (x ∷ ids) id p h = ground (arith, filter-not_contains ids id p)

length-filter : (p : Text → Bool) (ids : List Text) → length (filter p ids) ≤ length ids
length-filter p [] = omega arith
length-filter p (x ∷ ids) = ground (arith, length-filter p ids)

remember-requires :
    (q : MemberQuarantine) (id : Text) → requires_handshake (remember q id) id ≡ true
unfolding remember requires_handshake contains_id
remember-requires q id = ground (arith, text_eq_refl id)

step-requires :
    (q : MemberQuarantine) (c : Call) (id : Text)
    → c ≢ verifies id
    → requires_handshake q id ≡ true
    → requires_handshake (step q c) id ≡ true
unfolding step remember verified requires_handshake contains_id
step-requires q (remembers other) id h e = ground arith
step-requires q (verifies other) id h e =
    ground (arith, filter-contains_id q.ids id other (λ same. h (ap verifies same)))

run-requires :
    (calls : List Call) (q : MemberQuarantine) (id : Text)
    → All (λ c. c ≢ verifies id) calls
    → requires_handshake q id ≡ true
    → requires_handshake (run q calls) id ≡ true
unfolding run
run-requires [] q id h e = e
run-requires (c ∷ calls) q id h e =
    run-requires calls (step q c) id h.1 (step-requires q c id h.0 e)

-- Once a member is remembered, it must shake hands after any further calls, until a call for that
-- member says it is verified: other members, however many, do not push it out.
pub run-remember :
    (q : MemberQuarantine) (id : Text) (calls : List Call)
    → All (λ c. c ≢ verifies id) calls
    → requires_handshake (run (remember q id) calls) id ≡ true
run-remember q id calls h = run-requires calls (remember q id) id h (remember-requires q id)

step-length :
    (q : MemberQuarantine) (c : Call)
    → length q.ids ≤ expired_member_limit
    → (length (step q c).ids ≤ expired_member_limit) × (length (step q c).ids ≤ suc (length q.ids))
unfolding step remember verified
step-length q (remembers id) h = ground arith
step-length q (verifies id) h = omega (arith, length-filter (λ other. not (text_eq other id)) q.ids)

-- From the empty table, no sequence of calls makes the table larger than its limit.
pub run-length :
    (calls : List Call) (q : MemberQuarantine)
    → length q.ids ≤ expired_member_limit
    → length (run q calls).ids ≤ expired_member_limit
unfolding run
run-length [] q h = h
run-length (c ∷ calls) q h = run-length calls (step q c) (step-length q c h).0

step-full :
    (q : MemberQuarantine) (c : Call)
    → length q.ids < expired_member_limit
    → q.full ≡ false
    → (step q c).full ≡ false
unfolding step remember verified
step-full q (remembers id) h e = ground arith
step-full q (verifies id) h e = e

step-unknown :
    (q : MemberQuarantine) (c : Call) (id : Text)
    → c ≢ remembers id
    → contains_id q.ids id ≡ false
    → contains_id (step q c).ids id ≡ false
unfolding step remember verified contains_id
step-unknown q (remembers other) id h e = ground (arith, text_eq→eq other id)
step-unknown q (verifies other) id h e = filter-not_contains q.ids id (λ t. not (text_eq t other)) e

run-unknown :
    (calls : List Call) (q : MemberQuarantine) (id : Text)
    → length q.ids + length calls ≤ expired_member_limit
    → q.full ≡ false
    → All (λ c. c ≢ remembers id) calls
    → contains_id q.ids id ≡ false
    → requires_handshake (run q calls) id ≡ false
unfolding run requires_handshake
run-unknown [] q id h f none_of e = ground arith
run-unknown (c ∷ calls) q id h f none_of e =
    run-unknown calls (step q c) id (omega (arith, h, (step-length q c (omega (arith, h))).1))
      (step-full q c (omega (arith, h)) f) none_of.1 (step-unknown q c id none_of.0 e)

-- In a new table, as many calls as the table has places never make a member shake hands that none
-- of them remembers.
pub run-unremembered :
    (calls : List Call) (id : Text)
    → length calls ≤ expired_member_limit
    → All (λ c. c ≢ remembers id) calls
    → requires_handshake (run empty_quarantine calls) id ≡ false
unfolding contains_id
run-unremembered calls id h none_of =
    run-unknown calls empty_quarantine id (omega (arith, h)) refl none_of refl
