-- ===== src/Ctl/Relays.antt =====
-- app/ctl/internal/logic/relaydir/relaydir.go: the directory of relays, best score first. The
-- lock makes a call one step, and the clock's reading is an argument of the call. `sort.Slice`,
-- which promises no stability, is a parameter.
pub mod Ranking
use lanet.Base.{
  ℕ, ◌*◌, ◌^◌, Bool, true, false, ◌||◌, ◌≡◌, List, [], ◌∷◌, ◌++◌, Option, none, some, if◌then◌else◌,
  length, take, filter, Text, is_empty, text_eq, ℤ, pos, pos_part, ◌-ℤ◌, leb_ℤ, ltb_ℤ, All, Time,
  Result, ok, err, ◌==◌,
}
use mathlib.Core.List.{Perm}

pub record RelayCandidate : Type 0 where
  pub peer_id : Text
  pub addrs : List Text
  pub region : Text
  pub score : ℤ
  pub circuit_count : ℤ
  pub last_seen_at : Time

pub record RelayDirectory : Type 0 where
  pub candidates : List RelayCandidate
  pub updated_at : Time

pub record RelayRegistration : Type 0 where
  pub peer_id : Text
  pub addrs : List Text
  pub region : Text
  pub score : ℤ

pub record RelayHeartbeat : Type 0 where
  pub peer_id : Text
  pub circuit_count : ℤ
  pub score : ℤ

-- The messages of the operations' errors.
pub data Error : Type 0 where
  bad_limit : Error
  no_peer_or_addrs : Error
  no_peer : Error
  not_registered : Error

-- `NewRelayDirectory`.
unfoldable pub new_directory : Time → RelayDirectory
new_directory now = record { candidates = []; updated_at = now }

-- `staleAfter`: 150 seconds.
abbrev pub stale_after : ℤ
stale_after = pos (150 * 10 ^ 9)

unfoldable pub is_alive : Time → RelayCandidate → Bool
is_alive now item = leb_ℤ (now -ℤ item.last_seen_at) stale_after

-- No relay has a better score than one before it.
unfoldable pub Descends : List RelayCandidate → Type 0
Descends [] = Unit
Descends (a ∷ items) = All (λ b. leb_ℤ b.score a.score ≡ true) items × Descends items

-- A call of `sort.Slice` by descending score, as the package documents it.
pub record Sorting : Type 0 where
  pub sort : List RelayCandidate → List RelayCandidate
  pub sort-Perm : (items : List RelayCandidate) → Perm (sort items) items
  pub sort-Descends : (items : List RelayCandidate) → Descends (sort items)

-- `List`: the lost candidates are dropped from the directory on the way.
unfoldable pub list :
    Sorting → Time → ℤ → RelayDirectory → RelayDirectory × Result Error (List RelayCandidate)
list sorting now limit d =
    let alive = filter (is_alive now) d.candidates in
    if ltb_ℤ limit (pos 1) || ltb_ℤ (pos 10) limit then (d, err bad_limit) else (
      record { candidates = alive; updated_at = d.updated_at },
      ok (take (pos_part limit) (sorting.sort alive)),
    )

-- The candidate of a peer replaced by a changed one: the loop's first hit.
unfoldable pub update :
    Text → (RelayCandidate → RelayCandidate) → List RelayCandidate → Option (List RelayCandidate)
update peer change [] = none
update peer change (item ∷ items) =
    let rest = update peer change items in
    if text_eq item.peer_id peer
    then some (change item ∷ items)
    else elim rest [ none ↦ none | some items' ↦ some (item ∷ items') ]

abbrev pub refreshed : RelayRegistration → Time → RelayCandidate → RelayCandidate
refreshed r now item = record {
  peer_id = item.peer_id;
  addrs = r.addrs;
  region = r.region;
  score = r.score;
  circuit_count = item.circuit_count;
  last_seen_at = now;
}

abbrev pub fresh : RelayRegistration → Time → RelayCandidate
fresh r now = record {
  peer_id = r.peer_id;
  addrs = r.addrs;
  region = r.region;
  score = r.score;
  circuit_count = pos 0;
  last_seen_at = now;
}

-- `Register`.
unfoldable pub register :
    RelayRegistration → Time → RelayDirectory → RelayDirectory × Result Error (Unit {0})
register r now d =
    if is_empty r.peer_id || (length r.addrs == 0)
    then (d, err no_peer_or_addrs)
    else elim (update r.peer_id (refreshed r now) d.candidates) [
      | some items ↦ (record { candidates = items; updated_at = now }, ok tt)
      | none ↦ (record { candidates = d.candidates ++ fresh r now ∷ []; updated_at = now }, ok tt)
    ]

abbrev pub beaten : RelayHeartbeat → Time → RelayCandidate → RelayCandidate
beaten h now item = record {
  peer_id = item.peer_id;
  addrs = item.addrs;
  region = item.region;
  score = h.score;
  circuit_count = h.circuit_count;
  last_seen_at = now;
}

-- `Heartbeat`.
unfoldable pub heartbeat :
    RelayHeartbeat → Time → RelayDirectory → RelayDirectory × Result Error (Unit {0})
heartbeat h now d =
    if is_empty h.peer_id
    then (d, err no_peer)
    else elim (update h.peer_id (beaten h now) d.candidates) [
      | some items ↦ (record { candidates = items; updated_at = now }, ok tt)
      | none ↦ (d, err not_registered)
    ]
