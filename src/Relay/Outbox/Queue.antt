-- ===== src/Relay/Outbox/Queue.antt =====
-- `PollPending` and `ReplayDeadLetter` (internal/adapters/postgres/outbox.go).
use payment_service.Prelude.{
  ℕ, zero, suc, Bool, true, false, ◌&&◌, ◌||◌, Option, none, some, List, [], ◌∷◌, map, String, ◌==◌,
  ltb, contains, is_some, Result, ok, err, if◌then◌else◌,
}
use payment_service.Prelude.Int.{ℤ, pos, ◌-ℤ◌, ◌*ℤ◌, ltb_ℤ, leb_ℤ}
use payment_service.Relay.Outbox.{
  Row, pending, publishing, DeadLetter, Store, call, calls, is_publishing, is_pending, is_row,
}

abbrev pub lock_passed : ℤ → Option ℤ → Bool
lock_passed limit none = false
lock_passed limit (some t) = ltb_ℤ t limit

-- A row that a poll may claim: due, of one of the shards, pending or abandoned for `ttl` seconds.
unfoldable pub is_claimable : ℤ → ℤ → List ℕ → Row → Bool
is_claimable now ttl shards r =
    contains (λ a b. a == b) shards r.shard_index
    && leb_ℤ r.next_attempt_at now
    && (is_pending r.status
        || (is_publishing r.status && lock_passed (now -ℤ ttl *ℤ pos 1000000000) r.locked_at))

-- ORDER BY attempts ASC, created_at ASC.
abbrev pub is_before : Row → Row → Bool
is_before a b =
    ltb a.attempts b.attempts || ((a.attempts == b.attempts) && leb_ℤ a.created_at b.created_at)

unfoldable pub insert_row : Row → List Row → List Row
insert_row a [] = a ∷ []
insert_row a (b ∷ bs) = let rest = insert_row a bs in if is_before a b then a ∷ b ∷ bs else b ∷ rest

unfoldable pub claimable : ℤ → ℤ → List ℕ → List Row → List Row
claimable now ttl shards [] = []
claimable now ttl shards (r ∷ rs) =
    let rest = claimable now ttl shards rs in
    if is_claimable now ttl shards r then insert_row r rest else rest

-- LIMIT.
abbrev pub limited : ℕ → List Row → List Row
limited zero rs = []
limited (suc n) [] = []
limited (suc n) (r ∷ rs) = r ∷ limited n rs

unfoldable pub is_among : Row → List Row → Bool
is_among r [] = false
is_among r (c ∷ cs) = is_row c.id c.created_at r || is_among r cs

abbrev pub as_claimed : ℤ → Row → Row
as_claimed now r = record r { status = publishing; locked_at = some now }

-- UPDATE … FROM claimed.
unfoldable pub claim_rows : ℤ → List Row → List Row → List Row
claim_rows now claimed [] = []
claim_rows now claimed (r ∷ rs) =
    (if is_among r claimed then as_claimed now r else r) ∷ claim_rows now claimed rs

abbrev pub poll : ℤ → List ℕ → ℕ → Store → Option (List Row) × Store
poll ttl shards batch s =
    let claimed = limited batch (claimable s.clock ttl shards s.rows) in
    (some (map (as_claimed s.clock) claimed), record s { rows = claim_rows s.clock claimed s.rows })

abbrev pub poll_if : Bool × Store → ℤ → List ℕ → ℕ → Option (List Row) × Store
poll_if (false, s) ttl shards batch = (none, s)
poll_if (true, s) ttl shards batch = poll ttl shards batch s

-- `none` is an error; without a shard there is no query. RETURNING gives no order, so the claimed
-- rows come in the order of the query.
unfoldable pub poll_pending : ℤ → List ℕ → ℕ → Store → Option (List Row) × Store
poll_pending ttl [] batch s = (some [], s)
poll_pending ttl (n ∷ ns) batch s = poll_if (call s) ttl (n ∷ ns) batch

unfoldable pub find_dead_letter : ℕ → List DeadLetter → Option DeadLetter
find_dead_letter id [] = none
find_dead_letter id (d ∷ ds) =
    let rest = find_dead_letter id ds in if d.id == id then some d else rest

abbrev pub as_resolved : ℤ → String → DeadLetter → DeadLetter
as_resolved now actor d = record d { resolved_at = some now; resolved_by = actor }

unfoldable pub resolve_letter : ℕ → ℤ → String → List DeadLetter → List DeadLetter
resolve_letter id now actor [] = []
resolve_letter id now actor (d ∷ ds) =
    (if d.id == id then as_resolved now actor d else d) ∷ resolve_letter id now actor ds

unfoldable pub is_owned_by : ℕ → ℕ → List (ℕ × ℕ) → Bool
is_owned_by payment tenant [] = false
is_owned_by payment tenant ((p, t) ∷ ps) =
    let rest = is_owned_by payment tenant ps in if p == payment then t == tenant else rest

-- The new event; `shard` is `ShardIndex` of the aggregate.
abbrev pub replayed_row : ℕ → DeadLetter → Store → Row
replayed_row shard d s = record {
  id = s.fresh;
  created_at = s.clock;
  shard_index = shard;
  event = d.event;
  status = pending;
  attempts = 0;
  next_attempt_at = s.clock;
  locked_at = none;
  published_at = none;
  last_error = "";
}

pub data ReplayError : Type 0 where
  store_fault letter_not_found already_resolved : ReplayError

abbrev pub put_replay : ℕ → DeadLetter → String → Bool × Store → Result ReplayError ℕ × Store
put_replay shard d actor (false, s) = (err store_fault, s)
put_replay shard d actor (true, s) = (
  ok s.fresh,
  record s {
    rows = replayed_row shard d s ∷ s.rows;
    dead_letters = resolve_letter d.id s.clock actor s.dead_letters;
    fresh = suc s.fresh;
  },
)

-- The tenant is asked for where one is given, with one more query.
abbrev pub check_owner :
    (ℕ → ℕ) → ℕ → DeadLetter → String → Bool × Store → Result ReplayError ℕ × Store
check_owner shard_of tenant d actor (false, s) = (err store_fault, s)
check_owner shard_of tenant d actor (true, s) =
    if is_owned_by d.event.aggregate_id tenant s.owners
    then put_replay (shard_of d.event.aggregate_id) d actor (calls 3 s)
    else (err letter_not_found, s)

abbrev pub replay_letter :
    (ℕ → ℕ) → ℕ → Option DeadLetter → String → Store → Result ReplayError ℕ × Store
replay_letter shard_of tenant none actor s = (err letter_not_found, s)
replay_letter shard_of tenant (some d) actor s =
    if is_some d.resolved_at
    then (err already_resolved, s)
    else if tenant == 0
    then put_replay (shard_of d.event.aggregate_id) d actor (calls 3 s)
    else check_owner shard_of tenant d actor (call s)

abbrev pub replay_if : (ℕ → ℕ) → ℕ → ℕ → String → Bool × Store → Result ReplayError ℕ × Store
replay_if shard_of tenant id actor (false, s) = (err store_fault, s)
replay_if shard_of tenant id actor (true, s) =
    replay_letter shard_of tenant (find_dead_letter id s.dead_letters) actor s

-- One transaction: begin and read, perhaps the owner, then the new event, the resolution and the
-- commit. The id that `uuid.NewV7` draws is `fresh`.
unfoldable pub replay_dead_letter : (ℕ → ℕ) → ℕ → ℕ → String → Store → Result ReplayError ℕ × Store
replay_dead_letter shard_of tenant id actor s = replay_if shard_of tenant id actor (calls 2 s)
