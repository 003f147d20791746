-- ===== src/Relay/Outbox/Replays.antt =====
-- A dead letter that is replayed (`ReplayDeadLetter` in internal/adapters/postgres/outbox.go).
use payment_service.Prelude.{
  ℕ, ◌+◌, ◌≤◌, Bool, true, false, ◌==◌, ◌≡◌, refl, ap, ◌∙◌, inl, inr, Bool-cases, Option, none,
  some, is_some, List, [], ◌∷◌, String, Result, ok, err, is_ok, arith, sym, ◌++◌, length, All,
  All-map,
}
use payment_service.Prelude.Int.{ℤ}
use payment_service.Relay.Outbox.{DeadLetter, Row, Store, call, calls, pending}
use payment_service.Relay.Outbox.Queue.{
  ReplayError, find_dead_letter, resolve_letter, is_owned_by, put_replay, replayed_row, check_owner,
  replay_letter, replay_if, replay_dead_letter,
}
use payment_service.Relay.Outbox.Follows.{SameQueue, call_same, calls_same}

abbrev pub counted : Bool → ℕ
counted true = 1
counted false = 0

-- How many of these requests, each by a tenant and an actor, replayed the dead letter.
unfoldable pub replays : (ℕ → ℕ) → ℕ → List (ℕ × String) → Store → ℕ
replays shard_of id [] s = 0
replays shard_of id ((tenant, actor) ∷ qs) s =
    let (r, s1) = replay_dead_letter shard_of tenant id actor s in
    counted (is_ok r) + replays shard_of id qs s1

-- The store after them.
unfoldable pub after_replays : (ℕ → ℕ) → ℕ → List (ℕ × String) → Store → Store
after_replays shard_of id [] s = s
after_replays shard_of id ((tenant, actor) ∷ qs) s =
    after_replays shard_of id qs (replay_dead_letter shard_of tenant id actor s).1

-- Whether the letter is there and not resolved.
abbrev is_open : Option DeadLetter → Bool
is_open none = false
is_open (some d) = elim d.resolved_at [ none ↦ true | some _ ↦ false ]

abbrev open_in : ℕ → Store → ℕ
open_in id s = counted (is_open (find_dead_letter id s.dead_letters))

find_dead_letter-id :
    (id : ℕ) (ds : List DeadLetter) {d : DeadLetter} → find_dead_letter id ds ≡ some d → d.id ≡ id
unfolding find_dead_letter
find_dead_letter-id id [] h = cc
find_dead_letter-id id (x ∷ xs) {d} h = elim (Bool-cases (x.id == id)) [
  | inl same ↦ ground arith
  | inr other ↦
      let h' : find_dead_letter id xs ≡ some d = ground arith in find_dead_letter-id id xs h'
]

resolved_closed :
    (id : ℕ) (now : ℤ) (actor : String) (ds : List DeadLetter)
    → is_open (find_dead_letter id (resolve_letter id now actor ds)) ≡ false
unfolding find_dead_letter resolve_letter
resolved_closed id now actor [] = refl
resolved_closed id now actor (x ∷ xs) = elim (Bool-cases (x.id == id)) [
  | inl same ↦ rw same (rw same refl)
  | inr other ↦ rw other (rw other (resolved_closed id now actor xs))
]

-- A new event that waits to be published, with what the dead letter kept.
abbrev pub IsCopy : ℕ → Store → Row → Type 0
IsCopy id s r =
    (d : DeadLetter) × (find_dead_letter id s.dead_letters ≡ some d)
    × (r.event ≡ d.event)
    × (r.status ≡ pending)

-- What one request does: nothing, or it makes one event of an open letter, and closes it.
data Replayed (id : ℕ) (s : Store) : Result ReplayError ℕ × Store → Type 0 where
  refused : {e : ReplayError} {s1 : Store} → SameQueue s s1 → Replayed id s (err e, s1)
  made :
      {n : ℕ} {s1 : Store} (r : Row)
      → s1.rows ≡ r ∷ s.rows
      → IsCopy id s r
      → open_in id s ≡ 1
      → open_in id s1 ≡ 0
      → Replayed id s (ok n, s1)

same_open : (id : ℕ) (s s' : Store) → SameQueue s s' → open_in id s' ≡ open_in id s
same_open id s s' (_, e) = ap (λ ds. counted (is_open (find_dead_letter id ds))) e

IsCopy-same : (id : ℕ) (s s' : Store) (r : Row) → SameQueue s s' → IsCopy id s' r → IsCopy id s r
IsCopy-same id s s' r (_, e) (d, found, event, waits) =
    (d, ap (find_dead_letter id) (sym e) ∙ found, event, waits)

module _ (id : ℕ) (s : Store) where
  put_replay-Replayed :
      (shard : ℕ) (d : DeadLetter) (actor : String) (p : Bool × Store)
      → SameQueue s p.1
      → find_dead_letter id s.dead_letters ≡ some d
      → open_in id s ≡ 1
      → Replayed id s (put_replay shard d actor p)
  put_replay-Replayed shard d actor (false, s1) same found one = refused same
  put_replay-Replayed shard d actor (true, s1) (rows, _) found one =
      let own : d.id ≡ id = find_dead_letter-id id s.dead_letters found in
      made (replayed_row shard d s1) (ap (λ rs. replayed_row shard d s1 ∷ rs) rows)
        (d, found, refl, refl) one
        (rw own (ap counted (resolved_closed id s1.clock actor s1.dead_letters)))

  check_owner-Replayed :
      (shard_of : ℕ → ℕ) (tenant : ℕ) (d : DeadLetter) (actor : String) (p : Bool × Store)
      → SameQueue s p.1
      → find_dead_letter id s.dead_letters ≡ some d
      → open_in id s ≡ 1
      → Replayed id s (check_owner shard_of tenant d actor p)
  check_owner-Replayed shard_of tenant d actor (false, s1) same found one = refused same
  check_owner-Replayed shard_of tenant d actor (true, s1) (r1, d1) found one =
      elim (Bool-cases (is_owned_by d.event.aggregate_id tenant s1.owners)) [
        | inl mine ↦
            let (r2, d2) = calls_same 3 s1 in
            rw mine (
              put_replay-Replayed (shard_of d.event.aggregate_id) d actor (calls 3 s1)
                (r2 ∙ r1, d2 ∙ d1) found one)
        | inr foreign ↦ rw foreign (refused (r1, d1))
      ]

unresolved-open :
    (id : ℕ) (s : Store) (d : DeadLetter)
    → find_dead_letter id s.dead_letters ≡ some d
    → is_some d.resolved_at ≡ false
    → open_in id s ≡ 1
unresolved-open id s d e h = by_time d.resolved_at refl h
  where
    by_time : (o : Option ℤ) → d.resolved_at ≡ o → is_some o ≡ false → open_in id s ≡ 1
    by_time none eo h = rw e (rw eo refl)
    by_time (some t) eo h = absurd (cc)

replay_letter-Replayed :
    (shard_of : ℕ → ℕ) (tenant id : ℕ) (actor : String) (s : Store) (o : Option DeadLetter)
    → find_dead_letter id s.dead_letters ≡ o
    → Replayed id s (replay_letter shard_of tenant o actor s)
replay_letter-Replayed shard_of tenant id actor s none e = refused (refl, refl)
replay_letter-Replayed shard_of tenant id actor s (some d) e =
    elim (Bool-cases (is_some d.resolved_at)) [
      | inl was ↦ rw was (refused (refl, refl))
      | inr not_yet ↦
          let one = unresolved-open id s d e not_yet in
          elim (Bool-cases (tenant == 0)) [
            | inl any ↦ rw not_yet (
                rw any (
                  put_replay-Replayed id s (shard_of d.event.aggregate_id) d actor (calls 3 s)
                    (calls_same 3 s) e one))
            | inr given ↦ rw not_yet (
                rw given
                  (check_owner-Replayed id s shard_of tenant d actor (call s) (call_same s) e one))
          ]
    ]

-- A store with the same queue does as well.
Replayed-same :
    {id : ℕ} {s s' : Store} {p : Result ReplayError ℕ × Store}
    → SameQueue s s'
    → Replayed id s' p
    → Replayed id s p
Replayed-same (r, d) (refused (r', d')) = refused (r' ∙ r, d' ∙ d)
Replayed-same {id} {s} {s'} (rows, letters) (made r e copy one closed) =
    made r (e ∙ ap (λ rs. r ∷ rs) rows) (IsCopy-same id s s' r (rows, letters) copy)
      (sym (same_open id s s' (rows, letters)) ∙ one) closed

replay_dead_letter-Replayed :
    (shard_of : ℕ → ℕ) (tenant id : ℕ) (actor : String) (s : Store)
    → Replayed id s (replay_dead_letter shard_of tenant id actor s)
unfolding replay_dead_letter
replay_dead_letter-Replayed shard_of tenant id actor s =
    by_calls (calls 2 s).0 (calls 2 s).1 (calls_same 2 s)
  where
    by_calls :
        (went : Bool) (s1 : Store)
        → SameQueue s s1
        → Replayed id s (replay_if shard_of tenant id actor (went, s1))
    by_calls false s1 same = refused same
    by_calls true s1 same = Replayed-same same (
        replay_letter-Replayed shard_of tenant id actor s1 (find_dead_letter id s1.dead_letters)
          refl)

-- What requests leave: these new events, as many as succeeded.
abbrev Left : (ℕ → ℕ) → ℕ → List (ℕ × String) → Store → Store → List Row → Type 0
Left shard_of id qs s before new =
    ((after_replays shard_of id qs s).rows ≡ new ++ s.rows)
    × (length new ≡ replays shard_of id qs s)
    × (length new ≤ open_in id s)
    × All (IsCopy id before) new

module _ (shard_of : ℕ → ℕ) (id : ℕ) (qs : List (ℕ × String)) (s : Store) where
  then_rest :
      (p : Result ReplayError ℕ × Store)
      → Replayed id s p
      → ((new : List Row) × Left shard_of id qs p.1 p.1 new)
      → (new : List Row) × (((after_replays shard_of id qs p.1).rows ≡ new ++ s.rows)
          × (length new ≡ counted (is_ok p.0) + replays shard_of id qs p.1)
          × (length new ≤ open_in id s)
          × All (IsCopy id s) new)
  then_rest (r, s1) (refused same) (new, (rows, count, le, copies)) = (
    new,
    (
      rows ∙ ap (λ rs. new ++ rs) same.0,
      omega (arith, count),
      omega (arith, same_open id s s1 same),
      All-map (λ r. IsCopy-same id s s1 r same) new copies,
    ),
  )
  then_rest (r, s1) (made row e copy one closed) ([], (rows, count, le, copies)) =
      (row ∷ [], (rows ∙ e, ground arith, omega arith, (copy, tt)))
  then_rest (r, s1) (made row e copy one closed) (x ∷ xs, (rows, count, le, copies)) =
      absurd (omega arith)

replays-Left :
    (shard_of : ℕ → ℕ) (id : ℕ) (qs : List (ℕ × String)) (s : Store)
    → (new : List Row) × Left shard_of id qs s s new
unfolding replays after_replays
replays-Left shard_of id [] s = ([], (refl, refl, omega arith, tt))
replays-Left shard_of id ((tenant, actor) ∷ qs) s =
    then_rest shard_of id qs s (replay_dead_letter shard_of tenant id actor s)
      (replay_dead_letter-Replayed shard_of tenant id actor s)
      (replays-Left shard_of id qs (replay_dead_letter shard_of tenant id actor s).1)

-- However often a dead letter is asked to be replayed, by whichever tenants, one request after the
-- other, and whichever database calls fail: at most one new row is put before the rows of the outbox,
-- there is one exactly if a request succeeds, and it is a pending event with the content of the dead
-- letter.
pub replays_at_most_once :
    (shard_of : ℕ → ℕ) (id : ℕ) (qs : List (ℕ × String)) (s : Store)
    → (new : List Row) × ((after_replays shard_of id qs s).rows ≡ new ++ s.rows)
      × (length new ≡ replays shard_of id qs s)
      × (length new ≤ 1)
      × All (IsCopy id s) new
replays_at_most_once shard_of id qs s =
    let (new, (rows, count, le, copies)) = replays-Left shard_of id qs s in
    (new, rows, count, ground arith, copies)
