-- ===== src/Relay/Outbox.antt =====
-- The delivery side of internal/adapters/postgres/outbox.go: the rows of `outbox_events` with the
-- columns that the relay works on, and `outbox_dead_letters`. Each statement, begin and commit takes
-- the next entry of `faults` and fails if that is `true`. Statements run one worker at a time
-- (`FOR UPDATE SKIP LOCKED` gives a row to one worker).
pub mod Queue
pub mod Follows
pub mod Marks
pub mod Claims
pub mod Replays
use payment_service.Prelude.{
  zero, ℕ, suc, Bool, true, false, not, ◌&&◌, ◌||◌, Option, none, some, List, [], ◌∷◌, map, String,
  ◌==◌, ltb, leb, contains, if◌then◌else◌,
}
use payment_service.Prelude.Int.{ℤ, pos, ◌+ℤ◌, ◌-ℤ◌, ◌*ℤ◌, eq_ℤ, ltb_ℤ, leb_ℤ}
use payment_service.Ports.Outbox.{OutboxEvent}

pub data RowStatus : Type 0 where
  pending publishing published failed : RowStatus

pub record Row : Type 0 where
  pub id : ℕ
  pub created_at : ℤ
  pub shard_index : ℕ
  pub event : OutboxEvent
  pub status : RowStatus
  pub attempts : ℕ
  pub next_attempt_at : ℤ
  pub locked_at : Option ℤ
  pub published_at : Option ℤ
  pub last_error : String

pub record DeadLetter : Type 0 where
  pub id : ℕ
  pub original_event_id : ℕ
  pub event : OutboxEvent
  pub failure_reason : String
  pub failed_at : ℤ
  pub resolved_at : Option ℤ
  pub resolved_by : String

-- `fresh` is the id that the next dead letter or event gets, `owners` the tenants of the payments.
pub record Store : Type 0 where
  pub rows : List Row
  pub dead_letters : List DeadLetter
  pub clock : ℤ
  pub fresh : ℕ
  pub owners : List (ℕ × ℕ)
  pub faults : List Bool

abbrev pub call_with : List Bool → Store → Bool × Store
call_with [] s = (true, s)
call_with (b ∷ bs) s = (not b, record s { faults = bs })

-- A round trip to the database: whether it went through.
unfoldable pub call : Store → Bool × Store
call s = call_with s.faults s

abbrev pub after_call : Bool → Bool × Store → Bool × Store
after_call true rest = rest
after_call false (_, s) = (false, s)

-- So many round trips, up to the first that fails.
unfoldable pub calls : ℕ → Store → Bool × Store
calls zero s = (true, s)
calls (suc n) s =
    let (went, s1) = call s in let rest = calls n s1 in if went then rest else (false, s1)

abbrev pub is_publishing : RowStatus → Bool
is_publishing publishing = true
is_publishing _ = false

abbrev pub is_pending : RowStatus → Bool
is_pending pending = true
is_pending _ = false

-- WHERE id = … AND created_at = …: the primary key.
unfoldable pub is_row : ℕ → ℤ → Row → Bool
is_row id at r = (r.id == id) && eq_ℤ r.created_at at

unfoldable pub claimed_row : ℕ → ℤ → List Row → Option Row
claimed_row id at [] = none
claimed_row id at (r ∷ rs) =
    let rest = claimed_row id at rs in
    if is_row id at r && is_publishing r.status then some r else rest

-- UPDATE … WHERE id = … AND created_at = … AND status = 'PUBLISHING'; the first two are the primary
-- key, so it changes one row at most.
unfoldable pub update_claimed : ℕ → ℤ → (Row → Row) → List Row → List Row
update_claimed id at f [] = []
update_claimed id at f (r ∷ rs) =
    let rest = update_claimed id at f rs in
    if is_row id at r && is_publishing r.status then f r ∷ rs else r ∷ rest

abbrev pub finish : Option Row → ℕ → ℤ → (Row → Row) → Store → Bool × Store
finish none id at f s = (false, s)
finish (some _) id at f s = (true, record s { rows = update_claimed id at f s.rows })

abbrev pub update_one : ℕ → ℤ → (Row → Row) → Store → Bool × Store
update_one id at f s = finish (claimed_row id at s.rows) id at f s

abbrev pub as_published : ℤ → Row → Row
as_published now r = record r { status = published; published_at = some now; locked_at = none }

abbrev pub as_failed : String → ℤ → Row → Row
as_failed reason next r = record r {
  status = pending;
  attempts = suc r.attempts;
  last_error = reason;
  next_attempt_at = next;
  locked_at = none;
}

abbrev pub as_exhausted : String → Row → Row
as_exhausted reason r = record r { status = failed; last_error = reason; locked_at = none }

unfoldable pub mark_published : ℕ → ℤ → Store → Bool × Store
mark_published id at s =
    let (went, s1) = call s in
    if went then update_one id at (as_published s1.clock) s1 else (false, s1)

unfoldable pub mark_failed : ℕ → ℤ → String → ℤ → Store → Bool × Store
mark_failed id at reason next s =
    let (went, s1) = call s in
    if went then update_one id at (as_failed reason next) s1 else (false, s1)

abbrev pub dead_letter : Row → String → Store → DeadLetter
dead_letter r reason s = record {
  id = s.fresh;
  original_event_id = r.id;
  event = r.event;
  failure_reason = reason;
  failed_at = s.clock;
  resolved_at = none;
  resolved_by = "";
}

abbrev pub bury : Row → ℕ → ℤ → String → Bool × Store → Bool × Store
bury r id at reason (false, s) = (false, s)
bury r id at reason (true, s) = (
  true,
  record s {
    rows = update_claimed id at (as_exhausted reason) s.rows;
    dead_letters = dead_letter r reason s ∷ s.dead_letters;
    fresh = suc s.fresh;
  },
)

abbrev pub bury_claimed : Option Row → ℕ → ℤ → String → Store → Bool × Store
bury_claimed none id at reason s = (false, s)
bury_claimed (some r) id at reason s = bury r id at reason (calls 2 s)

-- One transaction: begin and update, then the dead letter and the commit.
unfoldable pub mark_exhausted : ℕ → ℤ → String → Store → Bool × Store
mark_exhausted id at reason s =
    let (went, s1) = calls 2 s in
    if went then bury_claimed (claimed_row id at s1.rows) id at reason s1 else (false, s1)
