-- ===== src/Relay/Outbox/Claims.antt =====
-- What a poll leaves (`PollPending` in internal/adapters/postgres/outbox.go).
use payment_service.Prelude.{
  ℕ, zero, suc, Bool, true, false, ◌||◌, ◌≡◌, refl, inl, inr, Bool-cases, List, [], ◌∷◌, All, arith,
  if◌then◌else◌,
}
use payment_service.Prelude.Int.{ℤ}
use payment_service.Relay.Outbox.{
  Row, RowStatus, pending, publishing, published, failed, DeadLetter, Store, call, is_row,
  is_publishing, is_pending,
}
use payment_service.Relay.Outbox.Queue.{
  is_claimable, is_before, insert_row, claimable, limited, is_among, as_claimed, claim_rows, poll,
  poll_if, poll_pending,
}
use payment_service.Relay.Outbox.Follows.{
  RowFollows, RowFollows-refl, RowsFollow, RowBuried, Follows, Follows-same, Follows-trans,
  call_same, SameQueue, is_final,
}

-- The primary key of the table.
abbrev pub IsKeyed : List Row → Type 0
IsKeyed [] = Unit
IsKeyed (r ∷ rs) = All (λ x. is_row r.id r.created_at x ≡ false) rs × IsKeyed rs

module _ (P : Row → Type 0) where
  All-insert_row : (a : Row) (rs : List Row) → P a → All P rs → All P (insert_row a rs)
  unfolding insert_row
  All-insert_row a [] p all = (p, tt)
  All-insert_row a (b ∷ bs) p (q, all) = elim (Bool-cases (is_before a b)) [
    | inl before ↦ rw before (p, (q, all))
    | inr after ↦ rw after (q, All-insert_row a bs p all)
  ]

  All-limited : (n : ℕ) (rs : List Row) → All P rs → All P (limited n rs)
  All-limited zero rs all = tt
  All-limited (suc n) [] all = tt
  All-limited (suc n) (r ∷ rs) (p, all) = (p, All-limited n rs all)

  All-claimable :
      (now ttl : ℤ) (shards : List ℕ) (rs : List Row)
      → All (λ r. is_claimable now ttl shards r ≡ true → P r) rs
      → All P (claimable now ttl shards rs)
  unfolding claimable
  All-claimable now ttl shards [] all = tt
  All-claimable now ttl shards (r ∷ rs) (p, all) =
      elim (Bool-cases (is_claimable now ttl shards r)) [
        | inl may ↦ rw may (All-insert_row r _ (p may) (All-claimable now ttl shards rs all))
        | inr may_not ↦ rw may_not (All-claimable now ttl shards rs all)
      ]

is_claimable-open :
    (now ttl : ℤ) (shards : List ℕ) (r : Row)
    → is_claimable now ttl shards r ≡ true
    → is_final r.status ≡ false
unfolding is_claimable
is_claimable-open now ttl shards r h = by_status r.status (ground (arith, h))
  where
    by_status : (s : RowStatus) → (is_pending s || is_publishing s) ≡ true → is_final s ≡ false
    by_status pending h = refl
    by_status publishing h = refl
    by_status published h = cc
    by_status failed h = cc

is_row-sym : (a b : Row) → is_row a.id a.created_at b ≡ true → is_row b.id b.created_at a ≡ true
unfolding is_row
is_row-sym a b h = ground arith

-- Where the row that a key names is still open.
abbrev OpenAt : Row → Row → Type 0
OpenAt r c = is_row c.id c.created_at r ≡ true → is_final r.status ≡ false

is_among-open :
    (r : Row) (cs : List Row) → All (OpenAt r) cs → is_among r cs ≡ true → is_final r.status ≡ false
unfolding is_among
is_among-open r [] all h = absurd (cc)
is_among-open r (c ∷ cs) (p, all) h = elim (Bool-cases (is_row c.id c.created_at r)) [
  | inl own ↦ p own
  | inr other ↦ let h' : is_among r cs ≡ true = ground arith in is_among-open r cs all h'
]

pub as_claimed-RowFollows :
    (now : ℤ) (r : Row) (b : Bool)
    → (b ≡ true → is_final r.status ≡ false)
    → RowFollows r (if b then as_claimed now r else r)
as_claimed-RowFollows now r false opens = RowFollows-refl r
as_claimed-RowFollows now r true opens = record {
  same_id = refl;
  same_creation = refl;
  same_event = refl;
  no_fewer_attempts = omega arith;
  final_kept = λ f. absurd (cc (opens refl, f));
}

as_claimed-buried :
    (now : ℤ) (r : Row) (b : Bool) (ds : List DeadLetter)
    → RowBuried ds r
    → RowBuried ds (if b then as_claimed now r else r)
as_claimed-buried now r false ds h = h
as_claimed-buried now r true ds h = λ e. absurd (cc)

claim_rows-RowsFollow :
    (now : ℤ) (cs rs : List Row)
    → All (λ r. is_among r cs ≡ true → is_final r.status ≡ false) rs
    → RowsFollow rs (claim_rows now cs rs)
unfolding claim_rows
claim_rows-RowsFollow now cs [] all = tt
claim_rows-RowsFollow now cs (r ∷ rs) (p, all) =
    (as_claimed-RowFollows now r (is_among r cs) p, claim_rows-RowsFollow now cs rs all)

claim_rows-buried :
    (now : ℤ) (cs rs : List Row) (ds : List DeadLetter)
    → All (RowBuried ds) rs
    → All (RowBuried ds) (claim_rows now cs rs)
unfolding claim_rows
claim_rows-buried now cs [] ds all = tt
claim_rows-buried now cs (r ∷ rs) ds (p, all) =
    (as_claimed-buried now r (is_among r cs) ds p, claim_rows-buried now cs rs ds all)

module _ (Q : Row → Row → Type 0) (own : (r : Row) → Q r r)
    (others : (r c : Row) → is_row c.id c.created_at r ≡ false → Q r c) where
  row_after_row :
      (x : Row) (rs : List Row) → All (λ r. is_row x.id x.created_at r ≡ false) rs → All (Q x) rs
  row_after_row x [] keys = tt
  row_after_row x (r ∷ rs) (k, keys) = (
    others x r (elim (Bool-cases (is_row r.id r.created_at x)) [
      | inl same ↦ absurd (cc (is_row-sym r x same, k))
      | inr other ↦ other
    ]),
    row_after_row x rs keys,
  )

  with_head :
      (x : Row) (ts rs : List Row)
      → All (λ r. is_row x.id x.created_at r ≡ false) rs
      → All (λ r. All (Q r) ts) rs
      → All (λ r. All (Q r) (x ∷ ts)) rs
  with_head x ts [] keys all = tt
  with_head x ts (r ∷ rs) (k, keys) (q, all) = ((others r x k, q), with_head x ts rs keys all)

  -- What holds of a row and itself, and of rows with different keys, holds of all rows.
  keyed_pairs : (rs : List Row) → IsKeyed rs → All (λ r. All (Q r) rs) rs
  keyed_pairs [] keys = tt
  keyed_pairs (x ∷ xs) (k, keys) =
      ((own x, row_after_row x xs k), with_head x xs xs k (keyed_pairs xs keys))

All-map : {P Q : Row → Type 0} (rs : List Row) → ((r : Row) → P r → Q r) → All P rs → All Q rs
All-map [] f all = tt
All-map (r ∷ rs) f (p, all) = (f r p, All-map rs f all)

poll-Follows :
    (ttl : ℤ) (shards : List ℕ) (batch : ℕ) (s : Store)
    → IsKeyed s.rows
    → Follows s (poll ttl shards batch s).1
poll-Follows ttl shards batch s keys =
    let claimed = limited batch (claimable s.clock ttl shards s.rows) in
    let pairs =
      keyed_pairs (λ r c. is_claimable s.clock ttl shards c ≡ true → OpenAt r c)
        (λ r may _. is_claimable-open s.clock ttl shards r may) (λ r c other may same. absurd (cc))
        s.rows keys in
    record {
      rows_follow = claim_rows-RowsFollow s.clock claimed s.rows (
          All-map s.rows
            (λ r all. is_among-open r claimed (
              All-limited (OpenAt r) batch _
                (All-claimable (OpenAt r) s.clock ttl shards s.rows all)))
            pairs);
      letters_added = ([], refl);
      buried = claim_rows-buried s.clock claimed s.rows s.dead_letters;
    }

pub poll_pending-Follows :
    (ttl : ℤ) (shards : List ℕ) (batch : ℕ) (s : Store)
    → IsKeyed s.rows
    → Follows s (poll_pending ttl shards batch s).1
unfolding poll_pending
poll_pending-Follows ttl [] batch s keys = Follows-same s s (refl, refl)
poll_pending-Follows ttl (n ∷ ns) batch s keys = by_call (call s).0 (call s).1 (call_same s)
  where
    by_call :
        (went : Bool) (s1 : Store)
        → SameQueue s s1
        → Follows s (poll_if (went, s1) ttl (n ∷ ns) batch).1
    by_call false s1 same = Follows-same s s1 same
    by_call true s1 same =
        Follows-trans s s1 _ (Follows-same s s1 same)
          (poll-Follows ttl (n ∷ ns) batch s1 (rw same.0 keys))
