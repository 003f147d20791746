-- ===== src/Relay/Outbox/Follows.antt =====
-- How the rows of the outbox may change (internal/adapters/postgres/outbox.go).
use payment_service.Prelude.{
  ℕ, zero, suc, ◌≤◌, Bool, true, false, ◌≡◌, refl, sym, ap, ◌∙◌, inl, inr, Bool-cases, List, [],
  ◌∷◌, ◌++◌, All, arith,
}
use payment_service.Relay.Outbox.{
  Row, RowStatus, published, failed, DeadLetter, Store, call, call_with, calls,
}

abbrev pub is_final : RowStatus → Bool
is_final published = true
is_final failed = true
is_final _ = false

-- The same event, tried as often or more often; a row that is published or failed does not change.
pub record RowFollows (r r' : Row) : Type 0 where
  pub same_id : r'.id ≡ r.id
  pub same_creation : r'.created_at ≡ r.created_at
  pub same_event : r'.event ≡ r.event
  pub no_fewer_attempts : r.attempts ≤ r'.attempts
  pub final_kept : is_final r.status ≡ true → r' ≡ r

abbrev pub RowsFollow : List Row → List Row → Type 0
RowsFollow [] [] = Unit
RowsFollow (r ∷ rs) (r' ∷ rs') = RowFollows r r' × RowsFollow rs rs'
RowsFollow _ _ = ⊥

pub RowFollows-refl : (r : Row) → RowFollows r r
RowFollows-refl r = record {
  same_id = refl;
  same_creation = refl;
  same_event = refl;
  no_fewer_attempts = omega arith;
  final_kept = λ _. refl;
}

RowFollows-trans : (a b c : Row) → RowFollows a b → RowFollows b c → RowFollows a c
RowFollows-trans a b c p q = record {
  same_id = q.same_id ∙ p.same_id;
  same_creation = q.same_creation ∙ p.same_creation;
  same_event = q.same_event ∙ p.same_event;
  no_fewer_attempts = omega (arith, p.no_fewer_attempts, q.no_fewer_attempts);
  final_kept =
      λ f. let same = p.final_kept f in q.final_kept (ap (λ r. is_final r.status) same ∙ f) ∙ same;
}

pub RowsFollow-refl : (rs : List Row) → RowsFollow rs rs
RowsFollow-refl [] = tt
RowsFollow-refl (r ∷ rs) = (RowFollows-refl r, RowsFollow-refl rs)

pub RowsFollow-trans :
    (as' bs cs : List Row) → RowsFollow as' bs → RowsFollow bs cs → RowsFollow as' cs
RowsFollow-trans [] [] [] p q = tt
RowsFollow-trans [] [] (_ ∷ _) p q = absurd q
RowsFollow-trans [] (_ ∷ _) cs p q = absurd p
RowsFollow-trans (_ ∷ _) [] cs p q = absurd p
RowsFollow-trans (_ ∷ _) (_ ∷ _) [] p q = absurd q
RowsFollow-trans (a ∷ as') (b ∷ bs) (c ∷ cs) (p, ps) (q, qs) =
    (RowFollows-trans a b c p q, RowsFollow-trans as' bs cs ps qs)

-- A dead letter that holds the event of a row.
pub data HasLetter (r : Row) : List DeadLetter → Type 0 where
  here :
      {d : DeadLetter} {ds : List DeadLetter}
      → d.original_event_id ≡ r.id
      → d.event ≡ r.event
      → HasLetter r (d ∷ ds)
  there : {d : DeadLetter} {ds : List DeadLetter} → HasLetter r ds → HasLetter r (d ∷ ds)

-- Every failed row has a dead letter.
abbrev pub RowBuried : List DeadLetter → Row → Type 0
RowBuried ds r = r.status ≡ failed → HasLetter r ds

abbrev pub IsBuried : Store → Type 0
IsBuried s = All (RowBuried s.dead_letters) s.rows

-- What a call may do to the outbox.
pub record Follows (s s' : Store) : Type 0 where
  pub rows_follow : RowsFollow s.rows s'.rows
  pub letters_added : (new : List DeadLetter) × (s'.dead_letters ≡ new ++ s.dead_letters)
  pub buried : IsBuried s → IsBuried s'

pub Follows-trans : (a b c : Store) → Follows a b → Follows b c → Follows a c
Follows-trans a b c p q = record {
  rows_follow = RowsFollow-trans a.rows b.rows c.rows p.rows_follow q.rows_follow;
  letters_added =
      let (n1, e1) = p.letters_added in
      let (n2, e2) = q.letters_added in
      (n2 ++ n1, e2 ∙ ap (λ ds. n2 ++ ds) e1 ∙ sym (append_assoc n2 n1 a.dead_letters));
  buried = λ h. q.buried (p.buried h);
}
  where
    append_assoc : (xs ys zs : List DeadLetter) → (xs ++ ys) ++ zs ≡ xs ++ (ys ++ zs)
    append_assoc [] ys zs = refl
    append_assoc (x ∷ xs) ys zs = ap (λ l. x ∷ l) (append_assoc xs ys zs)

-- The rows and dead letters of another store.
abbrev pub SameQueue : Store → Store → Type 0
SameQueue s s' = (s'.rows ≡ s.rows) × (s'.dead_letters ≡ s.dead_letters)

pub Follows-same : (s s' : Store) → SameQueue s s' → Follows s s'
Follows-same s s' (r, d) = record {
  rows_follow = rw r (RowsFollow-refl s.rows);
  letters_added = ([], d);
  buried = λ h. rw r (rw d h);
}

pub call_same : (s : Store) → SameQueue s (call s).1
unfolding call
call_same s = by_faults s.faults
  where
    by_faults : (fs : List Bool) → SameQueue s (call_with fs s).1
    by_faults [] = (refl, refl)
    by_faults (b ∷ bs) = (refl, refl)

pub calls_same : (n : ℕ) (s : Store) → SameQueue s (calls n s).1
unfolding calls
calls_same zero s = (refl, refl)
calls_same (suc n) s = elim (Bool-cases (call s).0) [
  | inl went ↦
      rw went
        (let (r1, d1) = call_same s in let (r2, d2) = calls_same n (call s).1 in (r2 ∙ r1, d2 ∙ d1))
  | inr lost ↦ rw lost (call_same s)
]
