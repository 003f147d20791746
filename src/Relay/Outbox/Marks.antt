-- ===== src/Relay/Outbox/Marks.antt =====
-- What the marks and the claims of the relay leave (internal/adapters/postgres/outbox.go).
use payment_service.Prelude.{
  ℕ, ◌≤◌, Bool, true, false, ◌&&◌, ◌≡◌, refl, ap, inl, inr, Bool-cases, Option, none, some, List,
  [], ◌∷◌, All, String, arith, if◌then◌else◌,
}
use payment_service.Prelude.Int.{ℤ}
use payment_service.Relay.Outbox.{
  Row, RowStatus, pending, publishing, published, failed, DeadLetter, Store, call, calls, is_row,
  is_publishing, claimed_row, update_claimed, as_published, as_failed, as_exhausted, dead_letter,
  mark_published, mark_failed, mark_exhausted, update_one, finish, bury, bury_claimed,
}
use payment_service.Relay.Outbox.Follows.{
  RowFollows, RowsFollow, RowsFollow-refl, RowFollows-refl, here, there, RowBuried, Follows,
  Follows-same, Follows-trans, SameQueue, call_same, calls_same, is_final,
}

claimed_row-publishing :
    (id : ℕ) (at : ℤ) (rs : List Row) {x : Row}
    → claimed_row id at rs ≡ some x
    → is_publishing x.status ≡ true
unfolding claimed_row
claimed_row-publishing id at [] h = cc
claimed_row-publishing id at (r ∷ rs) {x} h =
    elim (Bool-cases (is_row id at r && is_publishing r.status)) [
      | inl b ↦ ground arith
      | inr b ↦
          let h' : claimed_row id at rs ≡ some x = ground arith in
          claimed_row-publishing id at rs h'
    ]

-- The row that is claimed is the one that is changed.
update_claimed-RowsFollow :
    (id : ℕ) (at : ℤ) (f : Row → Row) (rs : List Row) {x : Row}
    → claimed_row id at rs ≡ some x
    → RowFollows x (f x)
    → RowsFollow rs (update_claimed id at f rs)
unfolding claimed_row update_claimed
update_claimed-RowsFollow id at f [] h p = absurd (cc)
update_claimed-RowsFollow id at f (r ∷ rs) {x} h p =
    elim (Bool-cases (is_row id at r && is_publishing r.status)) [
      | inl b ↦ let same : r ≡ x = ground arith in rw b (rw same (p, RowsFollow-refl rs))
      | inr b ↦
          let h' : claimed_row id at rs ≡ some x = ground arith in
          rw b (RowFollows-refl r, update_claimed-RowsFollow id at f rs h' p)
    ]

update_claimed-buried :
    (id : ℕ) (at : ℤ) (f : Row → Row) (ds : List DeadLetter) (rs : List Row) {x : Row}
    → claimed_row id at rs ≡ some x
    → RowBuried ds (f x)
    → All (RowBuried ds) rs
    → All (RowBuried ds) (update_claimed id at f rs)
unfolding claimed_row update_claimed
update_claimed-buried id at f ds [] h p all = absurd (cc)
update_claimed-buried id at f ds (r ∷ rs) {x} h p (own, all) =
    elim (Bool-cases (is_row id at r && is_publishing r.status)) [
      | inl b ↦ let same : r ≡ x = ground arith in rw b (rw same p, all)
      | inr b ↦
          let h' : claimed_row id at rs ≡ some x = ground arith in
          rw b (own, update_claimed-buried id at f ds rs h' p all)
    ]

-- A row that is being published may be changed in everything but what it is.
abbrev Moves : (Row → Row) → Type 0
Moves f =
    (x : Row)
    → ((f x).id ≡ x.id)
      × ((f x).created_at ≡ x.created_at)
      × ((f x).event ≡ x.event)
      × (x.attempts ≤ (f x).attempts)

Moves-RowFollows :
    (f : Row → Row) (x : Row) → Moves f → is_publishing x.status ≡ true → RowFollows x (f x)
Moves-RowFollows f x moves p =
    let (i, c, e, a) = moves x in
    record {
      same_id = i;
      same_creation = c;
      same_event = e;
      no_fewer_attempts = a;
      final_kept = λ q. absurd (not_final x.status p q);
    }
  where
    not_final : (s : RowStatus) → is_publishing s ≡ true → is_final s ≡ true → ⊥
    not_final pending p q = cc
    not_final publishing p q = cc
    not_final published p q = cc
    not_final failed p q = cc

update_one-Follows :
    (id : ℕ) (at : ℤ) (f : Row → Row) (s : Store)
    → Moves f
    → ((x : Row) → (f x).status ≡ failed → ⊥)
    → Follows s (update_one id at f s).1
update_one-Follows id at f s moves alive = by_row (claimed_row id at s.rows) refl
  where
    by_row : (o : Option Row) → claimed_row id at s.rows ≡ o → Follows s (finish o id at f s).1
    by_row none e = Follows-same s s (refl, refl)
    by_row (some x) e = record {
      rows_follow =
          update_claimed-RowsFollow id at f s.rows e
            (Moves-RowFollows f x moves (claimed_row-publishing id at s.rows e));
      letters_added = ([], refl);
      buried = λ all.
          update_claimed-buried id at f s.dead_letters s.rows e (λ dead. absurd (alive x dead)) all;
    }

-- What comes after round trips that went through.
called-Follows :
    (s : Store) (p : Bool × Store) (f : Store → Bool × Store)
    → SameQueue s p.1
    → ((s' : Store) → Follows s' (f s').1)
    → Follows s (if p.0 then f p.1 else (false, p.1)).1
called-Follows s (true, s1) f same h = Follows-trans s s1 _ (Follows-same s s1 same) (h s1)
called-Follows s (false, s1) f same h = Follows-same s s1 same

pub mark_published-Follows : (id : ℕ) (at : ℤ) (s : Store) → Follows s (mark_published id at s).1
unfolding mark_published
mark_published-Follows id at s =
    called-Follows s (call s) (λ s1. update_one id at (as_published s1.clock) s1) (call_same s)
      λ s1.
        update_one-Follows id at (as_published s1.clock) s1 (λ x. (refl, refl, refl, omega arith))
          (λ x e. cc)

pub mark_failed-Follows :
    (id : ℕ) (at : ℤ) (reason : String) (next : ℤ) (s : Store)
    → Follows s (mark_failed id at reason next s).1
unfolding mark_failed
mark_failed-Follows id at reason next s =
    called-Follows s (call s) (λ s1. update_one id at (as_failed reason next) s1) (call_same s)
      λ s1.
        update_one-Follows id at (as_failed reason next) s1 (λ x. (refl, refl, refl, omega arith))
          (λ x e. cc)

buried_more :
    (d : DeadLetter) (ds : List DeadLetter) (rs : List Row)
    → All (RowBuried ds) rs
    → All (RowBuried (d ∷ ds)) rs
buried_more d ds [] h = tt
buried_more d ds (r ∷ rs) (h, hs) = ((λ e. there (h e)), buried_more d ds rs hs)

bury-Follows :
    (id : ℕ) (at : ℤ) (reason : String) (x : Row) (s : Store)
    → claimed_row id at s.rows ≡ some x
    → Follows s (bury x id at reason (calls 2 s)).1
bury-Follows id at reason x s e = by_calls (calls 2 s).0 (calls 2 s).1 (calls_same 2 s)
  where
    by_calls :
        (went : Bool) (s1 : Store) → SameQueue s s1 → Follows s (bury x id at reason (went, s1)).1
    by_calls false s1 same = Follows-same s s1 same
    by_calls true s1 (same_rows, same_letters) = record {
      rows_follow = rw same_rows (
          update_claimed-RowsFollow id at (as_exhausted reason) s.rows e (
            Moves-RowFollows (as_exhausted reason) x (λ x. (refl, refl, refl, omega arith))
              (claimed_row-publishing id at s.rows e)));
      letters_added =
          (dead_letter x reason s1 ∷ [], ap (λ ds. dead_letter x reason s1 ∷ ds) same_letters);
      buried = λ all. rw same_rows (
          rw same_letters (
            update_claimed-buried id at (as_exhausted reason) _ s.rows e (λ _. here refl refl)
              (buried_more _ s.dead_letters s.rows all)));
    }

pub mark_exhausted-Follows :
    (id : ℕ) (at : ℤ) (reason : String) (s : Store) → Follows s (mark_exhausted id at reason s).1
unfolding mark_exhausted
mark_exhausted-Follows id at reason s =
    called-Follows s (calls 2 s) (λ s1. bury_claimed (claimed_row id at s1.rows) id at reason s1)
      (calls_same 2 s) λ s1. by_row s1 (claimed_row id at s1.rows) refl
  where
    by_row :
        (s1 : Store) (o : Option Row)
        → claimed_row id at s1.rows ≡ o
        → Follows s1 (bury_claimed o id at reason s1).1
    by_row s1 none e = Follows-same s1 s1 (refl, refl)
    by_row s1 (some x) e = bury-Follows id at reason x s1 e
