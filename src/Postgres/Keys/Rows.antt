-- ===== src/Postgres/Keys/Rows.antt =====
-- What the operations on idempotency keys do to one row
-- (internal/adapters/postgres/idempotency.go).
use payment_service.Prelude.{
  Bool, true, false, ◌≡◌, refl, sym, ap, inl, inr, Bool-cases, Option, none, some, List, [], ◌∷◌,
  String, str_eq, str_eq_refl, arith,
}
use payment_service.Prelude.Int.{ℤ}
use payment_service.Ports.Responses.{Response}
use payment_service.Postgres.{World, Db, Key, completed, gets, ◌>>=◌}
use payment_service.Postgres.Keys.{
  find_key, reserve, lookup, complete, complete_key, reserved_key, claim_key,
}
use payment_service.Postgres.Steps.{Ends, done, bind}
use payment_service.Postgres.Kept.{Holds, Anywhere, db_call-Holds}

abbrev pub completed_key : Key → Response → Key
completed_key k r = record k { response = r; status = completed }

-- Completing a key that has a row changes that row.
pub find_key_complete :
    (c : String) (r : Response) (ks : List Key) {k : Key}
    → find_key c ks ≡ some k
    → find_key c (complete_key c r ks) ≡ some (completed_key k r)
unfolding find_key complete_key
find_key_complete c r [] h = ground arith
find_key_complete c r (x ∷ ks) {k} h = elim (Bool-cases (str_eq x.composite c)) [
  | inl same ↦ rw same (rw same (ground arith))
  | inr other ↦
      let h' : find_key c ks ≡ some k = ground arith in
      let ih = find_key_complete c r ks h' in rw other (rw other ih)
]

pub find_key-reserved :
    (c h : String) (now : ℤ) (ks : List Key)
    → find_key c (reserved_key c h now ∷ ks) ≡ some (reserved_key c h now)
unfolding find_key
find_key-reserved c h now ks = rw (str_eq_refl c) refl

-- What `Reserve` answers, by the row that was there: a new row, or nothing changed.
pub data Claimed (c h : String) (d : Db) : Bool → World → Type 0 where
  fresh :
      {w : World} (now : ℤ)
      → find_key c d.keys ≡ none
      → Holds (record d { keys = reserved_key c h now ∷ d.keys }) w
      → Claimed c h d true w
  taken : {w : World} (k : Key) → find_key c d.keys ≡ some k → Holds d w → Claimed c h d false w

claim_key-Ends :
    {d : Db} {w : World} (c h : String) (o : Option Key)
    → find_key c d.keys ≡ o
    → Holds d w
    → Ends (Claimed c h d) Anywhere (claim_key o c h w)
unfolding ◌>>=◌
claim_key-Ends c h (some k) e held = done (taken k e held)
claim_key-Ends {w} c h none e held = done (
    fresh w.clock e (record {
      same_db =
          ap {A = Db} (λ d. record d { keys = reserved_key c h w.clock ∷ d.keys }) held.same_db;
    }))

module _ {d : Db} {w : World} (held : Holds d w) where
  pub reserve-Ends : (c h : String) → Ends (Claimed c h d) Anywhere (reserve c h w)
  unfolding reserve
  reserve-Ends c h = bind _ _ _ (db_call-Holds held) λ _ w1 at1.
      bind {M = λ o w'. (o ≡ find_key c d.keys) × Holds d w'} (gets (λ w. find_key c w.db.keys)) _
        w1 (done (ground arith, at1)) λ o w2 (e, at2). claim_key-Ends c h o (sym e) at2

  pub lookup-Ends :
      (c : String) → Ends (λ o w'. (o ≡ find_key c d.keys) × Holds d w') Anywhere (lookup c w)
  unfolding lookup
  lookup-Ends c = bind _ _ _ (db_call-Holds held) λ _ w1 at1. done (ground arith, at1)

  pub complete-Ends :
      (c : String) (r : Response)
      → Ends (λ _. Holds (record d { keys = complete_key c r d.keys })) Anywhere (complete c r w)
  unfolding complete
  complete-Ends c r = bind _ _ _ (db_call-Holds held) λ _ w1 at1. done (ground arith)
