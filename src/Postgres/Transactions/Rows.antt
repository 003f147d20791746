-- ===== src/Postgres/Transactions/Rows.antt =====
-- What the writes to the table of payments do to one row
-- (internal/adapters/postgres/transaction.go).
use payment_service.Prelude.{ℕ, true, ◌≡◌, some, is_some, List, [], ◌∷◌, arith}
use payment_service.Domain.Transaction.{Txn}
use payment_service.Postgres.Transactions.{find_txn, replace_txn}

pub find_txn-replace :
    (id key : ℕ) (t : Txn) (ts : List Txn)
    → t.id ≡ key
    → is_some (find_txn id ts) ≡ true
    → is_some (find_txn id (replace_txn key t ts)) ≡ true
unfolding find_txn replace_txn
find_txn-replace id key t [] e h = h
find_txn-replace id key t (x ∷ xs) e h = ground (arith, find_txn-replace id key t xs e)

pub find_txn-id : (id : ℕ) (ts : List Txn) (t : Txn) → find_txn id ts ≡ some t → t.id ≡ id
unfolding find_txn
find_txn-id id [] t h = cc
find_txn-id id (x ∷ xs) t h = ground (arith, find_txn-id id xs t)

-- The row that is put in the place of another is found under its id.
pub find_txn-replaced :
    (id key : ℕ) (t : Txn) (ts : List Txn)
    → key ≡ id
    → t.id ≡ key
    → is_some (find_txn id ts) ≡ true
    → find_txn id (replace_txn key t ts) ≡ some t
unfolding find_txn replace_txn
find_txn-replaced id key t [] k e h = cc
find_txn-replaced id key t (x ∷ xs) k e h = ground (arith, find_txn-replaced id key t xs k e)
