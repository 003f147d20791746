-- ===== src/App/Refund/Covered.antt =====
-- What the active refunds of a payment add up to (internal/app/refund and
-- internal/adapters/postgres/refund.go).
pub mod Updates
pub mod Ended
pub mod Run
pub mod Requests
pub mod Guarded
pub mod Sequences
use payment_service.Prelude.{
  refl, not, if◌then◌else◌, ℕ, Bool, true, false, ◌&&◌, ◌==◌, ◌≡◌, ap, sym, ◌⊎◌, inl, inr, some,
  List, [], ◌∷◌, All, Bool-cases, arith,
}
use payment_service.Prelude.Int.{ℤ, pos, ◌≤ℤ◌, ◌+ℤ◌, int_laws}
use payment_service.Domain.Transaction.{Txn}
use payment_service.Domain.Refund.{
  Status, status_eq, initiated, processing, refunded, failed, Refund,
}
use payment_service.Postgres.{World, Db}
use payment_service.Postgres.Transactions.{find_txn, replace_txn}
use payment_service.Postgres.Transactions.Rows.{find_txn-id}
use payment_service.Postgres.Refunds.{find_refund, replace_refund, sum_active, is_active}

-- What the refunds of a payment that have not failed add up to.
unfoldable pub sum_unfailed : ℕ → List Refund → ℤ
sum_unfailed txn [] = pos 0
sum_unfailed txn (r ∷ rs) =
    let rest = sum_unfailed txn rs in
    if (r.transaction_id == txn) && not (status_eq r.status failed) then r.amount +ℤ rest else rest

-- Each payment has its amount, no refund is negative, and the refunds of a payment that have not
-- failed are within its amount.
pub record IsCovered (amount_of : ℕ → ℤ) (d : Db) : Type 0 where
  pub is_priced : (id : ℕ) (t : Txn) → find_txn id d.txns ≡ some t → t.amount ≡ amount_of id
  pub is_within : (id : ℕ) → sum_unfailed id d.refunds ≤ℤ amount_of id
  pub is_positive : All (λ r. pos 0 ≤ℤ r.amount) d.refunds

abbrev pub Covers : (ℕ → ℤ) → World → Type 0
Covers amount_of w = IsCovered amount_of w.db

unfailed_active : (s : Status) → is_active s ≡ not (status_eq s failed)
unfolding is_active
unfailed_active initiated = refl
unfailed_active processing = refl
unfailed_active refunded = refl
unfailed_active failed = refl

-- The query of the service counts the refunds that have not failed.
pub sum_active-unfailed : (txn : ℕ) (rs : List Refund) → sum_active txn rs ≡ sum_unfailed txn rs
unfolding sum_active sum_unfailed
sum_active-unfailed txn [] = refl
sum_active-unfailed txn (r ∷ rs) = rw (unfailed_active r.status, sum_active-unfailed txn rs) refl

pub active_within :
    {amount_of : ℕ → ℤ} {d : Db}
    → IsCovered amount_of d
    → (id : ℕ) → sum_active id d.refunds ≤ℤ amount_of id
active_within {d} c id = rw (sum_active-unfailed id d.refunds) (c.is_within id)

pub find_refund-id :
    (id : ℕ) (rs : List Refund) (r : Refund) → find_refund id rs ≡ some r → r.id ≡ id
unfolding find_refund
find_refund-id id [] r h = cc
find_refund-id id (x ∷ xs) r h = ground (arith, find_refund-id id xs r)

pub find_refund-positive :
    (id : ℕ) (rs : List Refund) (r : Refund)
    → find_refund id rs ≡ some r
    → All (λ r. pos 0 ≤ℤ r.amount) rs
    → pos 0 ≤ℤ r.amount
unfolding find_refund
find_refund-positive id [] r h _ = absurd (cc)
find_refund-positive id (x ∷ xs) r h (p, ps) = elim (Bool-cases (x.id == id)) [
  | inl here ↦ ground arith
  | inr there ↦ find_refund-positive id xs r (ground arith) ps
]

pub sum_active-positive :
    (txn : ℕ) (rs : List Refund) → All (λ r. pos 0 ≤ℤ r.amount) rs → pos 0 ≤ℤ sum_active txn rs
unfolding sum_active
sum_active-positive txn [] _ = omega arith
sum_active-positive txn (r ∷ rs) (p, ps) =
    let rest = sum_active-positive txn rs ps in
    elim (Bool-cases ((r.transaction_id == txn) && is_active r.status)) [
      | inl b ↦ rw b (grind int_laws)
      | inr b ↦ rw b rest
    ]

-- A row of the same refund that counts no less often is put in the place of one.
sum_active-head :
    (txn : ℕ) (old new : Refund) (rs : List Refund)
    → new.transaction_id ≡ old.transaction_id
    → new.amount ≡ old.amount
    → is_active old.status ≡ true
    → pos 0 ≤ℤ old.amount
    → sum_active txn (new ∷ rs) ≤ℤ sum_active txn (old ∷ rs)
unfolding sum_active
sum_active-head txn old new rs t a active p =
    elim (Bool-cases ((new.transaction_id == txn) && is_active new.status)) [
      | inl b ↦
          let counted : ((old.transaction_id == txn) && is_active old.status) ≡ true =
            ground arith in
          rw (b, counted) (grind int_laws)
      | inr b ↦ elim (Bool-cases (old.transaction_id == txn)) [
        | inl c ↦ rw (b, c, active) (grind int_laws)
        | inr c ↦ rw (b, c) (omega arith)
      ]
    ]

sum_active-tail :
    (txn : ℕ) (x : Refund) (rs rs' : List Refund)
    → sum_active txn rs' ≤ℤ sum_active txn rs
    → sum_active txn (x ∷ rs') ≤ℤ sum_active txn (x ∷ rs)
unfolding sum_active
sum_active-tail txn x rs rs' h =
    elim (Bool-cases ((x.transaction_id == txn) && is_active x.status)) [
      | inl b ↦ rw b (grind int_laws)
      | inr b ↦ rw b h
    ]

-- An active refund that is updated: what counts does not grow.
pub sum_active-replaced :
    (txn key : ℕ) (row new : Refund) (rs : List Refund)
    → find_refund key rs ≡ some row
    → new.transaction_id ≡ row.transaction_id
    → new.amount ≡ row.amount
    → is_active row.status ≡ true
    → pos 0 ≤ℤ row.amount
    → sum_active txn (replace_refund key new rs) ≤ℤ sum_active txn rs
unfolding find_refund replace_refund
sum_active-replaced txn key row new [] h t a active p = absurd (cc)
sum_active-replaced txn key row new (x ∷ xs) h t a active p = elim (Bool-cases (x.id == key)) [
  | inl here ↦
      let same : x ≡ row = ground arith in
      rw here (sum_active-head txn x new xs (cc) (cc) (cc) (rw same p))
  | inr there ↦ rw there (
      sum_active-tail txn x xs (replace_refund key new xs)
        (sum_active-replaced txn key row new xs (ground arith) t a active p))
]

pub replaced-positive :
    (key : ℕ) (new : Refund) (rs : List Refund)
    → pos 0 ≤ℤ new.amount
    → All (λ r. pos 0 ≤ℤ r.amount) rs
    → All (λ r. pos 0 ≤ℤ r.amount) (replace_refund key new rs)
unfolding replace_refund
replaced-positive key new [] p _ = tt
replaced-positive key new (x ∷ xs) p (q, qs) = elim (Bool-cases (x.id == key)) [
  | inl here ↦ rw here (p, qs)
  | inr there ↦ rw there (q, replaced-positive key new xs p qs)
]

-- The row of a payment is written with the amount that it had.
pub replaced_is_priced :
    (id key : ℕ) (row new t : Txn) (ts : List Txn)
    → find_txn key ts ≡ some row
    → new.id ≡ row.id
    → find_txn id (replace_txn row.id new ts) ≡ some t
    → (find_txn id ts ≡ some t) ⊎ ((t ≡ new) × (find_txn id ts ≡ some row))
unfolding find_txn replace_txn
replaced_is_priced id key row new t [] held same h = absurd (cc)
replaced_is_priced id key row new t (x ∷ xs) held same h = elim (Bool-cases (x.id == key)) [
  | inl here ↦
      let is_row : x ≡ row = ground arith in
      elim (Bool-cases (x.id == id)) [
        | inl asked ↦ inr (ground arith)
        | inr other ↦ inl (ground arith)
      ]
  | inr there ↦
      let key_row : row.id ≡ key = find_txn-id key (x ∷ xs) row held in
      elim (Bool-cases (x.id == id)) [
        | inl asked ↦ inl (ground arith)
        | inr other ↦
            let rest = replaced_is_priced id key row new t xs (ground arith) same (ground arith) in
            ground (arith, rest)
      ]
]
