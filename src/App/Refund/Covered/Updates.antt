-- ===== src/App/Refund/Covered/Updates.antt =====
-- What one write does to the sums of the active refunds (internal/adapters/postgres/refund.go,
-- transaction.go).
use payment_service.Prelude.{
  ℕ, suc, Bool, true, ◌&&◌, ◌||◌, ◌==◌, ◌≡◌, refl, ap, ◌∙◌, inl, inr, Option, none, some, List, [],
  ◌∷◌, Bool-cases, arith,
}
use payment_service.Prelude.Int.{ℤ, ◌≤ℤ◌}
use payment_service.Domain.Transaction.{Txn}
use payment_service.Domain.Refund.{Refund, Status, status_eq, initiated, processing}
use payment_service.Postgres.{World, Db, Effect, ◌>>=◌}
use payment_service.Postgres.Transactions.{find_txn, replace_txn, updated_row}
use payment_service.Postgres.Refunds.{
  find_refund, replace_refund, is_active, put_refund, claim_row, claim_processing, write_row,
  update_status,
}
use payment_service.Postgres.Steps.{Ends, done, stopped, bind, imply, At, gets-Ends, db_call-Kept}
use payment_service.Postgres.Kept.{Anywhere}
use payment_service.Postgres.Told.{or_anything}
use payment_service.App.Refund.Covered.{
  IsCovered, Covers, find_refund-id, find_refund-positive, sum_unfailed, sum_active-unfailed,
  active_within, sum_active-replaced, replaced-positive, replaced_is_priced,
}

module _ {amount_of : ℕ → ℤ} {d : Db} (c : IsCovered amount_of d) where
  -- The rest of the tables does not matter.
  pub same_rows : {d' : Db} → d'.txns ≡ d.txns → d'.refunds ≡ d.refunds → IsCovered amount_of d'
  same_rows t r = record {
    is_priced = rw t c.is_priced;
    is_within = rw r c.is_within;
    is_positive = rw r c.is_positive;
  }

  priced_after :
      (key id : ℕ) (row moved t : Txn) (now : ℤ)
      → find_txn key d.txns ≡ some row
      → find_txn id (replace_txn row.id (updated_row row moved now) d.txns) ≡ some t
      → t.amount ≡ amount_of id
  priced_after key id row moved t now held found =
      elim (replaced_is_priced id key row (updated_row row moved now) t d.txns held refl found) [
        | inl old ↦ c.is_priced id t old
        | inr (e, old) ↦ ap (λ t. t.amount) e ∙ c.is_priced id row old
      ]

  pub payment_written :
      (key : ℕ) (row moved : Txn) (now : ℤ)
      → find_txn key d.txns ≡ some row
      → IsCovered amount_of
          (record d { txns = replace_txn row.id (updated_row row moved now) d.txns })
  payment_written key row moved now held = record {
    is_priced = λ id t found. priced_after key id row moved t now held found;
    is_within = c.is_within;
    is_positive = c.is_positive;
  }

  within_after :
      (key id : ℕ) (row new : Refund)
      → find_refund key d.refunds ≡ some row
      → new.transaction_id ≡ row.transaction_id
      → new.amount ≡ row.amount
      → is_active row.status ≡ true
      → sum_unfailed id (replace_refund key new d.refunds) ≤ℤ amount_of id
  within_after key id row new held t a active =
      let less =
        sum_active-replaced id key row new d.refunds held t a active
          (find_refund-positive key d.refunds row held c.is_positive) in
      let old = active_within c id in
      rw⁻¹ (sum_active-unfailed id (replace_refund key new d.refunds)) (omega arith)

  pub refund_written :
      (key : ℕ) (row new : Refund)
      → find_refund key d.refunds ≡ some row
      → new.transaction_id ≡ row.transaction_id
      → new.amount ≡ row.amount
      → is_active row.status ≡ true
      → IsCovered amount_of (record d { refunds = replace_refund row.id new d.refunds })
  refund_written key row new held t a active =
      let same : row.id ≡ key = find_refund-id key d.refunds row held in
      let positive = find_refund-positive key d.refunds row held c.is_positive in
      rw same (record {
        is_priced = c.is_priced;
        is_within = λ id. within_after key id row new held t a active;
        is_positive = replaced-positive key new d.refunds (rw a positive) c.is_positive;
      })

-- The row of a refund that is being driven still counts.
pub record Drives (amount_of : ℕ → ℤ) (id : ℕ) (d : Db) : Type 0 where
  pub covered : IsCovered amount_of d
  pub row : Refund
  pub row_found : find_refund id d.refunds ≡ some row
  pub is_counted : is_active row.status ≡ true

find_refund-replaced :
    (key : ℕ) (row new : Refund) (rs : List Refund)
    → find_refund key rs ≡ some row
    → new.id ≡ row.id
    → find_refund key (replace_refund row.id new rs) ≡ some new
unfolding find_refund replace_refund
find_refund-replaced key row new [] h e = absurd (cc)
find_refund-replaced key row new (x ∷ xs) h e =
    let own : row.id ≡ key = find_refund-id key (x ∷ xs) row h in
    elim (Bool-cases (x.id == key)) [
      | inl here ↦ ground arith
      | inr there ↦
          let rest = find_refund-replaced key row new xs (ground arith) e in ground (arith, rest)
    ]

active_of :
    (s : Status) → (status_eq s initiated || status_eq s processing) ≡ true → is_active s ≡ true
unfolding is_active
active_of initiated h = refl
active_of processing h = refl
active_of _ h = absurd (cc)

abbrev pub Claimed : (ℕ → ℤ) → ℕ → Bool × Refund → World → Type 0
Claimed amount_of id a w' =
    IsCovered amount_of w'.db × ((a.0 ≡ true) → (a.1.id ≡ id) × Drives amount_of id w'.db)

module _ {amount_of : ℕ → ℤ} {d : Db} {now : ℤ} {fx : List Effect} {w : World}
    (c : IsCovered amount_of d) (at : At d now fx w) where
  pub held-Covers : Covers amount_of w
  held-Covers = rw at.at_db c

  claim_row-Covers :
      (o : Option Refund) (r : Refund)
      → find_refund r.id d.refunds ≡ o
      → Ends (Claimed amount_of r.id) (Covers amount_of) (claim_row o r w)
  unfolding is_active ◌>>=◌
  claim_row-Covers none r held = done (held-Covers, λ h. absurd (cc))
  claim_row-Covers (some row) r held =
      elim (Bool-cases (
        (status_eq row.status initiated || status_eq row.status processing)
        && (row.version == r.version))) [
          | inl won ↦
              let claimed = record row {
                status = processing;
                version = suc row.version;
                attempts = suc row.attempts;
              } in
              let active = active_of row.status (ground arith) in
              let next = refund_written c r.id row claimed held refl refl active in
              rw won (
                done (
                  rw at.at_db next,
                  λ _. (
                    refl,
                    rw at.at_db (record {
                      covered = next;
                      row = claimed;
                      row_found = find_refund-replaced r.id row claimed d.refunds held refl;
                      is_counted = refl;
                    }),
                  ),
                ))
          | inr lost ↦ rw lost (done (held-Covers, λ h. absurd (cc)))
        ]

module _ {amount_of : ℕ → ℤ} {d : Db} {now : ℤ} {fx : List Effect} {w : World} where
  pub claim_processing-Covers :
      (r : Refund)
      → IsCovered amount_of d
      → At d now fx w
      → Ends (Claimed amount_of r.id) (Covers amount_of) (claim_processing r w)
  unfolding claim_processing
  claim_processing-Covers r c at =
      bind _ _ _ (imply (λ _ _ h. h) (λ _ at1. held-Covers c at1) (db_call-Kept at)) λ _ w1 at1.
        bind _ _ _ (gets-Ends at1 (λ w. find_refund r.id w.db.refunds))
          λ o w2 (e, at2). claim_row-Covers c at2 o r (ground arith)

  -- The refund is written while its row counts.
  write_row-Covers :
      (o : Option Refund) (r : Refund)
      → Drives amount_of r.id d
      → find_refund r.id d.refunds ≡ o
      → At d now fx w
      → Ends (λ _. Covers amount_of) Anywhere (write_row o r w)
  write_row-Covers none r h held at = absurd (cc)
  write_row-Covers (some row) r h held at = elim (Bool-cases (row.version == r.version)) [
    | inl same ↦
        let own : h.row ≡ row = cc in
        let written = record row {
          status = r.status;
          version = suc row.version;
          gateway_refund_id = r.gateway_refund_id;
          actual_gateway = r.actual_gateway;
          attempts = r.attempts;
          failure_reason = r.failure_reason;
          resolved_at = r.resolved_at;
        } in
        rw same (
          bind {M = λ _ w'. w'.db ≡ record d { refunds = replace_refund row.id written d.refunds }}
            (put_refund written) _ w (done (ground arith))
            λ _ w1 e. done (rw e (refund_written h.covered r.id row written held refl refl (cc))))
    | inr other ↦ rw other (bind _ _ _ (or_anything (db_call-Kept at)) λ _ w1 at1. stopped tt)
  ]

module _ {amount_of : ℕ → ℤ} {d : Db} {now : ℤ} {fx : List Effect} {w : World} where
  pub update_status-Covers :
      (r : Refund)
      → Drives amount_of r.id d
      → At d now fx w
      → Ends (λ _. Covers amount_of) Anywhere (update_status r w)
  unfolding update_status
  update_status-Covers r h at = bind _ _ _ (or_anything (db_call-Kept at)) λ _ w1 at1.
      bind _ _ _ (gets-Ends at1 (λ w. find_refund r.id w.db.refunds))
        λ o w2 (e, at2). write_row-Covers o r h (ground arith) at2
