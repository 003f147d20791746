-- ===== src/App/Dispute/Evidence/Granted.antt =====
-- Who may hand in evidence (internal/app/dispute/service.go).
use payment_service.Prelude.{
  ℕ, Bool, true, false, ◌||◌, ◌≡◌, ◌⊎◌, inl, inr, refl, Option, none, some, is_some, List, ◌∷◌,
  Result, arith, ◌==◌, if◌then◌else◌, Bool-cases,
}
use payment_service.Prelude.Int.{ℤ}
use payment_service.Domain.Transaction.{Txn}
use payment_service.Domain.Dispute.{Dispute, Evidence, can_submit_evidence}
use payment_service.Postgres.{World, Db, Effect, Error}
use payment_service.Postgres.Transactions.{find_txn}
use payment_service.Postgres.Disputes.{
  find_dispute, get_by_id, scanned, update, update_rows, add_evidence, add_unless, has_evidence,
}
use payment_service.Postgres.Steps.{Ends, done, stopped, bind, imply, At, gets-Ends, db_call-Kept}
use payment_service.Postgres.Updates.{get_by_id-Kept}
use payment_service.App.Dispute.Evidence.{
  owned_of, tenant_can_access, require_access, get_dispute, require_open, mark_submitted,
  submit_evidence,
}

-- The tenant owns the disputed payment, or is the operators' nil tenant.
abbrev pub IsOwner : ℕ → Dispute → Db → Type 0
IsOwner tenant d db =
    (tenant ≡ 0)
    ⊎ ((t : Txn) × (find_txn d.transaction_id db.txns ≡ some t) × (t.tenant_id ≡ tenant))

abbrev pub with_evidence : ℕ → Evidence → Db → Db
with_evidence id ev db = record db { evidence = record ev { dispute_id = id } ∷ db.evidence }

abbrev pub marked : Option ℤ → Dispute → Evidence → Db → Db
marked (some _) d ev db = db
marked none d ev db = record db {
  disputes = update_rows (record d { evidence_submitted_at = some ev.submitted_at }) db.disputes;
}

-- The evidence was taken for this dispute.
pub record Granted (tenant id : ℕ) (ev : Evidence) (db db' : Db) : Type 0 where
  pub dispute : Dispute
  pub dispute_found : find_dispute id db.disputes ≡ some dispute
  pub is_owner : IsOwner tenant dispute db
  pub is_open : can_submit_evidence dispute ≡ true
  pub tables : db' ≡ marked dispute.evidence_submitted_at dispute ev (with_evidence id ev db)

-- Nothing has changed, or the evidence is there and its mark is not.
abbrev pub NothingOrUnmarked : ℕ → Evidence → Db → World → Type 0
NothingOrUnmarked id ev db w' = (w'.db ≡ db) ⊎ (w'.db ≡ with_evidence id ev db)

module _ {d : Db} {now : ℤ} {fx : List Effect} {w : World} (at : At d now fx w) where
  scanned-Kept :
      (o : Option Dispute)
      → Ends (λ x w'. (o ≡ some x) × At d now fx w') (At d now fx) (scanned o w)
  scanned-Kept none = stopped at
  scanned-Kept (some x) = done (refl, at)

  owned_of-Kept :
      (tenant id : ℕ) {p : Result Error Txn × World}
      → Ends (λ t w'. (find_txn id d.txns ≡ some t) × At d now fx w') (At d now fx) p
      → Ends
          (λ b w'.
            ((b ≡ true) → (t : Txn) × (find_txn id d.txns ≡ some t) × (t.tenant_id ≡ tenant))
            × At d now fx w')
          (At d now fx)
          (owned_of tenant p)
  owned_of-Kept tenant id (done {a = t} (found, at1)) = done ((λ h. (t, found, ground arith)), at1)
  owned_of-Kept tenant id (stopped at1) = done ((λ h. absurd (cc)), at1)

module _ {d : Db} {now : ℤ} {fx : List Effect} {w : World} (at : At d now fx w) where
  get_by_id_dispute-Kept :
      (id : ℕ)
      → Ends
          (λ x w'. (find_dispute id d.disputes ≡ some x) × At d now fx w')
          (At d now fx)
          (get_by_id id w)
  unfolding get_by_id
  get_by_id_dispute-Kept id = bind _ _ _ (db_call-Kept at) λ _ w1 at1.
      bind _ _ _ (gets-Ends at1 (λ w. find_dispute id w.db.disputes))
        λ o w2 (e, at2). imply (λ x w3 (found, at3). (cc, at3)) (λ _ h. h) (scanned-Kept at2 o)

  tenant_can_access-Kept :
      (tenant : ℕ) (x : Dispute)
      → Ends
          (λ b w'. ((b ≡ true) → IsOwner tenant x d) × At d now fx w')
          (At d now fx)
          (tenant_can_access tenant x w)
  unfolding tenant_can_access
  tenant_can_access-Kept tenant x = elim (Bool-cases (tenant == 0)) [
    | inl nil ↦ rw nil (done ((λ _. inl (ground arith)), at))
    | inr some_tenant ↦ rw some_tenant (
        imply (λ b w1 (h, at1). ((λ e. inr (h e)), at1)) (λ _ h. h)
          (owned_of-Kept at tenant x.transaction_id (get_by_id-Kept x.transaction_id at)))
  ]

  require_access-Kept :
      {P : Type 0} (b : Bool)
      → ((b ≡ true) → P)
      → Ends (λ _ w'. P × At d now fx w') (At d now fx) (require_access b w)
  require_access-Kept true h = done (h refl, at)
  require_access-Kept false h = stopped at

  require_open-Kept :
      (b : Bool) → Ends (λ _ w'. (b ≡ true) × At d now fx w') (At d now fx) (require_open b w)
  require_open-Kept true = done (refl, at)
  require_open-Kept false = stopped at

  add_unless-Kept :
      (b : Bool) (e : Evidence)
      → Ends
          (λ _ w'. At (record d { evidence = e ∷ d.evidence }) now fx w')
          (At d now fx)
          (add_unless b e w)
  add_unless-Kept true e = stopped at
  add_unless-Kept false e = done (ground arith)

module _ {d : Db} {now : ℤ} {fx : List Effect} {w : World} (at : At d now fx w) where
  get_dispute-Kept :
      (tenant id : ℕ)
      → Ends
          (λ x w'. (find_dispute id d.disputes ≡ some x) × IsOwner tenant x d × At d now fx w')
          (At d now fx)
          (get_dispute tenant id w)
  unfolding get_dispute
  get_dispute-Kept tenant id = bind _ _ _ (get_by_id_dispute-Kept at id) λ x w1 (found, at1).
      bind _ _ _ (tenant_can_access-Kept at1 tenant x) λ b w2 (owns, at2).
        bind _ _ _ (require_access-Kept at2 b owns) λ _ w3 (owner, at3). done (found, owner, at3)

  add_evidence-Kept :
      (e : Evidence)
      → Ends
          (λ _ w'. At (record d { evidence = e ∷ d.evidence }) now fx w')
          (At d now fx)
          (add_evidence e w)
  unfolding add_evidence
  add_evidence-Kept e = bind _ _ _ (db_call-Kept at) λ _ w1 at1.
      bind _ _ _ (gets-Ends at1 (λ w. has_evidence e.id w.db.evidence)) λ taken w2 (_, at2).
        bind _ _ _
          (gets-Ends at2
            (λ w. if is_some (find_dispute e.dispute_id w.db.disputes) then false else true))
          λ orphan w3 (_, at3). add_unless-Kept at3 (taken || orphan) e

  mark_submitted-Kept :
      (o : Option ℤ) (x : Dispute) (e : Evidence)
      → Ends (λ _ w'. At (marked o x e d) now fx w') (At d now fx) (mark_submitted o x e w)
  unfolding update
  mark_submitted-Kept (some _) x e = done at
  mark_submitted-Kept none x e = bind _ _ _ (db_call-Kept at) λ _ w1 at1. done (ground arith)

-- Whatever fails on the way, evidence is taken only for a dispute that exists, is still open and
-- belongs to the tenant that hands it in, or to the operators' nil tenant; it is then stored for that
-- dispute, which is marked unless it was before. An error leaves every table as it was, or with the
-- evidence stored and the mark missing.
pub submit_evidence-Granted :
    (tenant id : ℕ) (ev : Evidence) (w : World)
    → Ends
        (λ _ w'. Granted tenant id ev w.db w'.db)
        (NothingOrUnmarked id ev w.db)
        (submit_evidence tenant id ev w)
unfolding submit_evidence
submit_evidence-Granted tenant id ev w =
    bind _ _ _
      (imply (λ _ _ h. h) (λ _ at. inl at.at_db)
        (get_dispute-Kept {d = w.db} (record { at_db = refl; at_clock = refl; at_effects = refl })
          tenant id))
      λ x w1 (found, owner, at1).
        bind _ _ _
          (imply (λ _ _ h. h) (λ _ at. inl at.at_db)
            (require_open-Kept at1 (can_submit_evidence x)))
          λ _ w2 (open_now, at2).
            bind _ _ _
              (imply (λ _ _ h. h) (λ _ at. inl at.at_db)
                (add_evidence-Kept at2 (record ev { dispute_id = id })))
              λ _ w3 at3.
                imply
                  (λ _ w4 at4. record {
                    dispute = x;
                    dispute_found = found;
                    is_owner = owner;
                    is_open = open_now;
                    tables = at4.at_db;
                  })
                  (λ _ at. inr at.at_db) (mark_submitted-Kept at3 x.evidence_submitted_at x ev)
