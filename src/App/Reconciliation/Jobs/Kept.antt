-- ===== src/App/Reconciliation/Jobs/Kept.antt =====
-- The steps of a run and what they leave in the tables (internal/app/reconciliation/service.go).
use payment_service.Prelude.{
  ℕ, Bool, true, false, ◌&&◌, ◌≡◌, refl, Option, none, some, List, [], ◌∷◌, ◌++◌, map, String,
  Result, ok, err, arith,
}
use payment_service.Prelude.Int.{ℤ}
use payment_service.Domain.Reconciliation.{Job, Entry}
use payment_service.Postgres.{World, Db, Effect}
use payment_service.Postgres.Reconciliation.{
  update_jobs, update_job, have_payments, have_jobs, new_entry, put_entries, insert_entries,
}
use payment_service.Postgres.Steps.{Ends, done, stopped, bind, imply, At, gets-Ends, db_call-Kept}
use payment_service.Postgres.Updates.{get_by_id-Kept}
use payment_service.App.Reconciliation.{SettlementEntry}
use payment_service.App.Reconciliation.Jobs.{
  Service, Fetcher, fetcher_of, report_of, reconcile_single, get_by_ids, tenant_of, reconcile_batch,
  reconcile_period, reconcile_by, reconcile,
}

-- The transaction list only reads.
pub record IsReader (s : Service) : Type 0 where
  pub keeps_tables :
      (tenant : ℕ) (gateway : String) (start end_of_period : ℤ) (d : Db) (now : ℤ)
      (fx : List Effect) (w : World)
      → At d now fx w
      → Ends
          (λ _ w'. At d now fx w')
          (At d now fx)
          (s.list_ids tenant gateway start end_of_period w)

abbrev pub with_job : Job → Db → Db
with_job j d = record d { jobs = update_jobs j d.jobs }

abbrev pub with_entries : List Entry → Db → Db
with_entries es d = record d { entries = map new_entry es ++ d.entries }

module _ {d : Db} {now : ℤ} {fx : List Effect} {w : World} (at : At d now fx w) where
  pub update_job-Kept :
      (j : Job) → Ends (λ _ w'. At (with_job j d) now fx w') (At d now fx) (update_job j w)
  unfolding update_job
  update_job-Kept j = bind _ _ _ (db_call-Kept at) λ _ w1 at1. done (ground arith)

  fetcher_of-Kept :
      (o : Option Fetcher) → Ends (λ _ w'. At d now fx w') (At d now fx) (fetcher_of o w)
  fetcher_of-Kept none = stopped at
  fetcher_of-Kept (some f) = done at

  report_of-Kept :
      (r : Result (Unit {0}) (List SettlementEntry))
      → Ends (λ _ w'. At d now fx w') (At d now fx) (report_of r w)
  report_of-Kept (err _) = stopped at
  report_of-Kept (ok ses) = done at

  tenant_of-Kept : (o : Option ℕ) → Ends (λ _ w'. At d now fx w') (At d now fx) (tenant_of o w)
  tenant_of-Kept none = stopped at
  tenant_of-Kept (some t) = done at

  get_by_ids-Kept : (ids : List ℕ) → Ends (λ _ w'. At d now fx w') (At d now fx) (get_by_ids ids w)
  unfolding get_by_ids
  get_by_ids-Kept [] = done at
  get_by_ids-Kept (id ∷ ids) = bind _ _ _ (db_call-Kept at) λ _ w1 at1. done at1

  put_entries-Kept :
      (b : Bool) (es : List Entry)
      → Ends
          (λ _ w'. (b ≡ true) × At (with_entries es d) now fx w')
          (At d now fx)
          (put_entries b es w)
  put_entries-Kept false es = stopped at
  put_entries-Kept true es = done (refl, ground arith)

module _ {d : Db} {now : ℤ} {fx : List Effect} {w : World} (at : At d now fx w) where
  pub insert_entries-Kept :
      (es : List Entry)
      → Ends
          (λ _ w'.
            (have_payments d.txns es ≡ true)
            × (have_jobs d.jobs es ≡ true)
            × At (with_entries es d) now fx w')
          (At d now fx)
          (insert_entries es w)
  unfolding insert_entries have_payments have_jobs
  insert_entries-Kept [] = done (refl, refl, at)
  insert_entries-Kept (e ∷ es) = bind _ _ _ (db_call-Kept at) λ _ w1 at1.
      bind _ _ _
        (gets-Ends at1 (λ w. have_payments w.db.txns (e ∷ es) && have_jobs w.db.jobs (e ∷ es)))
        λ b w2 (was, at2).
          imply (λ _ w3 (fine, at3). (ground arith, ground arith, at3)) (λ _ h. h)
            (put_entries-Kept at2 b (e ∷ es))

  reconcile_single-Kept :
      (s : Service) (j : Job) (id : ℕ)
      → Ends (λ _ w'. At d now fx w') (At d now fx) (reconcile_single s j id w)
  unfolding reconcile_single
  reconcile_single-Kept s j id = bind _ _ _ (get_by_id-Kept id at) λ t w1 (_, at1).
      bind _ _ _ (fetcher_of-Kept at1 (s.settlement_fetcher t.gateway_id))
        λ f w2 at2. bind _ _ _ (report_of-Kept at2 _) λ ses w3 at3. done at3

  reconcile_batch-Kept :
      (s : Service) (j : Job) (start end_of_period : ℤ)
      → IsReader s
      → Ends (λ _ w'. At d now fx w') (At d now fx) (reconcile_batch s j start end_of_period w)
  unfolding reconcile_batch
  reconcile_batch-Kept s j start end_of_period reads =
      bind _ _ _ (fetcher_of-Kept at (s.settlement_fetcher j.gateway_id)) λ f w1 at1.
        bind _ _ _ (tenant_of-Kept at1 j.tenant_id) λ tenant w2 at2.
          bind _ _ _ (report_of-Kept at2 (f tenant j.gateway_id start end_of_period)) λ ses w3 at3.
            bind _ _ _ (reads.keeps_tables tenant j.gateway_id start end_of_period d now fx w3 at3)
              λ ids w4 at4. bind _ _ _ (get_by_ids-Kept at4 ids) λ ts w5 at5. done at5

module _ {d : Db} {now : ℤ} {fx : List Effect} {w : World} (at : At d now fx w) where
  reconcile_period-Kept :
      (s : Service) (j : Job) (a b : Option ℤ)
      → IsReader s
      → Ends (λ _ w'. At d now fx w') (At d now fx) (reconcile_period s j a b w)
  reconcile_period-Kept s j (some a) (some b) reads = reconcile_batch-Kept at s j a b reads
  reconcile_period-Kept s j (some a) none reads = stopped at
  reconcile_period-Kept s j none b reads = stopped at

  reconcile_by-Kept :
      (s : Service) (j : Job) (o : Option ℕ)
      → IsReader s
      → Ends (λ _ w'. At d now fx w') (At d now fx) (reconcile_by s j o w)
  reconcile_by-Kept s j (some id) reads = reconcile_single-Kept at s j id
  reconcile_by-Kept s j none reads = reconcile_period-Kept s j j.period_start j.period_end reads

  pub reconcile-Kept :
      (s : Service) (j : Job)
      → IsReader s
      → Ends (λ _ w'. At d now fx w') (At d now fx) (reconcile s j w)
  unfolding reconcile
  reconcile-Kept s j reads = reconcile_by-Kept s j j.transaction_id reads
