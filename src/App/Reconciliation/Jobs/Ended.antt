-- ===== src/App/Reconciliation/Jobs/Ended.antt =====
-- How a run ends (internal/app/reconciliation/service.go).
use payment_service.Prelude.{true, ◌≡◌, refl, some, List, length, Result, ok}
use payment_service.Prelude.Int.{ℤ}
use payment_service.Domain.Reconciliation.{Job, Entry, running, completed, failed}
use payment_service.Postgres.{Action, World, Db, Effect, Error, ignore_error}
use payment_service.Postgres.Reconciliation.{update_job, have_payments, have_jobs}
use payment_service.Postgres.Steps.{Ends, done, stopped, bind, imply, At, gets-Ends}
use payment_service.App.Reconciliation.Jobs.Kept.{
  IsReader, with_job, with_entries, update_job-Kept, insert_entries-Kept, reconcile-Kept,
}
use payment_service.App.Reconciliation.Jobs.{
  Service, fail_job, complete_job, after_reconcile, finish_job, run,
}

abbrev pub started : Job → ℤ → Job
started j now = record j { status = running; started_at = some now }

abbrev pub done_job : Job → ℤ → List Entry → Job
done_job j now es = record (started j now) {
  mismatch_count = length es;
  status = completed;
  completed_at = some now;
}

abbrev pub failed_job : Service → Job → ℤ → Error → Job
failed_job s j now e = record (started j now) {
  status = failed;
  error = s.error_text e;
  completed_at = some now;
}

-- What a run that fails leaves: nothing, the job marked as running, the job marked as failed, or the
-- job marked as running with its entries.
pub data Broken (s : Service) (j : Job) (d : Db) (now : ℤ) : Db → Type 0 where
  untouched : Broken s j d now d
  left_running : Broken s j d now (with_job (started j now) d)
  left_failed :
      (e : Error) → Broken s j d now (with_job (failed_job s j now e) (with_job (started j now) d))
  left_with_entries :
      (es : List Entry) → Broken s j d now (with_entries es (with_job (started j now) d))

-- The error of an update that is dropped.
dropped-Ends :
    {P : World → Type 0} (m : Action (Unit {0})) (w : World)
    → Ends (λ _. P) P (m w)
    → Ends (λ _. P) P (ignore_error m w)
dropped-Ends {P} m w h = by_end h
  where
    by_end :
        {p : Result Error (Unit {0}) × World} → Ends (λ _. P) P p → Ends (λ _. P) P (ok tt, p.1)
    by_end (done k) = done k
    by_end (stopped k) = done k

-- What a finished run leaves: the job is complete, with as many mismatches as there are entries, and
-- each entry is stored and names a payment and a job that exist.
abbrev pub Completed : Job → Db → ℤ → World → Type 0
Completed j d now w' =
    (es : List Entry) × (have_payments d.txns es ≡ true)
    × (have_jobs (with_job (started j now) d).jobs es ≡ true)
    × (w'.db ≡ with_job (done_job j now es) (with_entries es (with_job (started j now) d)))

module _ (s : Service) (j : Job) {d : Db} {now : ℤ} {fx : List Effect} where
  complete_job-Ends :
      {w : World} (es : List Entry)
      → At (with_job (started j now) d) now fx w
      → Ends
          (λ _. Completed j d now)
          (λ w'. Broken s j d now w'.db)
          (complete_job s (started j now) es w)
  complete_job-Ends es at =
      bind _ _ _
        (imply (λ _ _ h. h) (λ _ at1. rw at1.at_db left_running) (insert_entries-Kept at es))
        λ _ w1 (fine, known, at1). bind _ _ _ (gets-Ends at1 (λ w. w.clock)) λ now2 w2 (e2, at2).
          let same : now2 ≡ now = cc in
          rw same (
            imply (λ _ w3 at3. (es, fine, known, at3.at_db))
              (λ _ at3. rw at3.at_db (left_with_entries es))
              (update_job-Kept at2 (done_job j now es)))

  fail_job-Ends :
      {w : World} (e : Error)
      → At (with_job (started j now) d) now fx w
      → Ends
          (λ _. Completed j d now)
          (λ w'. Broken s j d now w'.db)
          (fail_job s (started j now) e w)
  fail_job-Ends e at = bind _ _ _ (gets-Ends at (λ w. w.clock)) λ now1 w1 (e1, at1).
      let same : now1 ≡ now = cc in
      bind _ _ _
        (rw same (
          dropped-Ends {P = λ w'. Broken s j d now w'.db} (update_job (failed_job s j now e)) w1 (
            imply (λ _ _ at2. rw at2.at_db (left_failed e)) (λ _ at2. rw at2.at_db left_running)
              (update_job-Kept at1 (failed_job s j now e)))))
        λ _ w2 h. stopped h

  after_reconcile-Ends :
      {p : Result Error (List Entry) × World}
      → Ends
          (λ _ w'. At (with_job (started j now) d) now fx w')
          (At (with_job (started j now) d) now fx)
          p
      → Ends
          (λ _. Completed j d now)
          (λ w'. Broken s j d now w'.db)
          (after_reconcile s (started j now) p)
  after_reconcile-Ends (done {a = es} at) = complete_job-Ends es at
  after_reconcile-Ends (stopped {e} at) = fail_job-Ends e at

-- Whatever fails on the way, a run returns without an error only if the job is COMPLETED, its count
-- is the number of its entries, all of them are stored, and each names a payment and a job that exist. With
-- an error it leaves the job as it was, marked RUNNING with or without its entries, or marked FAILED
-- with none. Condition: the transaction list only reads.
pub run-Completed :
    (s : Service) (j : Job) (w : World)
    → IsReader s
    → Ends (λ _. Completed j w.db w.clock) (λ w'. Broken s j w.db w.clock w'.db) (run s j w)
unfolding run finish_job
run-Completed s j w reads =
    bind _ _ _
      (gets-Ends {d = w.db} {now = w.clock} {fx = w.effects}
        (record { at_db = refl; at_clock = refl; at_effects = refl }) (λ w. w.clock))
      λ now1 w1 (e1, at1).
        let same : now1 ≡ w.clock = cc in
        rw same (
          bind _ _ _
            (imply (λ _ _ h. h) (λ _ at2. rw at2.at_db untouched)
              (update_job-Kept at1 (started j w.clock)))
            λ _ w2 at2. after_reconcile-Ends s j (reconcile-Kept at2 s (started j w.clock) reads))
