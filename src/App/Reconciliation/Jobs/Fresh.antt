-- ===== src/App/Reconciliation/Jobs/Fresh.antt =====
-- Jobs that were never run (internal/app/reconciliation/service.go).
use payment_service.Prelude.{ℕ, false, ◌≡◌, refl, some, List, String}
use payment_service.Prelude.Int.{ℤ}
use payment_service.Postgres.{World, Db, Effect, JobRow}
use payment_service.Postgres.Reconciliation.{find_job, get_job}
use payment_service.Postgres.Steps.{Ends, stopped, bind, imply, At, gets-Ends, db_call-Kept}
use payment_service.App.Reconciliation.Jobs.{Service, get_visible_job, run_job}

-- The row is not read where its column `error` is NULL.
get_job_unset :
    {d : Db} {now : ℤ} {fx : List Effect} {w : World} (id : ℕ) (r : JobRow)
    → At d now fx w
    → find_job id d.jobs ≡ some r
    → r.error_set ≡ false
    → Ends (λ _ _. ⊥) (At d now fx) (get_job id w)
unfolding get_job
get_job_unset {d} {now} {fx} id r at found unset = bind _ _ _ (db_call-Kept at) λ _ w1 at1.
    bind _ _ _ (gets-Ends at1 (λ w. find_job id w.db.jobs))
      λ o w2 (e, at2). let row : o ≡ some r = cc in rw row (rw unset (stopped at2))

-- A job that no update has reached yet, as `CreateJob` leaves it, is never run: whoever asks and
-- whatever the gateways would report, `RunJob` fails and leaves every table as it was.
pub run_job_unset :
    (s : Service) (actor : String) (id : ℕ) (r : JobRow) (w : World)
    → find_job id w.db.jobs ≡ some r
    → r.error_set ≡ false
    → Ends (λ _ _. ⊥) (λ w'. w'.db ≡ w.db) (run_job s actor id w)
unfolding run_job get_visible_job
run_job_unset s actor id r w found unset =
    bind _ _ _
      (bind _ _ _
        (imply (λ _ _ h. h) (λ _ at. at.at_db)
          (get_job_unset {d = w.db} id r
            (record { at_db = refl; at_clock = refl; at_effects = refl }) found unset))
        (λ _ _ h. absurd h))
      (λ _ _ h. absurd h)
