-- ===== src/App/Refund/Covered/Sequences.antt =====
-- Every sequence of operations on refunds keeps the refunds of a payment within its amount
-- (internal/app/refund, as the API, the relay, the refund reaper and the cancel resolution call it).
use payment_service.Prelude.{ℕ, List, [], ◌∷◌, All, String, Result}
use payment_service.Prelude.Int.{ℤ}
use payment_service.Postgres.{World, Error}
use payment_service.Postgres.Steps.{done, stopped}
use payment_service.App.Idempotency.Hashes.{Texts}
use payment_service.App.Payment.Service.{Service}
use payment_service.App.Refund.{InitiateInput, initiate_refund}
use payment_service.App.Refund.Guarded.{initiate_refund_guarded}
use payment_service.App.Refund.Process.{process_refund, retry_stale_refund}
use payment_service.App.Refund.Cancelled.{resolve_cancel_refund}
use payment_service.App.Refund.Covered.{Covers}
use payment_service.App.Refund.Covered.Ended.{Stays}
use payment_service.App.Refund.Covered.Run.{process_refund-Stays, retry_stale_refund-Stays}
use payment_service.App.Refund.Covered.Requests.{IsModest, initiate_refund-Stays}
use payment_service.App.Refund.Covered.Guarded.{
  initiate_refund_guarded-Stays, resolve_cancel_refund-Stays,
}

-- A call of the service, with the ids that it draws.
pub data Call : Type 0 where
  initiate : InitiateInput → ℕ → Call
  initiate_with_key : InitiateInput → String → ℕ → Call
  process : ℕ → Call
  retry : ℕ → Call
  resolve_cancel : ℕ → ℤ → ℕ → Call

-- The world after a call, whether or not it failed.
unfoldable pub after_call : Texts → Service → Call → World → World
after_call x s (initiate i fresh) w = (initiate_refund s i fresh w).1
after_call x s (initiate_with_key i key fresh) w = (initiate_refund_guarded x s i key fresh w).1
after_call x s (process id) w = (process_refund s id w).1
after_call x s (retry id) w = (retry_stale_refund s id w).1
after_call x s (resolve_cancel id amount fresh) w = (resolve_cancel_refund x s id amount fresh w).1

-- Each call has a service of its own, so that the gateways may answer the same request otherwise
-- the next time; a call asks a gateway for a refund once at most.
unfoldable pub after_calls : Texts → List (Service × Call) → World → World
after_calls x [] w = w
after_calls x ((s, q) ∷ qs) w = after_calls x qs (after_call x s q w)

-- What a call asks for is far from the limits of an int64.
abbrev pub IsModestCall : Call → Type 0
IsModestCall (initiate i fresh) = IsModest i.amount
IsModestCall (initiate_with_key i key fresh) = IsModest i.amount
IsModestCall (process id) = Unit {0}
IsModestCall (retry id) = Unit {0}
IsModestCall (resolve_cancel id amount fresh) = IsModest amount

Stays-Covers :
    {A : Type 0} {amount_of : ℕ → ℤ} {p : Result Error A × World}
    → Stays amount_of p
    → Covers amount_of p.1
Stays-Covers (done h) = h
Stays-Covers (stopped h) = h

after_call-Covers :
    (x : Texts) (s : Service) (amount_of : ℕ → ℤ) (q : Call) (w : World)
    → ((id : ℕ) → IsModest (amount_of id))
    → IsModestCall q
    → Covers amount_of w
    → Covers amount_of (after_call x s q w)
unfolding after_call
after_call-Covers x s amount_of (initiate i fresh) w m k c =
    Stays-Covers (initiate_refund-Stays w s i fresh (m i.transaction_id) k c)
after_call-Covers x s amount_of (initiate_with_key i key fresh) w m k c =
    Stays-Covers (initiate_refund_guarded-Stays w x s i key fresh (m i.transaction_id) k c)
after_call-Covers x s amount_of (process id) w m k c = Stays-Covers (process_refund-Stays w s id c)
after_call-Covers x s amount_of (retry id) w m k c =
    Stays-Covers (retry_stale_refund-Stays w s id c)
after_call-Covers x s amount_of (resolve_cancel id amount fresh) w m k c =
    Stays-Covers (resolve_cancel_refund-Stays w x s id amount fresh (m id) k c)

-- Over every sequence of refund requests with and without a key, runs, retries and cancel
-- resolutions, with every pattern of database failures and whatever the gateways answer, to the same
-- request also otherwise from call to call: a payment keeps its amount, no refund is negative, and
-- the refunds of a payment whose status is not REFUND_FAILED add up to at most its amount. Conditions: this holds at the start, and the amounts of the payments and
-- of the requests lie strictly between -2 ^ 62 - 1 and 2 ^ 62.
pub after_calls-Covers :
    (x : Texts) (amount_of : ℕ → ℤ) (qs : List (Service × Call)) (w : World)
    → ((id : ℕ) → IsModest (amount_of id))
    → All (λ q. IsModestCall q.1) qs
    → Covers amount_of w
    → Covers amount_of (after_calls x qs w)
unfolding after_calls
after_calls-Covers x amount_of [] w m _ c = c
after_calls-Covers x amount_of ((s, q) ∷ qs) w m (k, ks) c =
    after_calls-Covers x amount_of qs (after_call x s q w) m ks
      (after_call-Covers x s amount_of q w m k c)
