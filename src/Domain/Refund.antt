-- ===== src/Domain/Refund.antt =====
-- internal/domain/refund/refund.go: the refund record, its constructor and its state machine.
-- UUIDs are numbers, 0 for uuid.Nil; amounts are `int64`; times are integers of nanoseconds.
pub mod Cap
pub mod Lifecycle
use payment_service.Prelude.{
  ℕ, Bool, true, false, not, ◌||◌, Option, none, some, List, [], ◌∷◌, contains, ◌==◌, if◌then◌else◌,
  String, str_eq, Result, ok, err,
}
use payment_service.Prelude.Int.{ℤ, pos, leb_ℤ, ltb_ℤ, add64}
use payment_service.Domain.Transaction.{Fresh, FailureReason}

pub data Status : Type 0 where
  initiated processing refunded failed : Status

abbrev pub status_code : Status → ℕ
status_code initiated = 0
status_code processing = 1
status_code refunded = 2
status_code failed = 3

abbrev pub status_eq : Status → Status → Bool
status_eq a b = status_code a == status_code b

pub record Refund : Type 0 where
  pub id : ℕ
  pub transaction_id : ℕ
  pub amount : ℤ
  pub reason : String
  pub status : Status
  pub initiated_by : String
  pub gateway_refund_id : String
  pub attempted_gateway : String
  pub actual_gateway : String
  pub attempts : ℕ
  pub failure_reason : Option FailureReason
  pub initiated_at : ℤ
  pub resolved_at : Option ℤ
  pub version : ℕ

pub data RefundError : Type 0 where
  transaction_nil amount_not_positive reason_empty initiator_empty : RefundError
  original_not_positive already_negative already_exceeds : RefundError
  over_refund : ℤ → ℤ → ℤ → RefundError
  invalid_transition : Status → Status → RefundError

unfoldable pub is_terminal : Status → Bool
is_terminal s = status_eq s refunded || status_eq s failed

unfoldable pub transition_table : Status → Option (List Status)
transition_table initiated = some (processing ∷ failed ∷ [])
transition_table processing = some (refunded ∷ failed ∷ [])
transition_table failed = some (processing ∷ [])
transition_table refunded = some []

pub record NewRefund : Type 0 where
  pub transaction_id : ℕ
  pub amount : ℤ
  pub original_amount : ℤ
  pub already_refunded : ℤ
  pub reason : String
  pub initiated_by : String

abbrev pub build : NewRefund → Fresh → Refund
build a f = record {
  id = f.fresh_id;
  transaction_id = a.transaction_id;
  amount = a.amount;
  reason = a.reason;
  status = initiated;
  initiated_by = a.initiated_by;
  gateway_refund_id = "";
  attempted_gateway = "";
  actual_gateway = "";
  attempts = 0;
  failure_reason = none;
  initiated_at = f.fresh_now;
  resolved_at = none;
  version = 1;
}

-- The sum in the last test is an `int64` sum, which wraps.
unfoldable pub new : NewRefund → Fresh → Result RefundError Refund
new a f =
    if a.transaction_id == 0
    then err transaction_nil
    else (if leb_ℤ a.amount (pos 0)
        then err amount_not_positive
        else (if str_eq a.reason ""
            then err reason_empty
            else (if str_eq a.initiated_by ""
                then err initiator_empty
                else (if leb_ℤ a.original_amount (pos 0)
                    then err original_not_positive
                    else (if ltb_ℤ a.already_refunded (pos 0)
                        then err already_negative
                        else (if ltb_ℤ a.original_amount a.already_refunded
                            then err already_exceeds
                            else (if ltb_ℤ a.original_amount (add64 a.already_refunded a.amount)
                                then err (over_refund a.original_amount a.already_refunded a.amount)
                                else ok (build a f))))))))

unfoldable pub move : Refund → Status → ℤ → Refund
unfolding is_terminal
move r to now = record r { status = to; resolved_at = if is_terminal to then some now else none }

unfoldable pub transition : Refund → Status → ℤ → Result RefundError Refund
unfolding transition_table move
transition r to now = elim (transition_table r.status) [
  | none ↦ err (invalid_transition r.status to)
  | some allowed ↦
      if contains status_eq allowed to
      then ok (move r to now)
      else err (invalid_transition r.status to)
]

unfoldable pub is_retryable : Refund → Bool
is_retryable r = status_eq r.status failed
