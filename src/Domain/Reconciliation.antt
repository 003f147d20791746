-- ===== src/Domain/Reconciliation.antt =====
-- internal/domain/reconciliation/reconciliation.go: mismatches and their automatic resolution.
-- Amounts are `int64`. The reason that goes with a refusal is text for people; here it is a
-- constructor.
pub mod Threshold
use payment_service.Prelude.{
  ℕ, Bool, true, false, not, ◌&&◌, ◌||◌, Option, none, some, ◌==◌, if◌then◌else◌, String,
}
use payment_service.Domain.Transaction.{Status}
use payment_service.Prelude.Int.{ℤ, pos, leb_ℤ, ltb_ℤ, eq_ℤ, add64, sub64, mul64, div64, rem64}

pub data MismatchType : Type 0 where
  mismatch_status mismatch_amount mismatch_fee : MismatchType
  mismatch_missing_internal mismatch_missing_gateway : MismatchType

abbrev pub mismatch_code : MismatchType → ℕ
mismatch_code mismatch_status = 0
mismatch_code mismatch_amount = 1
mismatch_code mismatch_fee = 2
mismatch_code mismatch_missing_internal = 3
mismatch_code mismatch_missing_gateway = 4

abbrev pub mismatch_eq : MismatchType → MismatchType → Bool
mismatch_eq a b = mismatch_code a == mismatch_code b

pub data ResolutionStatus : Type 0 where
  unresolved resolved auto_refund_issued auto_invoiced : ResolutionStatus

-- `internal_status` is `none` for the empty text. The exchange rates are floats and are left out,
-- as is what an automatic resolution would fill in.
pub record Entry : Type 0 where
  pub id : ℕ
  pub job_id : ℕ
  pub transaction_id : ℕ
  pub internal_status : Option Status
  pub gateway_status : String
  pub internal_amount : ℤ
  pub gateway_amount : ℤ
  pub internal_fees : Option ℤ
  pub gateway_fees : Option ℤ
  pub mismatch_type : MismatchType
  pub resolution_status : ResolutionStatus
  pub resolved_by : String
  pub resolved_at : Option ℤ
  pub notes : String

pub data JobStatus : Type 0 where
  pending running completed failed : JobStatus

pub record Job : Type 0 where
  pub id : ℕ
  pub gateway_id : String
  pub tenant_id : Option ℕ
  pub transaction_id : Option ℕ
  pub period_start : Option ℤ
  pub period_end : Option ℤ
  pub status : JobStatus
  pub triggered_by : String
  pub actor : String
  pub mismatch_count : ℕ
  pub error : String
  pub started_at : Option ℤ
  pub completed_at : Option ℤ
  pub created_at : ℤ

pub record AutoResolutionConfig : Type 0 where
  pub payment_method : String
  pub region : String
  pub threshold_bps : ℤ
  pub absolute_cap_paise : ℤ
  pub action : String

pub data Reason : Type 0 where
  manual_review gateway_zero percentage_failed cap_failed : Reason

unfoldable pub is_critical : MismatchType → Bool
is_critical m = mismatch_eq m mismatch_status || mismatch_eq m mismatch_missing_internal

-- The difference of the amounts, its sign dropped.
unfoldable pub discrepancy : Entry → ℤ
discrepancy e =
    let d = sub64 e.gateway_amount e.internal_amount in
    if ltb_ℤ d (pos 0) then sub64 (pos 0) d else d

unfoldable pub allowed_discrepancy : ℤ → ℤ → ℤ
allowed_discrepancy settled threshold =
    add64 (mul64 (div64 settled (pos 10000)) threshold)
      (div64 (mul64 (rem64 settled (pos 10000)) threshold) (pos 10000))

-- `none` means eligible.
unfoldable pub eligible_for_auto_resolution : Entry → AutoResolutionConfig → Option Reason
unfolding discrepancy allowed_discrepancy
eligible_for_auto_resolution e cfg =
    if not (mismatch_eq e.mismatch_type mismatch_amount)
    then some manual_review
    else (if eq_ℤ e.gateway_amount (pos 0)
        then some gateway_zero
        else (if not
              (leb_ℤ (discrepancy e) (allowed_discrepancy e.gateway_amount cfg.threshold_bps))
            then some percentage_failed
            else (if not (leb_ℤ (discrepancy e) cfg.absolute_cap_paise)
                then some cap_failed
                else none)))
