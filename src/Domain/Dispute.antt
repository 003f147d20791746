-- ===== src/Domain/Dispute.antt =====
-- internal/domain/dispute/dispute.go: the dispute record and its state machine. Times and durations
-- are nanoseconds. (`DaysUntilDue` goes through a float and is not modelled.)
pub mod Lifecycle
use payment_service.Prelude.{
  ℕ, Bool, true, false, not, ◌&&◌, ◌||◌, Option, none, some, List, [], ◌∷◌, contains, ◌==◌,
  if◌then◌else◌, String, Result, ok, err,
}
use payment_service.Prelude.Int.{ℤ, pos, ◌-ℤ◌, leb_ℤ, mul64}

pub data Status : Type 0 where
  needs_response under_review won lost accepted expired : Status

abbrev pub status_code : Status → ℕ
status_code needs_response = 0
status_code under_review = 1
status_code won = 2
status_code lost = 3
status_code accepted = 4
status_code expired = 5

abbrev pub status_eq : Status → Status → Bool
status_eq a b = status_code a == status_code b

-- The resolved statuses have no row.
unfoldable pub valid_transitions : Status → Option (List Status)
valid_transitions needs_response = some (under_review ∷ accepted ∷ expired ∷ [])
valid_transitions under_review = some (won ∷ lost ∷ accepted ∷ [])
valid_transitions _ = none

pub record Dispute : Type 0 where
  pub id : ℕ
  pub transaction_id : ℕ
  pub gateway_id : String
  pub gateway_dispute_id : String
  pub reason : String
  pub status : Status
  pub amount : ℤ
  pub currency : String
  pub evidence_due_by : Option ℤ
  pub evidence_submitted_at : Option ℤ
  pub created_at : ℤ
  pub resolved_at : Option ℤ

pub data DisputeError : Type 0 where
  invalid_transition not_found : DisputeError

-- evidence.go.
pub data EvidenceType : Type 0 where
  receipt invoice customer_comms terms_of_service refund_policy cancellation_policy other :
      EvidenceType

pub record Evidence : Type 0 where
  pub id : ℕ
  pub dispute_id : ℕ
  pub kind : EvidenceType
  pub file_url : String
  pub notes : String
  pub submitted_at : ℤ

abbrev pub day : ℤ
day = pos 86400000000000

unfoldable pub is_urgent : Dispute → ℤ → ℤ → Bool
is_urgent d warning_days now = elim d.evidence_due_by [
  | none ↦ false
  | some due ↦
      if not (status_eq d.status needs_response) && not (status_eq d.status under_review)
      then false
      else leb_ℤ (due -ℤ now) (mul64 warning_days day)
]

unfoldable pub can_submit_evidence : Dispute → Bool
can_submit_evidence d = status_eq d.status needs_response || status_eq d.status under_review

unfoldable pub move : Dispute → Status → ℤ → Dispute
move d to now =
    if status_eq to won || status_eq to lost || status_eq to accepted || status_eq to expired
    then record d { status = to; resolved_at = some now }
    else record d { status = to }

unfoldable pub transition : Dispute → Status → ℤ → Result DisputeError Dispute
unfolding valid_transitions move
transition d to now = elim (valid_transitions d.status) [
  | none ↦ err invalid_transition
  | some allowed ↦
      if contains status_eq allowed to then ok (move d to now) else err invalid_transition
]
