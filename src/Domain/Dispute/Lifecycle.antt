-- ===== src/Domain/Dispute/Lifecycle.antt =====
-- What the dispute's state machine guarantees (internal/domain/dispute/dispute.go).
use payment_service.Prelude.{
  ℕ, ◌+◌, ◌≤◌, ◌≡◌, true, List, [], ◌∷◌, Result, ok, err, is_some, arith, not,
}
use payment_service.Prelude.Int.{ℤ, pos, leb_ℤ, mul64}
use payment_service.Domain.Dispute.{
  Status, needs_response, under_review, Dispute, DisputeError, transition, can_submit_evidence,
  is_urgent,
}

abbrev after : Dispute → Result DisputeError Dispute → Dispute
after d (ok d') = d'
after d (err _) = d

abbrev accepted_requests : Result DisputeError Dispute → ℕ → ℕ
accepted_requests (ok _) n = n + 1
accepted_requests (err _) n = n

-- A sequence of requests: the dispute that it leaves, and how many were accepted.
unfoldable pub run : Dispute → List (Status × ℤ) → Dispute × ℕ
run d [] = (d, 0)
run d ((to, now) ∷ qs) =
    let r = transition d to now in let (d', n) = run (after d r) qs in (d', accepted_requests r n)

-- How many transitions a dispute can still make.
abbrev left : Status → ℕ
left needs_response = 2
left under_review = 1
left _ = 0

-- A dispute has a resolution time exactly when evidence can no longer be submitted.
abbrev pub IsDated : Dispute → Type 0
IsDated d = is_some d.resolved_at ≡ not (can_submit_evidence d)

step-left :
    (d : Dispute) (to : Status) (now : ℤ) (n : ℕ)
    → n ≤ left (after d (transition d to now)).status
    → accepted_requests (transition d to now) n ≤ left d.status
unfolding transition
step-left d to now n h = ground arith

run-left : (d : Dispute) (qs : List (Status × ℤ)) → (run d qs).1 ≤ left d.status
unfolding run
run-left d [] = omega arith
run-left d ((to, now) ∷ qs) = step-left d to now _ (run-left (after d (transition d to now)) qs)

step-IsDated :
    (d : Dispute) (to : Status) (now : ℤ) → IsDated d → IsDated (after d (transition d to now))
unfolding transition can_submit_evidence
step-IsDated d to now h = ground arith

run-IsDated : (d : Dispute) (qs : List (Status × ℤ)) → IsDated d → IsDated (run d qs).0
unfolding run
run-IsDated d [] h = h
run-IsDated d ((to, now) ∷ qs) h =
    run-IsDated (after d (transition d to now)) qs (step-IsDated d to now h)

left-le-two : (s : Status) → left s ≤ 2
left-le-two needs_response = omega arith
left-le-two _ = omega arith

-- Whatever transitions are requested, at most two are accepted, and a dispute that carries a
-- resolution time exactly when evidence can no longer be submitted keeps doing so.
pub run_bounded :
    (d : Dispute) (qs : List (Status × ℤ)) → IsDated d → ((run d qs).1 ≤ 2) × IsDated (run d qs).0
run_bounded d qs h = (omega (arith, run-left d qs, left-le-two d.status), run-IsDated d qs h)

-- A dispute is never urgent once it is resolved or has no due date, and a warning that covers more
-- days is raised whenever one that covers fewer is, if neither number of days overflows.
is_urgent_mono :
    (d : Dispute) (m n now : ℤ)
    → leb_ℤ (mul64 m (pos 86400000000000)) (mul64 n (pos 86400000000000)) ≡ true
    → is_urgent d m now ≡ true
    → (is_urgent d n now ≡ true)
      × (can_submit_evidence d ≡ true)
      × (is_some d.evidence_due_by ≡ true)
unfolding is_urgent can_submit_evidence
is_urgent_mono d m n now h u = ground arith
