-- ===== src/App/Reconciliation/Agreement.antt =====
-- When a payment and a line of the report agree (internal/app/reconciliation/service.go).
use payment_service.Prelude.{
  ℕ, Bool, true, false, ◌≡◌, ◌↔◌, ◌⊎◌, inl, inr, sym, refl, ap, Option, none, some, String, str_eq,
  str_eq_iff, arith, Bool-cases,
}
use payment_service.Prelude.Int.{ℤ, pos, ltb_ℤ, ◌<ℤ◌, eq_ℤ, eq_ℤ_iff}
use payment_service.Domain.Transaction.{Txn, Status, captured, settled}
use payment_service.App.Reconciliation.{
  SettlementEntry, Run, settled_amount_for, is_internal_success, internal_fees_of, fees_differ,
  compare_transaction,
}

-- The money of the payment was taken.
abbrev pub IsPaid : Status → Type 0
IsPaid s = (s ≡ captured) ⊎ (s ≡ settled)

-- The gateway settles what it charged, where that is known, and the nominal amount otherwise.
abbrev pub IsCharged : Option ℤ → ℤ → ℤ → Type 0
IsCharged charged nominal a = (charged ≡ some a) ⊎ ((charged ≡ none) × (nominal ≡ a))

-- A fee that both sides know, and that is positive, is the same.
abbrev pub FeesAgree : (String → ℤ) → Option String → Option ℤ → Type 0
FeesAgree total_of breakdown reported =
    (b : String) (f : ℤ)
    → breakdown ≡ some b
    → pos 0 <ℤ total_of b
    → reported ≡ some f
    → total_of b ≡ f

-- A payment and its line say the same: whether the payment succeeded, how much, and for what fee.
pub record Agrees (r : Run) (t : Txn) (se : SettlementEntry) : Type 0 where
  pub same_outcome : IsPaid t.status ↔ (se.gateway_status ≡ "succeeded")
  pub same_amount : IsCharged t.gateway_amount t.amount se.gateway_amount
  pub same_fees : FeesAgree r.total_of t.fee_breakdown se.gateway_fees

is_internal_success_iff : (s : Status) → (is_internal_success s ≡ true) ↔ IsPaid s
unfolding is_internal_success
is_internal_success_iff captured = (λ _. inl refl, λ _. refl)
is_internal_success_iff settled = (λ _. inr refl, λ _. refl)
is_internal_success_iff _ =
    (λ h. absurd (cc), λ h. elim h [ inl e ↦ absurd (cc) | inr e ↦ absurd (cc) ])

same_truth : (a b : Bool) {P Q : Type 0} → ((a ≡ true) ↔ P) → ((b ≡ true) ↔ Q) → (a ≡ b) ↔ (P ↔ Q)
same_truth true true p q = (λ _. ((λ _. q.0 refl), (λ _. p.0 refl)), λ _. refl)
same_truth true false p q = (λ h. absurd (cc), λ k. sym (q.1 (k.0 (p.0 refl))))
same_truth false true p q = (λ h. absurd (cc), λ k. p.1 (k.1 (q.0 refl)))
same_truth false false p q =
    (λ _. ((λ x. let h = p.1 x in absurd (cc)), (λ x. let h = q.1 x in absurd (cc))), λ _. refl)

settled_amount_for_iff :
    (t : Txn) (a : ℤ) → (settled_amount_for t ≡ a) ↔ IsCharged t.gateway_amount t.amount a
unfolding settled_amount_for
settled_amount_for_iff t a = by_charged t.gateway_amount
  where
    by_charged :
        (o : Option ℤ)
        → ((elim o as (λ _. ℤ) [ none ↦ t.amount | some a ↦ a ]) ≡ a) ↔ IsCharged o t.amount a
    by_charged none = (λ h. inr (refl, h), λ h. elim h [ inl e ↦ absurd (cc) | inr e ↦ e.1 ])
    by_charged (some x) = (λ h. inl (ap some h), λ h. elim h [ inl e ↦ cc | inr e ↦ absurd (cc) ])

fees_differ_iff :
    (r : Run) (breakdown : Option String) (reported : Option ℤ)
    → (fees_differ (internal_fees_of r breakdown) reported ≡ false)
      ↔ FeesAgree r.total_of breakdown reported
unfolding internal_fees_of
fees_differ_iff r none reported = (λ _ b f e. absurd (cc), λ _. refl)
fees_differ_iff r (some b) none = elim (Bool-cases (ltb_ℤ (pos 0) (r.total_of b))) [
  | inl e ↦ rw e (λ _ _ _ _ _ e. absurd (cc), λ _. refl)
  | inr e ↦ rw e (λ _ _ _ _ _ e. absurd (cc), λ _. refl)
]
fees_differ_iff r (some b) (some f) = elim (Bool-cases (ltb_ℤ (pos 0) (r.total_of b))) [
  | inl e ↦ rw e (
    λ h b' f' same _ same'. let equal = (eq_ℤ_iff (r.total_of b) f).0 (ground arith) in cc,
    λ h. ground (arith, (eq_ℤ_iff (r.total_of b) f).1 (h b f refl (ground arith) refl)),
  )
  | inr e ↦ rw e (
    λ _ b' f' same more same'.
        let same_fee : r.total_of b ≡ r.total_of b' = cc in absurd (ground arith),
    λ _. refl,
  )
]

agreement :
    (r : Run) (i : ℕ) (t : Txn) (se : SettlementEntry)
    → compare_transaction r i t se ≡ none
    → (is_internal_success t.status ≡ str_eq se.gateway_status "succeeded")
      × (eq_ℤ (settled_amount_for t) se.gateway_amount ≡ true)
      × (fees_differ (internal_fees_of r t.fee_breakdown) se.gateway_fees ≡ false)
unfolding compare_transaction
agreement r i t se h = (ground arith, ground arith, ground arith)

no_entry :
    (r : Run) (i : ℕ) (t : Txn) (se : SettlementEntry)
    → is_internal_success t.status ≡ str_eq se.gateway_status "succeeded"
    → eq_ℤ (settled_amount_for t) se.gateway_amount ≡ true
    → fees_differ (internal_fees_of r t.fee_breakdown) se.gateway_fees ≡ false
    → compare_transaction r i t se ≡ none
unfolding compare_transaction
no_entry r i t se outcome amount fees = rw (outcome, amount, fees) (ground arith)

pub compare_transaction_iff :
    (r : Run) (i : ℕ) (t : Txn) (se : SettlementEntry)
    → (compare_transaction r i t se ≡ none) ↔ Agrees r t se
compare_transaction_iff r i t se =
    let truth =
      same_truth (is_internal_success t.status) (str_eq se.gateway_status "succeeded")
        (is_internal_success_iff t.status) (str_eq_iff se.gateway_status "succeeded") in
    let amounts = settled_amount_for_iff t se.gateway_amount in
    let fees = fees_differ_iff r t.fee_breakdown se.gateway_fees in
    (
      λ h.
          let (outcome, amount, fee) = agreement r i t se h in
          record {
            same_outcome = truth.0 outcome;
            same_amount = amounts.0 ((eq_ℤ_iff _ _).0 amount);
            same_fees = fees.0 fee;
          },
      λ a.
          no_entry r i t se (truth.1 a.same_outcome) ((eq_ℤ_iff _ _).1 (amounts.1 a.same_amount))
            (fees.1 a.same_fees),
    )
