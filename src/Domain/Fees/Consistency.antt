-- ===== src/Domain/Fees/Consistency.antt =====
-- A breakdown that is calculated is one that passes the checks (internal/domain/fees/fees.go).
use payment_service.Prelude.{
  Bool, true, false, not, ◌≡◌, refl, sym, subst, str_eq_refl, str_eq_iff, if◌then◌else◌, ◌↔◌,
  Option, none, some, List, String, str_eq, ok, ok_injective, arith,
}
use payment_service.Prelude.Int.{ℤ, pos, add64, leb_ℤ, eq_ℤ}
use payment_service.Domain.Fees.{
  Floats, CurrencyRate, Breakdown, FeeError, calculate, calculate_same_currency, calculate_cross,
  with_rate, find_rate, validate, share_not_positive, share_differs,
}

eq_ℤ_of : {a b : ℤ} → a ≡ b → eq_ℤ a b ≡ true
eq_ℤ_of e = ground arith

-- A positive amount is charged, and a positive amount goes to the gateway.
abbrev pub IsCharge : {F : Type 0} → Breakdown F → Type 0
IsCharge b = (leb_ℤ b.summary.amount (pos 0) ≡ false) × (share_not_positive b.gateway ≡ false)

-- What `Calculate` builds: the sums are sums, and a gateway that charges in the payment's currency
-- gets the total.
pub record IsConsistent {F : Type 0} (b : Breakdown F) : Type 0 where
  pub fees_agree : b.fees.total ≡ b.summary.fees
  pub parts_agree : b.fees.total ≡ add64 b.fees.service_fee b.fees.fixed_charge
  pub total_agrees : b.summary.total ≡ add64 b.summary.amount b.summary.fees
  pub share_agrees : share_differs b.gateway b.summary ≡ false

-- The six checks in a row, where the last four pass.
six_checks :
    (p q x y z s : Bool) (a b c d e f : FeeError)
    → x ≡ true
    → y ≡ true
    → z ≡ true
    → s ≡ false
    → ((if p
          then some a
          else if q
          then some b
          else if not x
          then some c
          else if not y
          then some d
          else if not z
          then some e
          else if s
          then some f
          else none)
        ≡ none)
      ↔ ((p ≡ false) × (q ≡ false))
six_checks p q x y z s a b c d e f ex ey ez es = ground arith

validate-IsConsistent :
    {F : Type 0} (b : Breakdown F) → IsConsistent b → (validate b ≡ none) ↔ IsCharge b
unfolding validate
validate-IsConsistent b c =
    six_checks (leb_ℤ b.summary.amount (pos 0)) (share_not_positive b.gateway)
      (eq_ℤ b.summary.fees b.fees.total)
      (eq_ℤ b.fees.total (add64 b.fees.service_fee b.fees.fixed_charge))
      (eq_ℤ b.summary.total (add64 b.summary.amount b.summary.fees))
      (share_differs b.gateway b.summary) _ _ _ _ _ _ (eq_ℤ_of (sym c.fees_agree))
      (eq_ℤ_of c.parts_agree) (eq_ℤ_of c.total_agrees) c.share_agrees

-- A breakdown for this amount that is consistent.
abbrev IsFor : {F : Type 0} → ℤ → Breakdown F → Type 0
IsFor amount b = (b.summary.amount ≡ amount) × IsConsistent b

module _ {F : Type 0} (fl : Floats F) where
  same_currency-IsFor :
      (amount : ℤ) (currency : String) (fixed ratio : F)
      → IsFor amount (calculate_same_currency fl amount currency fixed ratio)
  unfolding calculate_same_currency
  same_currency-IsFor amount currency fixed ratio = (
    refl,
    record {
      fees_agree = refl;
      parts_agree = refl;
      total_agrees = refl;
      share_agrees = ground (arith, str_eq_refl currency);
    },
  )

  cross-IsFor :
      (amount : ℤ) (currency charges : String) (fixed ratio : F) (rates : List (CurrencyRate F))
      (r : CurrencyRate F)
      → str_eq currency charges ≡ false
      → IsFor amount (calculate_cross fl amount currency charges fixed ratio rates r)
  unfolding calculate_cross
  cross-IsFor amount currency charges fixed ratio rates r other = (
    refl,
    record {
      fees_agree = refl;
      parts_agree = refl;
      total_agrees = refl;
      share_agrees = ground (arith, str_eq_iff currency charges, str_eq_iff charges currency);
    },
  )

-- A breakdown that is calculated is for the amount that was asked, and passes every check of
-- `Validate` exactly where the amount and the gateway's share are positive, whatever the float
-- arithmetic, the rates and the rounding give.
pub calculate_validates :
    {F : Type 0} (fl : Floats F) (amount : ℤ) (from to : String) (fixed ratio : F)
    (rates : List (CurrencyRate F)) {b : Breakdown F}
    → calculate fl amount from to fixed ratio rates ≡ ok b
    → (b.summary.amount ≡ amount) × ((validate b ≡ none) ↔ IsCharge b)
unfolding calculate
calculate_validates {F} fl amount from to fixed ratio rates {b} h =
    (made.0, validate-IsConsistent b made.1)
  where
    by_rate :
        (o : Option (CurrencyRate F))
        → str_eq (fl.upper from) (fl.upper to) ≡ false
        → with_rate fl o amount (fl.upper from) (fl.upper to) fixed ratio rates ≡ ok b
        → IsFor amount b
    by_rate none other e = absurd (cc)
    by_rate (some r) other e =
        subst (IsFor amount) (ok_injective e)
          (cross-IsFor fl amount (fl.upper from) (fl.upper to) fixed ratio rates r other)

    by_test :
        (t : Bool)
        → str_eq (fl.upper from) (fl.upper to) ≡ t
        → (if t
            then ok (calculate_same_currency fl amount (fl.upper from) fixed ratio)
            else with_rate fl
                (find_rate fl rates (fl.upper from) (fl.upper to))
                amount
                (fl.upper from)
                (fl.upper to)
                fixed
                ratio
                rates)
          ≡ ok b
        → IsFor amount b
    by_test true same e =
        subst (IsFor amount) (ok_injective e)
          (same_currency-IsFor fl amount (fl.upper from) fixed ratio)
    by_test false other e = by_rate (find_rate fl rates (fl.upper from) (fl.upper to)) other e

    made : IsFor amount b
    made = by_test (str_eq (fl.upper from) (fl.upper to)) refl h
