-- ===== src/Domain/Fees.antt =====
-- internal/domain/fees/fees.go: the fees of a payment, in two layers. The arithmetic of float64 and
-- the case folding of texts are arguments, of which nothing is assumed.
pub mod Consistency
use payment_service.Prelude.{
  Bool, true, false, not, ◌&&◌, ◌||◌, Option, none, some, List, [], ◌∷◌, String, str_eq, Result, ok,
  err, if◌then◌else◌,
}
use payment_service.Prelude.Int.{ℤ, pos, add64, leb_ℤ, eq_ℤ}

-- `F` is float64; `ceil` is `int64(math.Ceil(x))`.
pub record Floats (F : Type 0) : Type 0 where
  pub of_int : ℤ → F
  pub add : F → F → F
  pub sub : F → F → F
  pub mul : F → F → F
  pub div : F → F → F
  pub le : F → F → Bool
  pub ceil : F → ℤ
  pub upper : String → String
  pub equal_fold : String → String → Bool

pub record CurrencyRate (F : Type 0) : Type 0 where
  pub from_currency : String
  pub to_currency : String
  pub rate : F
  pub markup_pct : F
  pub markup_fixed : F

pub record Summary : Type 0 where
  pub amount : ℤ
  pub fees : ℤ
  pub total : ℤ
  pub currency : String

pub record Exchange (F : Type 0) : Type 0 where
  pub base_rate : F
  pub markup : F
  pub effective : F

pub record FeeDetail (F : Type 0) : Type 0 where
  pub service_fee : ℤ
  pub fixed_charge : ℤ
  pub total : ℤ
  pub exchange : Option (Exchange F)

pub record GatewayShare : Type 0 where
  pub amount : ℤ
  pub currency : String

pub record Breakdown (F : Type 0) : Type 0 where
  pub summary : Summary
  pub fees : FeeDetail F
  pub gateway : Option GatewayShare

-- `ErrMissingRate` and the errors of `Validate`.
pub data FeeError : Type 0 where
  missing_rate : String → String → FeeError
  amount_not_positive gateway_not_positive fees_differ parts_differ total_differs : FeeError
  gateway_differs : FeeError

module _ {F : Type 0} (fl : Floats F) where
  abbrev pub effective_rate : CurrencyRate F → F
  effective_rate r =
      fl.add (fl.add r.rate (fl.mul (fl.div r.rate (fl.of_int (pos 100))) r.markup_pct))
        r.markup_fixed

  unfoldable pub apply_exchange_rate : F → CurrencyRate F → F
  apply_exchange_rate amount r = fl.mul (effective_rate r) amount

  unfoldable pub compute_service_fee : F → F → F
  compute_service_fee amount ratio =
      if fl.le ratio (fl.of_int (pos 0)) || fl.le (fl.of_int (pos 100)) ratio
      then fl.of_int (pos 0)
      else fl.sub (fl.div amount (fl.sub (fl.of_int (pos 1)) (fl.div ratio (fl.of_int (pos 100)))))
          amount

  abbrev search_rate : List (CurrencyRate F) → String → String → Option (CurrencyRate F)
  search_rate [] from to = none
  search_rate (r ∷ rs) from to =
      let rest = search_rate rs from to in
      if fl.equal_fold r.from_currency from && fl.equal_fold r.to_currency to then some r else rest

  unfoldable pub find_rate : List (CurrencyRate F) → String → String → Option (CurrencyRate F)
  find_rate rates from to = search_rate rates (fl.upper from) (fl.upper to)

  abbrev converted : F → Option (CurrencyRate F) → F
  converted amount none = amount
  converted amount (some r) = apply_exchange_rate amount r

  unfoldable pub convert_back : F → List (CurrencyRate F) → String → String → F
  convert_back amount rates from to = converted amount (find_rate rates from to)

  -- The parts of a breakdown, from the rounded service fee and fixed charge.
  abbrev pub summary_of : ℤ → String → ℤ → Summary
  summary_of amount currency total_fees = record {
    amount = amount;
    fees = total_fees;
    total = add64 amount total_fees;
    currency = currency;
  }

  unfoldable pub calculate_same_currency : ℤ → String → F → F → Breakdown F
  calculate_same_currency amount currency fixed ratio =
      let service = fl.ceil (compute_service_fee (fl.of_int amount) ratio) in
      let charge = fl.ceil fixed in
      let fees = add64 service charge in
      record {
        summary = summary_of amount currency fees;
        fees = record {
          service_fee = service;
          fixed_charge = charge;
          total = fees;
          exchange = none;
        };
        gateway = some (record { amount = add64 amount fees; currency = currency });
      }

  unfoldable pub calculate_cross :
      ℤ → String → String → F → F → List (CurrencyRate F) → CurrencyRate F → Breakdown F
  calculate_cross amount currency charges fixed ratio rates r =
      let base = apply_exchange_rate (fl.of_int amount) r in
      let service_gw = compute_service_fee base ratio in
      let service = fl.ceil (convert_back service_gw rates charges currency) in
      let charge = fl.ceil (convert_back fixed rates charges currency) in
      let fees = add64 service charge in
      record {
        summary = summary_of amount currency fees;
        fees = record {
          service_fee = service;
          fixed_charge = charge;
          total = fees;
          exchange =
              some (record {
                base_rate = r.rate;
                markup = r.markup_pct;
                effective = effective_rate r;
              });
        };
        gateway = some (record {
          amount = fl.ceil (fl.add base (fl.add service_gw fixed));
          currency = charges;
        });
      }

  abbrev pub with_rate :
      Option (CurrencyRate F)
      → ℤ
      → String
      → String
      → F
      → F
      → List (CurrencyRate F)
      → Result FeeError (Breakdown F)
  with_rate none amount from to fixed ratio rates = err (missing_rate from to)
  with_rate (some r) amount from to fixed ratio rates =
      ok (calculate_cross amount from to fixed ratio rates r)

  abbrev pub calculate_upper :
      ℤ → String → String → F → F → List (CurrencyRate F) → Result FeeError (Breakdown F)
  calculate_upper amount from to fixed ratio rates =
      if str_eq from to
      then ok (calculate_same_currency amount from fixed ratio)
      else with_rate (find_rate rates from to) amount from to fixed ratio rates

  unfoldable pub calculate :
      ℤ → String → String → F → F → List (CurrencyRate F) → Result FeeError (Breakdown F)
  calculate amount from to fixed ratio rates =
      calculate_upper amount (fl.upper from) (fl.upper to) fixed ratio rates

abbrev pub share_not_positive : Option GatewayShare → Bool
share_not_positive none = false
share_not_positive (some g) = leb_ℤ g.amount (pos 0)

abbrev pub share_differs : Option GatewayShare → Summary → Bool
share_differs none s = false
share_differs (some g) s = str_eq g.currency s.currency && not (eq_ℤ g.amount s.total)

-- `none` is the nil error; a breakdown is never nil here.
unfoldable pub validate : {F : Type 0} → Breakdown F → Option FeeError
validate b =
    if leb_ℤ b.summary.amount (pos 0)
    then some amount_not_positive
    else if share_not_positive b.gateway
    then some gateway_not_positive
    else if not (eq_ℤ b.summary.fees b.fees.total)
    then some fees_differ
    else if not (eq_ℤ b.fees.total (add64 b.fees.service_fee b.fees.fixed_charge))
    then some parts_differ
    else if not (eq_ℤ b.summary.total (add64 b.summary.amount b.summary.fees))
    then some total_differs
    else if share_differs b.gateway b.summary
    then some gateway_differs
    else none
