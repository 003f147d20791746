-- ===== src/App/Reconciliation/Matches.antt =====
-- Which payment a line of the report belongs to, and when the two agree
-- (internal/app/reconciliation/service.go).
use payment_service.Prelude.{
  Bool, true, not, ◌&&◌, ◌≡◌, ◌≢◌, ◌↔◌, inl, inr, ◌∙◌, sym, refl, ap, Option, none, some, List, [],
  ◌∷◌, ◌++◌, All, String, str_eq, str_eq_iff, arith, Bool-cases, if◌then◌else◌,
}
use payment_service.Domain.Transaction.{Txn}
use payment_service.App.Reconciliation.{by_reference}

-- The last of the payments with this reference, which is not the empty text.
pub record LastWith (ref : String) (ts : List Txn) (t : Txn) : Type 0 where
  pub is_given : ref ≢ ""
  pub earlier : List Txn
  pub later : List Txn
  pub stands : ts ≡ earlier ++ t ∷ later
  pub has_reference : t.gateway_reference_id ≡ ref
  pub none_later : All (λ u. u.gateway_reference_id ≢ ref) later

abbrev carries : String → Txn → Bool
carries ref t = not (str_eq t.gateway_reference_id "") && str_eq t.gateway_reference_id ref

carries_iff :
    (ref : String) (t : Txn)
    → (carries ref t ≡ true) ↔ ((ref ≢ "") × (t.gateway_reference_id ≡ ref))
carries_iff ref t = (
  λ h.
      let same : t.gateway_reference_id ≡ ref =
        (str_eq_iff t.gateway_reference_id ref).0 (ground arith) in
      ((λ e. ground (arith, (str_eq_iff t.gateway_reference_id "").1 (same ∙ e))), same),
  λ (given, same). elim (Bool-cases (str_eq t.gateway_reference_id "")) [
    | inl e ↦ absurd (given (sym same ∙ (str_eq_iff t.gateway_reference_id "").0 e))
    | inr e ↦ ground (arith, (str_eq_iff t.gateway_reference_id ref).1 same)
  ],
)

-- A text that no payment carries.
by_reference-none :
    (ref : String) (ts : List Txn)
    → ref ≢ ""
    → (by_reference ref ts ≡ none) ↔ All (λ u. u.gateway_reference_id ≢ ref) ts
unfolding by_reference
by_reference-none ref [] given = (λ _. tt, λ _. refl)
by_reference-none ref (t ∷ ts) given =
    let rest = by_reference-none ref ts given in
    (
      λ h. from_none (by_reference ref ts) refl rest.0 h,
      λ (one, more). rw (rest.1 more) (misses one),
    )
  where
    misses : t.gateway_reference_id ≢ ref → (if carries ref t then some t else none) ≡ none
    misses other = elim (Bool-cases (carries ref t)) [
      | inl e ↦ absurd (other ((carries_iff ref t).0 e).1)
      | inr e ↦ rw e refl
    ]

    from_none :
        (o : Option Txn)
        → by_reference ref ts ≡ o
        → (by_reference ref ts ≡ none → All (λ u. u.gateway_reference_id ≢ ref) ts)
        → by_reference ref (t ∷ ts) ≡ none
        → (t.gateway_reference_id ≢ ref) × All (λ u. u.gateway_reference_id ≢ ref) ts
    from_none none e rest h = (λ same. ground (arith, (carries_iff ref t).1 (given, same)), rest e)
    from_none (some u) e rest h = absurd (ground arith)

by_reference-LastWith :
    (ref : String) (ts : List Txn) (t : Txn) → by_reference ref ts ≡ some t → LastWith ref ts t
unfolding by_reference
by_reference-LastWith ref [] t h = absurd (cc)
by_reference-LastWith ref (u ∷ us) t h =
    by_rest (by_reference ref us) refl (λ v e. by_reference-LastWith ref us v e)
  where
    by_rest :
        (o : Option Txn)
        → by_reference ref us ≡ o
        → ((v : Txn) → by_reference ref us ≡ some v → LastWith ref us v)
        → LastWith ref (u ∷ us) t
    by_rest (some v) e rest =
        let same : v ≡ t = ground arith in
        let l = rest t (e ∙ ap some same) in
        record {
          is_given = l.is_given;
          earlier = u ∷ l.earlier;
          later = l.later;
          stands = ap (λ ts. u ∷ ts) l.stands;
          has_reference = l.has_reference;
          none_later = l.none_later;
        }
    by_rest none e rest =
        let (given, same) = (carries_iff ref u).0 (ground arith) in
        let is_u : u ≡ t = ground arith in
        record {
          is_given = given;
          earlier = [];
          later = us;
          stands = ap (λ v. v ∷ us) is_u;
          has_reference = sym (ap (λ v. v.gateway_reference_id) is_u) ∙ same;
          none_later = (by_reference-none ref us given).0 e;
        }

found_after :
    (ref : String) (xs ys : List Txn) (t : Txn)
    → ref ≢ ""
    → t.gateway_reference_id ≡ ref
    → All (λ u. u.gateway_reference_id ≢ ref) ys
    → by_reference ref (xs ++ t ∷ ys) ≡ some t
unfolding by_reference
found_after ref [] ys t given same others =
    rw ((by_reference-none ref ys given).1 others) (rw ((carries_iff ref t).1 (given, same)) refl)
found_after ref (x ∷ xs) ys t given same others =
    rw (found_after ref xs ys t given same others) refl

pub by_reference_iff :
    (ref : String) (ts : List Txn) (t : Txn) → (by_reference ref ts ≡ some t) ↔ LastWith ref ts t
by_reference_iff ref ts t = (
  by_reference-LastWith ref ts t,
  λ l.
      ap (by_reference ref) l.stands
      ∙ found_after ref l.earlier l.later t l.is_given l.has_reference l.none_later,
)
