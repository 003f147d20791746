-- ===== src/App/Reconciliation/Complete.antt =====
-- What a comparison reports (internal/app/reconciliation/service.go).
use payment_service.Prelude.{
  ℕ, suc, Bool, true, false, ◌≡◌, ◌↔◌, refl, Option, none, some, List, [], ◌∷◌, ◌++◌, All, All-map,
  any, any-get_elem?, get_elem?, position_of, contains, length, ◌==◌, arith,
}
use payment_service.Domain.Transaction.{Txn}
use payment_service.App.Reconciliation.{
  SettlementEntry, Run, by_reference, line_entries, report_entries, matched_internal,
  unmatched_entries, batch_entries,
}
use payment_service.App.Reconciliation.Matches.{LastWith, by_reference_iff}
use payment_service.App.Reconciliation.Agreement.{Agrees, compare_transaction_iff}

-- A line of the report belongs to a payment that agrees with it.
abbrev pub IsSettled : Run → List Txn → SettlementEntry → Type 0
IsSettled r ts se = (t : Txn) × LastWith se.transaction_ref ts t × Agrees r t se

-- Some line of the report belongs to the payment with this id.
abbrev pub IsMentioned : List Txn → List SettlementEntry → ℕ → Type 0
IsMentioned ts ses id =
    (i : ℕ) × (se : SettlementEntry) × (get_elem? ses i ≡ some se)
    × ((t : Txn) × LastWith se.transaction_ref ts t × (t.id ≡ id))

abbrev is_id : ℕ → Option Txn → Bool
is_id id none = false
is_id id (some t) = t.id == id

abbrev is_mentioned : List Txn → List SettlementEntry → ℕ → Bool
is_mentioned ts ses id = any (λ se. is_id id (by_reference se.transaction_ref ts)) ses

is_id_iff :
    (id : ℕ) (o : Option Txn) → (is_id id o ≡ true) ↔ ((t : Txn) × (o ≡ some t) × (t.id ≡ id))
is_id_iff id none = (λ h. absurd (cc), λ (t, e, _). absurd (cc))
is_id_iff id (some u) =
    (λ h. (u, refl, ground arith), λ (t, e, same). let is_u : u ≡ t = cc in ground arith)

is_mentioned_iff :
    (ts : List Txn) (ses : List SettlementEntry) (id : ℕ)
    → (is_mentioned ts ses id ≡ true) ↔ IsMentioned ts ses id
is_mentioned_iff ts ses id = (
  λ h.
      let (i, se, at, found, _) = position_of _ ses h in
      let (t, e, same) = (is_id_iff id (by_reference se.transaction_ref ts)).0 found in
      (i, se, at, (t, (by_reference_iff se.transaction_ref ts t).0 e, same)),
  λ (i, se, at, (t, last, same)). any-get_elem? _ ses i at (
      (is_id_iff id (by_reference se.transaction_ref ts)).1
        (t, (by_reference_iff se.transaction_ref ts t).1 last, same)),
)

contains-matched_internal :
    (ts : List Txn) (ses : List SettlementEntry) (id : ℕ)
    → contains ◌==◌ (matched_internal ts ses) id ≡ is_mentioned ts ses id
unfolding matched_internal
contains-matched_internal ts [] id = refl
contains-matched_internal ts (se ∷ ses) id = ground (arith, contains-matched_internal ts ses id)

line_entries_clean :
    (r : Run) (i : ℕ) (se : SettlementEntry) (ts : List Txn) (o : Option Txn)
    → by_reference se.transaction_ref ts ≡ o
    → line_entries r i se o ≡ []
    → IsSettled r ts se
line_entries_clean r i se ts none e h = absurd (cc)
line_entries_clean r i se ts (some t) e h = (
  t,
  (by_reference_iff se.transaction_ref ts t).0 e,
  (compare_transaction_iff r i t se).0 (ground arith),
)

line_entries_of_IsSettled :
    (r : Run) (i : ℕ) (se : SettlementEntry) (ts : List Txn)
    → IsSettled r ts se
    → line_entries r i se (by_reference se.transaction_ref ts) ≡ []
line_entries_of_IsSettled r i se ts (t, last, agrees) =
    rw ((by_reference_iff se.transaction_ref ts t).1 last)
      (rw ((compare_transaction_iff r i t se).1 agrees, line_entries) refl)

append_nil_iff : {A : Type 0} (xs ys : List A) → (xs ++ ys ≡ []) ↔ ((xs ≡ []) × (ys ≡ []))
append_nil_iff [] ys = (λ h. (refl, h), λ h. h.1)
append_nil_iff (x ∷ xs) ys = (λ h. absurd (cc), λ h. absurd (cc))

report_entries_clean :
    (r : Run) (i : ℕ) (ts : List Txn) (ses : List SettlementEntry)
    → (report_entries r i ts ses ≡ []) ↔ All (IsSettled r ts) ses
unfolding report_entries
report_entries_clean r i ts [] = (λ _. tt, λ _. refl)
report_entries_clean r i ts (se ∷ ses) =
    let rest = report_entries_clean r (suc i) ts ses in
    (
      λ h.
          let (one, more) = (append_nil_iff _ _).0 h in
          (line_entries_clean r i se ts _ refl one, rest.0 more),
      λ (one, more). (append_nil_iff _ _).1 (line_entries_of_IsSettled r i se ts one, rest.1 more),
    )

unmatched_entries_clean :
    (r : Run) (i : ℕ) (ids : List ℕ) (m : ℕ → Bool) (ts : List Txn)
    → ((id : ℕ) → contains ◌==◌ ids id ≡ m id)
    → (unmatched_entries r i ids ts ≡ []) ↔ All (λ t. m t.id ≡ true) ts
unfolding unmatched_entries
unmatched_entries_clean r i ids m [] e = (λ _. tt, λ _. refl)
unmatched_entries_clean r i ids m (t ∷ ts) e =
    ground (arith, unmatched_entries_clean r (suc i) ids m ts e, e t.id)

each_iff :
    {A : Type 0} {P Q : A → Type 0} → ((x : A) → P x ↔ Q x) → (xs : List A) → All P xs ↔ All Q xs
each_iff f xs = (All-map (λ x. (f x).0) xs, All-map (λ x. (f x).1) xs)

-- A batch reports nothing exactly when every line of the settlement report belongs to a payment
-- that agrees with it, and every payment has a line. A line belongs to the last payment with its
-- reference, which is not the empty text. The two agree if the payment is CAPTURED or SETTLED
-- exactly where the gateway says `succeeded`, the settled amount is the one charged at the gateway,
-- or the nominal one where none was, and the fees are the same where both are known and the
-- payment's is positive.
pub batch_entries_clean :
    (r : Run) (ts : List Txn) (ses : List SettlementEntry)
    → (batch_entries r ts ses ≡ [])
      ↔ (All (IsSettled r ts) ses × All (λ t. IsMentioned ts ses t.id) ts)
unfolding batch_entries
batch_entries_clean r ts ses =
    let lines = report_entries_clean r 0 ts ses in
    let others =
      unmatched_entries_clean r (length ses) (matched_internal ts ses) (is_mentioned ts ses) ts
        (contains-matched_internal ts ses) in
    let mentions = each_iff (λ (t : Txn). is_mentioned_iff ts ses t.id) ts in
    (
      λ h. let (a, b) = (append_nil_iff _ _).0 h in (lines.0 a, mentions.0 (others.0 b)),
      λ (a, b). (append_nil_iff _ _).1 (lines.1 a, others.1 (mentions.1 b)),
    )
