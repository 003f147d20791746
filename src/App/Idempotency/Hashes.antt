-- ===== src/App/Idempotency/Hashes.antt =====
-- `Composite` and `RequestHash` (internal/app/idempotency/idempotency.go). SHA-256 and its
-- hexadecimal text are an argument.
use payment_service.Prelude.Int.{ℤ}
use payment_service.Prelude.{
  ℕ, Bool, false, ◌≡◌, refl, ap, ◌∙◌, List, [], ◌∷◌, All, String, ◌==◌, ◌||◌, if◌then◌else◌, arith,
}
use Prim.Native.Char.{Char, char, code}
use Prim.Native.String.{◌++◌}
use Prim.Native.String.append.{nil, cons}

-- `uuid.UUID.String`, `strconv.FormatInt` and the hexadecimal SHA-256.
pub record Texts : Type 0 where
  pub uuid : ℕ → String
  pub int : ℤ → String
  pub hash : String → String

-- U+001F.
abbrev pub separator : Char
separator = char 31 tt

unfoldable pub after_separator : List String → String
after_separator [] = ""
after_separator (p ∷ ps) = String.◌∷◌ separator (p ++ after_separator ps)

-- The parts with U+001F between them.
unfoldable pub joined : List String → String
joined [] = ""
joined (p ∷ ps) = p ++ after_separator ps

unfoldable pub request_hash : (String → String) → List String → String
request_hash hash parts = hash (joined parts)

unfoldable pub composite : (String → String) → String → String → String → String
composite hash merchant operation key = hash (merchant ++ (":" ++ (operation ++ (":" ++ key))))

-- A text cut at each U+001F: the part before the first, and the others.
unfoldable pub cut : String → String × List String
cut String.[] = ("", [])
cut (String.◌∷◌ c s) =
    let rest = cut s in
    if code c == 31 then ("", rest.0 ∷ rest.1) else (String.◌∷◌ c rest.0, rest.1)

unfoldable pub split : String → List String
split s = (cut s).0 ∷ (cut s).1

unfoldable pub has_separator : String → Bool
has_separator String.[] = false
has_separator (String.◌∷◌ c s) = (code c == 31) || has_separator s

abbrev pub IsPlain : String → Type 0
IsPlain p = has_separator p ≡ false

cut_part : (p t : String) (ps : List String) → IsPlain p → cut t ≡ ("", ps) → cut (p ++ t) ≡ (p, ps)
unfolding cut has_separator
cut_part String.[] t ps plain e = ap cut (λ i. nil t i) ∙ e
cut_part (String.◌∷◌ c p) t ps plain e =
    let other : (code c == 31) ≡ false = ground arith in
    let ih = cut_part p t ps (ground (arith, plain, other)) e in
    ap cut (λ i. cons c p t i) ∙ rw other (rw ih refl)

cut_after : (ps : List String) → All IsPlain ps → cut (after_separator ps) ≡ ("", ps)
unfolding after_separator cut
cut_after [] plain = refl
cut_after (p ∷ ps) (plain, rest) =
    let ih = cut_part p (after_separator ps) ps plain (cut_after ps rest) in rw ih refl

-- The text that is hashed tells the parts of a request apart: cut at each U+001F, the joined parts
-- come back, so no two requests with different parts are joined to the same text. Condition: no part
-- contains that character.
pub split-joined :
    (p : String) (ps : List String) → All IsPlain (p ∷ ps) → split (joined (p ∷ ps)) ≡ p ∷ ps
unfolding split joined
split-joined p ps (plain, rest) =
    let ih = cut_part p (after_separator ps) ps plain (cut_after ps rest) in rw ih refl
