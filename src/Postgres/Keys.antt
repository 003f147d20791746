-- ===== src/Postgres/Keys.antt =====
-- internal/adapters/postgres/idempotency.go: the idempotency keys, one row for each composite hash.
pub mod Rows
use payment_service.Prelude.{
  ℕ, Bool, true, false, Option, none, some, List, [], ◌∷◌, String, str_eq, ◌&&◌, if◌then◌else◌,
}
use payment_service.Prelude.Int.{ℤ, pos, ◌+ℤ◌, ◌-ℤ◌, ◌*ℤ◌, ◌/ℤ◌, ltb_ℤ}
use payment_service.Ports.Responses.{Response, nothing}
use payment_service.Postgres.{
  Action, World, Key, KeyStatus, reserved, completed, ◌>>=◌, ◌>>◌, pure, gets, modify, db_call,
}

unfoldable pub find_key : String → List Key → Option Key
find_key c [] = none
find_key c (k ∷ ks) = if str_eq k.composite c then some k else find_key c ks

-- A new row, with the column defaults.
abbrev pub reserved_key : String → String → ℤ → Key
reserved_key c h now = record {
  composite = c;
  request_hash = h;
  response = nothing;
  status = reserved;
  created_at = now;
  expires_at = now +ℤ pos 86400000000000;
}

abbrev pub put_key : String → String → Action (Unit {0})
put_key c h =
    modify (λ w. record w { db = record w.db { keys = reserved_key c h w.clock ∷ w.db.keys } })

abbrev pub claim_key : Option Key → String → String → Action Bool
claim_key (some _) c h = pure false
claim_key none c h = do put_key c h; pure true

-- INSERT … ON CONFLICT DO NOTHING: whether a row was inserted.
unfoldable pub reserve : String → String → Action Bool
reserve c h = do db_call; found ← gets (λ w. find_key c w.db.keys); claim_key found c h

unfoldable pub lookup : String → Action (Option Key)
lookup c = do db_call; gets (λ w. find_key c w.db.keys)

unfoldable pub complete_key : String → Response → List Key → List Key
complete_key c r [] = []
complete_key c r (k ∷ ks) =
    if str_eq k.composite c
    then record k { response = r; status = completed } ∷ ks
    else k ∷ complete_key c r ks

unfoldable pub complete : String → Response → Action (Unit {0})
complete c r = do
  db_call
  modify (λ w. record w { db = record w.db { keys = complete_key c r w.db.keys } })

unfoldable pub without_key : String → List Key → List Key
without_key c [] = []
without_key c (k ∷ ks) =
    let rest = without_key c ks in if str_eq k.composite c then rest else k ∷ rest

unfoldable pub release : String → Action (Unit {0})
release c = do
  db_call
  modify (λ w. record w { db = record w.db { keys = without_key c w.db.keys } })

abbrev pub is_reserved : KeyStatus → Bool
is_reserved reserved = true
is_reserved completed = false

-- The keys that the sweep leaves: all but those that were reserved before `limit`.
unfoldable pub unswept : ℤ → List Key → List Key
unswept limit [] = []
unswept limit (k ∷ ks) =
    let rest = unswept limit ks in
    if is_reserved k.status && ltb_ℤ k.created_at limit then rest else k ∷ rest

-- The age is cut to whole seconds.
unfoldable pub sweep_stale_processing : ℤ → Action (Unit {0})
sweep_stale_processing older_than = do
  db_call
  modify λ w. record w {
    db = record w.db {
      keys = unswept (w.clock -ℤ older_than /ℤ pos 1000000000 *ℤ pos 1000000000) w.db.keys;
    };
  }

unfoldable pub unexpired : ℤ → List Key → List Key
unexpired now [] = []
unexpired now (k ∷ ks) =
    let rest = unexpired now ks in if ltb_ℤ k.expires_at now then rest else k ∷ rest

unfoldable pub delete_expired_keys : Action (Unit {0})
delete_expired_keys = do
  db_call
  modify (λ w. record w { db = record w.db { keys = unexpired w.clock w.db.keys } })
