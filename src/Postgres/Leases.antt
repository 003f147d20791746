-- ===== src/Postgres/Leases.antt =====
-- internal/adapters/postgres/lease.go: the processing leases, one row for each key.
use payment_service.Prelude.{
  ℕ, Bool, true, false, Option, none, some, List, [], ◌∷◌, ◌==◌, ◌||◌, if◌then◌else◌,
}
use payment_service.Prelude.Int.{ℤ, pos, ◌+ℤ◌, ◌*ℤ◌, ltb_ℤ}
use payment_service.Postgres.{
  Action, Lease, CachedResponse, ◌>>=◌, ◌>>◌, pure, gets, modify, db_call,
}

unfoldable pub has_lease : ℕ → List Lease → Bool
has_lease key [] = false
has_lease key (l ∷ ls) = (l.key == key) || has_lease key ls

unfoldable pub cached_for : ℕ → List Lease → Option CachedResponse
cached_for key [] = none
cached_for key (l ∷ ls) = if l.key == key then l.cached_response else cached_for key ls

unfoldable pub set_cached : ℕ → CachedResponse → List Lease → List Lease
set_cached key c [] = []
set_cached key c (l ∷ ls) =
    if l.key == key then record l { cached_response = some c } ∷ ls else l ∷ set_cached key c ls

abbrev put_lease : ℕ → ℕ → ℤ → Action (Unit {0})
put_lease key txn ttl = modify λ w. record w {
  db = record w.db {
    leases =
        record {
          key = key;
          payment_intent_id = txn;
          acquired_at = w.clock;
          ttl_sec = ttl;
          cached_response = none;
        }
        ∷ w.db.leases;
  };
}

abbrev pub insert_unless : Bool → ℕ → ℕ → ℤ → Action Bool
insert_unless true key txn ttl = pure false
insert_unless false key txn ttl = do put_lease key txn ttl; pure true

-- INSERT … ON CONFLICT DO NOTHING: whether a row was inserted.
unfoldable pub try_acquire_direct : ℕ → ℕ → ℤ → Action Bool
try_acquire_direct key txn ttl = do
  db_call
  taken ← gets (λ w. has_lease key w.db.leases)
  insert_unless taken key txn ttl

abbrev pub read_cached : Bool → ℕ → Action (Bool × Option CachedResponse)
read_cached true key = pure (true, none)
read_cached false key = do db_call; c ← gets (λ w. cached_for key w.db.leases); pure (false, c)

-- The same inside a transaction; a lost race reads the response that the winner has left.
unfoldable pub acquire : ℕ → ℕ → ℤ → Action (Bool × Option CachedResponse)
acquire key txn ttl = do won ← try_acquire_direct key txn ttl; read_cached won key

unfoldable pub write_cached_response : ℕ → CachedResponse → Action (Unit {0})
write_cached_response key c = do
  db_call
  modify (λ w. record w { db = record w.db { leases = set_cached key c w.db.leases } })

-- The leases whose time to live has not passed.
unfoldable pub live_leases : ℤ → List Lease → List Lease
live_leases now [] = []
live_leases now (l ∷ ls) =
    let rest = live_leases now ls in
    if ltb_ℤ (l.acquired_at +ℤ l.ttl_sec *ℤ pos 1000000000) now then rest else l ∷ rest

unfoldable pub delete_expired : Action (Unit {0})
delete_expired = do
  db_call
  modify (λ w. record w { db = record w.db { leases = live_leases w.clock w.db.leases } })
