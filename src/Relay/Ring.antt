-- ===== src/Relay/Ring.antt =====
-- internal/relay/ring/ring.go: which worker polls which shards of the outbox. `strconv.Itoa`, the
-- FNV-1a hash of `hash/fnv` and `sort.Slice` are arguments; counts and indices are not negative.
pub mod Walk
pub mod Spread
use payment_service.Prelude.{
  ℕ, zero, suc, ◌+◌, ◌*◌, ◌/◌, ◌%◌, ◌^◌, Bool, true, false, Option, none, some, List, [], ◌∷◌, ◌++◌,
  length, contains, get_elem?, ltb, leb, ◌==◌, String, if◌then◌else◌,
}
use Prim.Native.Nat.{bit_xor}
use Prim.Native.String.{◌++◌ as append_text}

pub record Vnode : Type 0 where
  pub position : ℕ
  pub worker : ℕ

-- What the ring takes from the standard library.
pub record Library : Type 0 where
  pub itoa : ℕ → String
  pub fnv64a : String → ℕ
  pub sort : List Vnode → List Vnode

abbrev pub xor_shift : ℕ → ℕ → ℕ
xor_shift x k = bit_xor x (x / 2 ^ k)

-- On 64-bit words.
unfoldable pub mix64 : ℕ → ℕ
mix64 x =
    let a = xor_shift x 30 * 0xbf58476d1ce4e5b9 % 2 ^ 64 in
    let b = xor_shift a 27 * 0x94d049bb133111eb % 2 ^ 64 in xor_shift b 31

unfoldable pub hash_key : Library → String → ℕ
hash_key l s = mix64 (l.fnv64a s)

abbrev pub vnodes_per_worker : ℕ
vnodes_per_worker = 128

abbrev pub replication_factor : ℕ
replication_factor = 2

unfoldable pub vnode : Library → ℕ → ℕ → Vnode
vnode l w v = record {
  position =
      hash_key l
        (append_text "worker:" (append_text (l.itoa w) (append_text ":vnode:" (l.itoa v))));
  worker = w;
}

-- The `n` nodes of a worker from the `v`-th on.
unfoldable pub worker_vnodes : Library → ℕ → ℕ → ℕ → List Vnode
worker_vnodes l w v zero = []
worker_vnodes l w v (suc n) = vnode l w v ∷ worker_vnodes l w (suc v) n

-- The nodes of `n` workers from the `w`-th on.
unfoldable pub vnodes : Library → ℕ → ℕ → List Vnode
vnodes l w zero = []
vnodes l w (suc n) = worker_vnodes l w 0 vnodes_per_worker ++ vnodes l (suc w) n

-- `sort.Search` on the sorted ring: the first position that is not below the hash.
unfoldable pub search_ring : ℕ → List Vnode → ℕ
search_ring h [] = 0
search_ring h (v ∷ vs) = if leb h v.position then 0 else suc (search_ring h vs)

abbrev pub wrap : ℕ → List Vnode → ℕ
wrap i ring = if i == length ring then 0 else i

abbrev pub with_worker : List ℕ → ℕ → List ℕ
with_worker set w = if contains ◌==◌ set w then set else set ++ w ∷ []

-- The loop of `replicaSets` on a fuel; `none` where the fuel runs out or the index is out of range.
unfoldable pub walk : ℕ → List Vnode → ℕ → ℕ → List ℕ → Option (List ℕ)
walk zero ring rf idx set = if ltb (length set) rf then none else some set
walk (suc fuel) ring rf idx set =
    let rest = elim (get_elem? ring idx) as (λ _. Option (List ℕ)) [
      | none ↦ none
      | some v ↦ walk fuel ring rf (wrap (suc idx) ring) (with_worker set v.worker)
    ] in
    if ltb (length set) rf then rest else some set

abbrev pub the_ring : Library → ℕ → List Vnode
the_ring l workers = l.sort (vnodes l 0 workers)

abbrev pub shard_start : Library → ℕ → ℕ → ℕ
shard_start l workers shard =
    wrap (search_ring (hash_key l (append_text "shard:" (l.itoa shard))) (the_ring l workers))
      (the_ring l workers)

abbrev pub smaller_factor : ℕ → ℕ
smaller_factor workers = if ltb replication_factor workers then replication_factor else workers

-- One entry of `replicaSets`.
unfoldable pub replica_set : Library → ℕ → ℕ → Option (List ℕ)
unfolding walk
replica_set l workers shard =
    if leb workers 1
    then some (0 ∷ [])
    else walk (length (the_ring l workers) + 2) (the_ring l workers) (smaller_factor workers)
        (shard_start l workers shard) []

abbrev pub owns : ℕ → Option (List ℕ) → Bool
owns worker none = false
owns worker (some set) = contains ◌==◌ set worker

-- The shards of a worker among `n` shards from `shard` on.
unfoldable pub owned_from : Library → ℕ → ℕ → ℕ → ℕ → List ℕ
owned_from l worker workers shard zero = []
owned_from l worker workers shard (suc n) =
    let rest = owned_from l worker workers (suc shard) n in
    if owns worker (replica_set l workers shard) then shard ∷ rest else rest

unfoldable pub owned_shards : Library → ℕ → ℕ → ℕ → List ℕ
owned_shards l worker workers shards = owned_from l worker workers 0 shards
