-- ===== src/Relay/Ring/Spread.antt =====
-- Every shard has two workers (internal/relay/ring/ring.go).
use payment_service.Prelude.{
  ℕ, zero, suc, ◌+◌, ◌-◌, ◌≤◌, ◌<◌, ◌≡◌, ◌≢◌, ◌⊎◌, inl, inr, refl, ap, ◌∙◌, Bool, true, false, ◌&&◌,
  ◌||◌, Option, some, List, [], ◌∷◌, length, contains, get_elem?, get_elem?-lt, any, any-append,
  any-get_elem?, position_of, ltb, leb, ◌==◌, Bool-cases, arith,
}
use payment_service.Relay.Ring.{
  Vnode, Library, vnode, worker_vnodes, vnodes, the_ring, walk, wrap, search_ring, shard_start,
  smaller_factor, replica_set, owns, owned_from, owned_shards,
}
use payment_service.Relay.Ring.Walk.{is_worker, TwoOf, reach}

-- `sort.Slice` keeps the elements.
pub record IsSort (l : Library) : Type 0 where
  pub keeps_elements : (p : Vnode → Bool) (vs : List Vnode) → any p (l.sort vs) ≡ any p vs

any-worker_vnodes :
    (l : Library) (c w v n : ℕ) → any (is_worker c) (worker_vnodes l w v (suc n)) ≡ (w == c)
unfolding worker_vnodes vnode
any-worker_vnodes l c w v zero = ground arith
any-worker_vnodes l c w v (suc n) = ground (arith, any-worker_vnodes l c w (suc v) n)

-- The nodes belong to the workers, and each worker has some.
any-vnodes :
    (l : Library) (c w n : ℕ) → any (is_worker c) (vnodes l w n) ≡ (leb w c && ltb c (w + n))
unfolding vnodes
any-vnodes l c w zero = ground arith
any-vnodes l c w (suc n) =
    any-append (is_worker c) (worker_vnodes l w 0 128) (vnodes l (suc w) n)
    ∙ ground (arith, any-worker_vnodes l c w 0 127, any-vnodes l c (suc w) n)

wrap-lt :
    (i : ℕ) (ring : List Vnode) → 0 < length ring → i ≤ length ring → wrap i ring < length ring
wrap-lt i ring h le = ground arith

search_ring-le : (h : ℕ) (vs : List Vnode) → search_ring h vs ≤ length vs
unfolding search_ring
search_ring-le h [] = omega arith
search_ring-le h (v ∷ vs) = ground (arith, search_ring-le h vs)

-- How far it is from one position to another, round the ring.
distance : (i j n : ℕ) → i < n → j < n → (k : ℕ) × (k < n) × ((i + k ≡ j) ⊎ (i + k ≡ j + n))
distance i j n hi hj = elim (Bool-cases (leb i j)) [
  | inl e ↦ (j - i, ground arith, inl (ground arith))
  | inr e ↦ (j + n - i, ground arith, inr (ground arith))
]

-- A worker of the ring that is not this one.
another :
    (a : ℕ) (ring : List Vnode)
    → any (is_worker 0) ring ≡ true
    → any (is_worker 1) ring ≡ true
    → (b : ℕ) × (any (is_worker b) ring ≡ true) × ((a == b) ≡ false)
another a ring has_0 has_1 = elim (Bool-cases (a == 0)) [
  | inl e ↦ (1, has_1, ground arith)
  | inr e ↦ (0, has_0, e)
]

first_step :
    (f idx : ℕ) (ring : List Vnode) {u : Vnode}
    → get_elem? ring idx ≡ some u
    → walk (suc f) ring 2 idx [] ≡ walk f ring 2 (wrap (suc idx) ring) (u.worker ∷ [])
unfolding walk
first_step f idx ring here = rw here refl

-- From wherever it starts, the walk finds two workers where the ring has two.
walk-TwoOf :
    (ring : List Vnode) (idx : ℕ)
    → idx < length ring
    → any (is_worker 0) ring ≡ true
    → any (is_worker 1) ring ≡ true
    → TwoOf ring (walk (length ring + 2) ring 2 idx [])
walk-TwoOf ring idx lt has_0 has_1 =
    let (u, here) = get_elem?-lt ring idx lt in
    let has_u : any (is_worker u.worker) ring ≡ true =
      any-get_elem? (is_worker u.worker) ring idx here (ground arith) in
    let (b, has_b, differs) = another u.worker ring has_0 has_1 in
    let (j, v, at, is_b, lt_j) = position_of (is_worker b) ring has_b in
    let lt' : wrap (suc idx) ring < length ring =
      wrap-lt (suc idx) ring (omega arith) (omega arith) in
    let (k, lt_k, ahead) = distance (wrap (suc idx) ring) j (length ring) lt' lt_j in
    let fuel : length ring + 2 ≡ suc (suc (suc (k + (length ring - 1 - k)))) = omega arith in
    rw fuel (
      rw (first_step (suc (suc (k + (length ring - 1 - k)))) idx ring here) (
        reach ring u.worker has_u k (length ring - 1 - k) (wrap (suc idx) ring) j lt' lt_j ahead at
          (ground arith)))

-- Two workers, of those that there are, and not the same.
abbrev pub TwoWorkers : ℕ → Option (List ℕ) → Type 0
TwoWorkers workers r = (a c : ℕ) × (r ≡ some (a ∷ c ∷ [])) × (a ≢ c) × (a < workers) × (c < workers)

the_ring_lem :
    (l : Library) (workers c : ℕ)
    → IsSort l
    → any (is_worker c) (the_ring l workers) ≡ (leb 0 c && ltb c (0 + workers))
the_ring_lem l workers c sorts =
    sorts.keeps_elements (is_worker c) (vnodes l 0 workers) ∙ any-vnodes l c 0 workers

any-positive : (p : Vnode → Bool) (vs : List Vnode) → any p vs ≡ true → 0 < length vs
any-positive p [] h = absurd (cc)
any-positive p (v ∷ vs) h = omega arith

ring_positive :
    (l : Library) (workers : ℕ) → IsSort l → 2 ≤ workers → 0 < length (the_ring l workers)
ring_positive l workers sorts many =
    any-positive (is_worker 0) (the_ring l workers) (ground (arith, the_ring_lem l workers 0 sorts))

replica_set-TwoWorkers :
    (l : Library) (workers shard : ℕ)
    → IsSort l
    → 2 ≤ workers
    → TwoWorkers workers (replica_set l workers shard)
unfolding replica_set
replica_set-TwoWorkers l workers shard sorts many =
    let ring = the_ring l workers in
    let (a, c, found, differ, has_a, has_c) =
      walk-TwoOf ring (shard_start l workers shard)
        (wrap-lt _ ring (ring_positive l workers sorts many) (search_ring-le _ ring))
        (ground (arith, the_ring_lem l workers 0 sorts))
        (ground (arith, the_ring_lem l workers 1 sorts)) in
    (
      a,
      c,
      rw (few, two) found,
      differ,
      ground (arith, the_ring_lem l workers a sorts),
      ground (arith, the_ring_lem l workers c sorts),
    )
  where
    few : leb workers 1 ≡ false
    few = ground arith

    two : smaller_factor workers ≡ 2
    two = ground arith

owned_from_lem :
    (l : Library) (worker workers start n shard : ℕ)
    → contains ◌==◌ (owned_from l worker workers start n) shard
      ≡ (leb start shard && ltb shard (start + n) && owns worker (replica_set l workers shard))
unfolding owned_from
owned_from_lem l worker workers start zero shard = ground arith
owned_from_lem l worker workers start (suc n) shard = elim (Bool-cases (start == shard)) [
  | inl here ↦
      let same : start ≡ shard = ground arith in
      rw (ap (λ x. owns worker (replica_set l workers x)) same)
        (ground (arith, same, owned_from_lem l worker workers (suc start) n shard))
  | inr there ↦ ground (arith, owned_from_lem l worker workers (suc start) n shard)
]

-- Whatever the hash, where there are two workers or more every shard is polled by two different
-- ones of them and by no third. Condition: the sort keeps the elements.
pub owned_shards-two :
    (l : Library) (workers shards shard : ℕ)
    → IsSort l
    → 2 ≤ workers
    → shard < shards
    → (a c : ℕ) × (a ≢ c)
      × (a < workers)
      × (c < workers)
      × ((w : ℕ) → contains ◌==◌ (owned_shards l w workers shards) shard ≡ ((a == w) || (c == w)))
unfolding owned_shards
owned_shards-two l workers shards shard sorts many lt =
    let (a, c, found, differ, lt_a, lt_c) = replica_set-TwoWorkers l workers shard sorts many in
    (
      a,
      c,
      differ,
      lt_a,
      lt_c,
      λ w. owned_from_lem l w workers 0 shards shard ∙ ground (arith, ap (owns w) found),
    )
