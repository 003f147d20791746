-- ===== src/Relay/Ring/Walk.antt =====
-- The walk round the ring (internal/relay/ring/ring.go).
use payment_service.Prelude.{
  ℕ, zero, suc, ◌+◌, ◌<◌, ◌≡◌, ◌≢◌, ◌⊎◌, inl, inr, refl, Bool, true, false, Option, some, List, [],
  ◌∷◌, length, get_elem?, get_elem?-lt, any, any-get_elem?, ◌==◌, Bool-cases, arith,
}
use payment_service.Relay.Ring.{Vnode, walk, wrap}

abbrev pub is_worker : ℕ → Vnode → Bool
is_worker c v = v.worker == c

-- Two workers of the ring, and not the same.
abbrev pub TwoOf : List Vnode → Option (List ℕ) → Type 0
TwoOf ring r =
    (a c : ℕ) × (r ≡ some (a ∷ c ∷ []))
    × (a ≢ c)
    × (any (is_worker a) ring ≡ true)
    × (any (is_worker c) ring ≡ true)

module _ (ring : List Vnode) (a : ℕ) (has_a : any (is_worker a) ring ≡ true) where
  -- One step at a node of another worker ends the walk.
  meets :
      (f idx : ℕ) {u : Vnode}
      → get_elem? ring idx ≡ some u
      → (a == u.worker) ≡ false
      → TwoOf ring (walk (suc (suc f)) ring 2 idx (a ∷ []))
  unfolding walk
  meets f idx {u} here other = (
    a,
    u.worker,
    rw here (rw other refl),
    ground arith,
    has_a,
    any-get_elem? (is_worker u.worker) ring idx here (ground arith),
  )

  -- One at a node of the same worker goes on.
  passes :
      (f idx : ℕ) {u : Vnode}
      → get_elem? ring idx ≡ some u
      → (a == u.worker) ≡ true
      → walk (suc f) ring 2 idx (a ∷ []) ≡ walk f ring 2 (wrap (suc idx) ring) (a ∷ [])
  unfolding walk
  passes f idx here same = rw here (rw same refl)

  shifted : (k f : ℕ) → suc k + f ≡ suc (k + f)
  shifted k f = omega arith

  -- The walk meets another worker, at the latest `k` positions on.
  pub reach :
      (k f idx j : ℕ) {v : Vnode}
      → idx < length ring
      → j < length ring
      → (idx + k ≡ j) ⊎ (idx + k ≡ j + length ring)
      → get_elem? ring j ≡ some v
      → (a == v.worker) ≡ false
      → TwoOf ring (walk (suc (suc (k + f))) ring 2 idx (a ∷ []))
  reach zero f idx j {v} lt lt_j ahead at other =
      let same : idx ≡ j = ground arith in meets (zero + f) idx {u = v} (rw same at) other
  reach (suc k) f idx j lt lt_j ahead at other =
      let (u, here) = get_elem?-lt ring idx lt in
      elim (Bool-cases (a == u.worker)) [
        | inl same ↦ rw (passes (suc (suc k + f)) idx here same) (
            rw (shifted k f) (elim (Bool-cases (suc idx == length ring)) [
              | inl last ↦ rw last (reach k f 0 j (omega arith) lt_j (inl (ground arith)) at other)
              | inr inner ↦
                  rw inner (reach k f (suc idx) j (ground arith) lt_j (ground arith) at other)
            ]))
        | inr differs ↦ meets (suc k + f) idx here differs
      ]
