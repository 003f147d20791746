-- ===== src/Prelude/Int/Exact.antt =====
-- Where nothing overflows, the `int64` operations on amounts of zero or more are those of ℕ.
use payment_service.Prelude.Int.{
  pos, wrap64, wrap64_of_IsInt64, add64, mul64, div64, rem64, ◌*ℤ◌, ◌/ℤ◌,
}
use payment_service.Prelude.{ℕ, ◌+◌, ◌*◌, ◌/◌, ◌%◌, ◌^◌, ◌<◌, ◌≡◌, arith, ◌∙◌, ap}

*ℤ-pos : (m n : ℕ) → pos m *ℤ pos n ≡ pos (m * n)
unfolding ◌*ℤ◌
*ℤ-pos m n = ground arith

wrap64-pos : (n : ℕ) → n < 2 ^ 63 → wrap64 (pos n) ≡ pos n
wrap64-pos n h = wrap64_of_IsInt64 (pos n) (omega arith)

pub add64-pos : (m n : ℕ) → m + n < 2 ^ 63 → add64 (pos m) (pos n) ≡ pos (m + n)
unfolding add64
add64-pos m n h = ground arith

pub mul64-pos : (m n : ℕ) → m * n < 2 ^ 63 → mul64 (pos m) (pos n) ≡ pos (m * n)
mul64-pos m n h = unfold mul64 in ap wrap64 (*ℤ-pos m n) ∙ wrap64-pos (m * n) h

/ℤ-pos : (m n : ℕ) → pos m /ℤ pos n ≡ pos (m / n)
unfolding ◌/ℤ◌
/ℤ-pos m n = ground arith

pub div64-pos : (m n : ℕ) → m < 2 ^ 63 → div64 (pos m) (pos n) ≡ pos (m / n)
div64-pos m n h = unfold div64 in ap wrap64 (/ℤ-pos m n) ∙ wrap64-pos (m / n) (grind arith)

pub rem64-pos : (m n : ℕ) → rem64 (pos m) (pos n) ≡ pos (m % n)
unfolding rem64
rem64-pos m n = ground arith
