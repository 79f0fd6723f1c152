-- ===== src/Scores/Rounding.antt =====
-- Rounding keeps the order.
use net_audit.Scores.{round_half_even}
use native.Mathlib.Nat.{le-div_iff_mul-le, div-mul-le_self, le_trans, mul-div_left, div-add-mod'}
use net_audit.Common.{
  ltb, if◌then◌else◌, ltb→lt, ltb→ge, Bool-cases, ℕ, ◌+◌, ◌*◌, ◌/◌, ◌%◌, ◌≤◌, ◌<◌, ◌≡◌, sym, ap,
  ◌∙◌, ◌⊎◌, inl, inr, arith,
}

div_mono : (n m d : ℕ) → 0 < d → n ≤ m → n / d ≤ m / d
div_mono n m d h k = (le-div_iff_mul-le h).1 (le_trans (div-mul-le_self n d) k)

-- The rounded value, by the quotient and the remainder.
abbrev rounded : ℕ → ℕ → ℕ → ℕ
rounded q r d = if ltb (2 * r) d then q else if ltb d (2 * r) then q + 1 else q + q % 2

rounded_mono :
    (q q' r r' d : ℕ) → (q + 1 ≤ q') ⊎ ((q ≡ q') × (r ≤ r')) → rounded q r d ≤ rounded q' r' d
rounded_mono q q' r r' d (inl less) = ground arith
rounded_mono q q' r r' d (inr (same, less)) = rw same (ground arith)

quotient-cases :
    (n m d : ℕ) → 0 < d → n ≤ m → (n / d + 1 ≤ m / d) ⊎ ((n / d ≡ m / d) × (n % d ≤ m % d))
quotient-cases n m d h k = elim (Bool-cases (ltb (n / d) (m / d))) [
  | inl less ↦ inl (omega (arith, ltb→lt (n / d) (m / d) less))
  | inr more ↦
      let same : n / d ≡ m / d = omega (arith, div_mono n m d h k, ltb→ge (n / d) (m / d) more) in
      let split : n / d * d + n % d ≡ n = div-add-mod' n d in
      let split' : n / d * d + m % d ≡ m = rw same (div-add-mod' m d) in
      inr (same, omega (arith, split, split', k))
]

pub round_half_even_mono : (n m d : ℕ) → 0 < d → n ≤ m → round_half_even n d ≤ round_half_even m d
unfolding round_half_even
round_half_even_mono n m d h k =
    rounded_mono (n / d) (m / d) (n % d) (m % d) d (quotient-cases n m d h k)

-- A whole quotient is not changed.
pub round_half_even_whole : (k d : ℕ) → 0 < d → round_half_even (k * d) d ≡ k
unfolding round_half_even
round_half_even_whole k d h =
    let whole : k * d / d ≡ k = mul-div_left k h in
    let split : k * d / d * d + k * d % d ≡ k * d = div-add-mod' (k * d) d in
    let split' : k * d + k * d % d ≡ k * d = ap (λ q. q * d + k * d % d) (sym whole) ∙ split in
    let none_left : k * d % d ≡ 0 = omega (arith, split') in rw (whole, none_left) (ground arith)
