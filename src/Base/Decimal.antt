-- ===== src/Base/Decimal.antt =====
-- The decimal text of a number, as `format!` writes it.
use Prim.Native.Nat.{ℕ, zero, suc, ◌+◌, ◌/◌, ◌%◌}
use Prim.Native.Nat.{◌*◌, ◌-◌, ◌<◌, ◌≤◌}
use mathlib.Core.Path.{◌≡◌, refl, sym, ◌∙◌, ap}
use mathlib.Core.Logic.{inl, inr}
use native.Mathlib.Omega.{arith}
use mathlib.Core.List.{[], ◌∷◌, ◌++◌}
use omni_sem.Base.Tests.{Bool-cases, ltb, if◌then◌else◌}
use omni_sem.Base.Strings.{Text}
use omni_sem.Base.Lists.{All, All-append}

-- The first argument bounds the number of digits.
digits : ℕ → ℕ → Text
digits zero n = []
digits (suc fuel) n =
    let high = digits fuel (n / 10) in
    if ltb n 10 then (48 + n) ∷ [] else high ++ (48 + n % 10) ∷ []

-- A number has no more digits than its successor counts.
unfoldable pub decimal : ℕ → Text
unfolding digits
decimal n = digits (suc n) n

-- The number that digits write, behind those read so far.
value_from : ℕ → Text → ℕ
value_from read [] = read
value_from read (c ∷ t) = value_from (read * 10 + (c - 48)) t

value_from-append :
    (read : ℕ) (s t : Text) → value_from read (s ++ t) ≡ value_from (value_from read s) t
unfolding value_from
value_from-append read [] t = refl
value_from-append read (c ∷ s) t = value_from-append (read * 10 + (c - 48)) s t

value_from-digits : (fuel n : ℕ) → n < fuel → value_from 0 (digits fuel n) ≡ n
unfolding digits value_from
value_from-digits zero n h = absurd (omega arith)
value_from-digits (suc fuel) n h = elim (Bool-cases (ltb n 10)) [
  | inl small ↦ rw small (omega arith)
  | inr large ↦
      let big : 10 ≤ n = ground arith in
      let smaller : n / 10 < fuel = omega arith in
      let ih = value_from-digits fuel (n / 10) smaller in
      rw (large, value_from-append 0 (digits fuel (n / 10)) ((48 + n % 10) ∷ []), ih) (omega arith)
]

-- Different numbers have different texts.
pub decimal-injective : (m n : ℕ) → decimal m ≡ decimal n → m ≡ n
unfolding decimal
decimal-injective m n h =
    sym (value_from-digits (suc m) m (omega arith))
    ∙ ap (value_from 0) h
    ∙ value_from-digits (suc n) n (omega arith)

module _ {ℓ} (P : ℕ → Type ℓ) (digit : (c : ℕ) → (48 ≤ c) × (c ≤ 57) → P c) where
  digits-All : (fuel n : ℕ) → All P (digits fuel n)
  unfolding digits
  digits-All zero n = tt
  digits-All (suc fuel) n = elim (Bool-cases (ltb n 10)) [
    | inl small ↦ rw small (digit (48 + n) (ground arith), tt)
    | inr large ↦
        let last = digit (48 + n % 10) (omega arith, omega arith) in
        rw large (
          All-append P (digits fuel (n / 10)) ((48 + n % 10) ∷ []) (digits-All fuel (n / 10))
            (last, tt))
  ]

  -- Every character of a number's text is a digit.
  pub decimal-All : (n : ℕ) → All P (decimal n)
  unfolding decimal
  decimal-All n = digits-All (suc n) n
