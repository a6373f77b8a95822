-- ===== src/Base/Decimal.antt =====
-- Decimal numerals: what `%d` of a number that is not negative prints.
use netfilter.Base.Tests.{ltb, if◌then◌else◌, Bool-cases}
use netfilter.Base.Lists.{Bytes, length, length-append}
use Prim.Native.Nat.{ℕ, zero, suc, ◌+◌, ◌/◌, ◌%◌, ◌≤◌, ◌<◌}
use mathlib.Core.Path.{◌≡◌, ap, ◌∙◌}
use mathlib.Core.List.{[], ◌∷◌, ◌++◌}
use mathlib.Core.Logic.{inl, inr}
use native.Mathlib.Omega.{arith}

-- One round for each digit; `suc n` rounds are enough for `n`.
unfoldable pub digits : ℕ → ℕ → Bytes
digits zero n = []
digits (suc fuel) n =
    let higher = digits fuel (n / 10) in
    if ltb n 10 then (n + b'0') ∷ [] else higher ++ (n % 10 + b'0') ∷ []

unfoldable pub decimal : ℕ → Bytes
unfolding digits
decimal n = digits (suc n) n

-- The first rounds do not depend on the fuel.
pub decimal_one : (n : ℕ) → n < 10 → decimal n ≡ (n + b'0') ∷ []
unfolding decimal
decimal_one n h = ground arith

digits_enough : (f g n : ℕ) → n < f → n < g → digits f n ≡ digits g n
unfolding digits
digits_enough zero g n h k = elim h [ ]
digits_enough (suc f) zero n h k = elim k [ ]
digits_enough (suc f) (suc g) n h k = ground (arith, digits_enough f g (n / 10))

pub decimal_step : (n : ℕ) → 10 ≤ n → decimal n ≡ decimal (n / 10) ++ (n % 10 + b'0') ∷ []
unfolding decimal
decimal_step n h = ground (arith, digits_enough n (suc (n / 10)) (n / 10))

pub decimal_two : (n : ℕ) → 10 ≤ n → n < 100 → decimal n ≡ (n / 10 + b'0') ∷ (n % 10 + b'0') ∷ []
decimal_two n h k = ground (arith, decimal_step n h, decimal_one (n / 10))

pub decimal_three :
    (n : ℕ)
    → 100 ≤ n
    → n < 1000
    → decimal n ≡ (n / 100 + b'0') ∷ (n % 100 / 10 + b'0') ∷ (n % 100 % 10 + b'0') ∷ []
decimal_three n h k = ground (arith, decimal_step n (omega arith), decimal_two (n / 10))

-- Sizes: `k` digits below ten to the `k`.
length_one : (n : ℕ) → n < 10 → length (decimal n) ≤ 1
length_one n h = ground (arith, decimal_one n h)

length_more :
    (n bound : ℕ)
    → (n < 10 → 1 ≤ suc bound)
    → (10 ≤ n → length (decimal (n / 10)) ≤ bound)
    → length (decimal n) ≤ suc bound
length_more n bound small big = elim (Bool-cases (ltb n 10)) [
  | inl less ↦ ground (arith, decimal_one n)
  | inr more ↦
      let ten : 10 ≤ n = ground arith in
      let steps : length (decimal n) ≡ length (decimal (n / 10)) + 1 =
        ap length (decimal_step n ten) ∙ length-append (decimal (n / 10)) ((n % 10 + b'0') ∷ []) in
      omega (arith, big ten)
]

pub length-decimal_port : (n : ℕ) → n < 65536 → length (decimal n) ≤ 5
length-decimal_port n h =
    length_more n 4 (λ _. omega arith)
      λ _.
        length_more (n / 10) 3 (λ _. omega arith)
          λ _.
            length_more (n / 10 / 10) 2 (λ _. omega arith)
              λ _.
                length_more (n / 10 / 10 / 10) 1 (λ _. omega arith)
                  λ _. length_one (n / 10 / 10 / 10 / 10) (omega arith)
