-- ===== src/Prelude/Decimal.antt =====
-- A number's decimal digits, as `%d` and `%06d` print them.
use Prim.Native.Char.{Char, char, code}
use Prim.Native.Nat.{ℕ, zero, suc, ◌+◌, ◌-◌, ◌*◌, ◌/◌, ◌%◌, ◌<◌, ◌≤◌}
use Prim.Native.String.{String}
use mathlib.Core.Path.{◌≡◌, refl, sym, ap, ◌∙◌}
use mathlib.Core.Logic.{inl, inr}
use native.Mathlib.Omega.{arith}
use kanban_store.Prelude.Tests.{ltb, if◌then◌else◌, Bool-cases}
use kanban_store.Prelude.Text.{text_length}

digit : ℕ → Char
digit zero = char 48 tt
digit (suc zero) = char 49 tt
digit (suc (suc zero)) = char 50 tt
digit (suc (suc (suc zero))) = char 51 tt
digit (suc (suc (suc (suc zero)))) = char 52 tt
digit (suc (suc (suc (suc (suc zero))))) = char 53 tt
digit (suc (suc (suc (suc (suc (suc zero)))))) = char 54 tt
digit (suc (suc (suc (suc (suc (suc (suc zero))))))) = char 55 tt
digit (suc (suc (suc (suc (suc (suc (suc (suc zero)))))))) = char 56 tt
digit (suc (suc (suc (suc (suc (suc (suc (suc (suc _))))))))) = char 57 tt

digits_onto : ℕ → ℕ → String → String
unfolding digit
digits_onto zero n text = text
digits_onto (suc fuel) n text =
    let more = digits_onto fuel (n / 10) (String.◌∷◌ (digit (n % 10)) text) in
    if ltb n 10 then String.◌∷◌ (digit n) text else more

-- A number has at most as many digits as it counts, and one more for 0.
unfoldable pub digits : ℕ → String
unfolding digits_onto
digits n = digits_onto (suc n) n ""

zeros_onto : ℕ → String → String
zeros_onto zero text = text
zeros_onto (suc n) text = String.◌∷◌ (char 48 tt) (zeros_onto n text)

unfoldable pub six_digits : ℕ → String
unfolding zeros_onto
six_digits n = let text = digits n in zeros_onto (6 - text_length text) text

-- The number that digits after `n` give.
value_onto : ℕ → String → ℕ
value_onto n String.[] = n
value_onto n (String.◌∷◌ c text) = value_onto (10 * n + (code c - 48)) text

digit-value : (d : ℕ) → d < 10 → code (digit d) ≡ 48 + d
unfolding digit
digit-value zero h = refl
digit-value (suc zero) h = refl
digit-value (suc (suc zero)) h = refl
digit-value (suc (suc (suc zero))) h = refl
digit-value (suc (suc (suc (suc zero)))) h = refl
digit-value (suc (suc (suc (suc (suc zero))))) h = refl
digit-value (suc (suc (suc (suc (suc (suc zero)))))) h = refl
digit-value (suc (suc (suc (suc (suc (suc (suc zero))))))) h = refl
digit-value (suc (suc (suc (suc (suc (suc (suc (suc zero)))))))) h = refl
digit-value (suc (suc (suc (suc (suc (suc (suc (suc (suc zero))))))))) h = refl
digit-value (suc (suc (suc (suc (suc (suc (suc (suc (suc (suc d)))))))))) h = absurd (omega arith)

digits_onto-value :
    (fuel n : ℕ) (text : String)
    → n < fuel
    → value_onto 0 (digits_onto fuel n text) ≡ value_onto n text
unfolding digits_onto value_onto
digits_onto-value zero n text h = absurd (omega arith)
digits_onto-value (suc fuel) n text h = elim (Bool-cases (ltb n 10)) [
  | inl e ↦
      let small : n < 10 = ground arith in
      rw e (ap (λ k. value_onto k text) (omega (arith, digit-value n small)))
  | inr e ↦
      let big : 10 ≤ n = ground arith in
      rw e (
        digits_onto-value fuel (n / 10) (String.◌∷◌ (digit (n % 10)) text) (omega arith)
        ∙ ap (λ k. value_onto k text) (omega (arith, digit-value (n % 10) (omega arith))))
]

zeros_onto-value : (n : ℕ) (text : String) → value_onto 0 (zeros_onto n text) ≡ value_onto 0 text
unfolding zeros_onto value_onto
zeros_onto-value zero text = refl
zeros_onto-value (suc n) text = zeros_onto-value n text

six_digits-value : (n : ℕ) → value_onto 0 (six_digits n) ≡ n
unfolding six_digits digits value_onto
six_digits-value n =
    zeros_onto-value (6 - text_length (digits n)) (digits n)
    ∙ digits_onto-value (suc n) n "" (omega arith)

pub six_digits-injective : (m n : ℕ) → six_digits m ≡ six_digits n → m ≡ n
six_digits-injective m n h = sym (six_digits-value m) ∙ ap (value_onto 0) h ∙ six_digits-value n
