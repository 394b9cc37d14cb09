-- ===== src/Base/Decimal.antt =====
-- `strconv.Itoa`, and `%d`.
use Prim.Native.Nat.{ℕ, zero, suc, ◌+◌, ◌-◌, ◌*◌, ◌/◌, ◌%◌, ◌<◌}
use Prim.Native.Char.{Char, code}
use Prim.Native.String.{String, ◌++◌}
use mathlib.Core.Path.{◌≡◌, refl}
use mathlib.Core.Logic.{inl, inr}
use mathlib.Core.Bool.{true, false}
use native.Mathlib.Omega.{arith}
use hydra_operator.Base.Tests.{eqb, if◌then◌else◌, Bool-cases}
use hydra_operator.Base.Int.{ℤ, pos, negsuc}

digit_from : String → ℕ → Char → Char
digit_from String.[] d other = other
digit_from (String.◌∷◌ c s) zero other = c
digit_from (String.◌∷◌ c s) (suc d) other = digit_from s d other

-- The digits of n in front of `out`, on fuel: n + 1 rounds are enough.
emit : ℕ → ℕ → String → String
unfolding digit_from
emit zero n out = out
emit (suc fuel) n out = elim (eqb n 0) [
  | true ↦ out
  | false ↦ emit fuel (n / 10) (String.◌∷◌ (digit_from "0123456789" (n % 10) "0") out)
]

unfoldable pub format_nat : ℕ → String
unfolding emit
format_nat n = if eqb n 0 then "0" else emit (suc n) n ""

unfoldable pub itoa : ℤ → String
unfolding format_nat
itoa (pos n) = format_nat n
itoa (negsuc n) = "-" ++ format_nat (suc n)

itoa_example : (itoa (pos 2048) ≡ "2048") × (itoa (negsuc 9) ≡ "-10") × (itoa (pos 0) ≡ "0")
unfolding itoa
itoa_example = (refl, refl, refl)

-- The number that a run of digits stands for, behind the digits already read.
value : String → ℕ → ℕ
value String.[] n = n
value (String.◌∷◌ c s) n = value s (n * 10 + (code c - b'0'))

value_zero : value "0" 0 ≡ 0
unfolding value
value_zero = refl

value_nil : (n : ℕ) → value "" n ≡ n
unfolding value
value_nil n = refl

digit-value : (d : ℕ) → d < 10 → code (digit_from "0123456789" d "0") - b'0' ≡ d
unfolding digit_from
digit-value zero h = refl
digit-value (suc zero) h = refl
digit-value (suc (suc zero)) h = refl
digit-value (suc (suc (suc zero))) h = refl
digit-value (suc (suc (suc (suc zero)))) h = refl
digit-value (suc (suc (suc (suc (suc zero))))) h = refl
digit-value (suc (suc (suc (suc (suc (suc zero)))))) h = refl
digit-value (suc (suc (suc (suc (suc (suc (suc zero))))))) h = refl
digit-value (suc (suc (suc (suc (suc (suc (suc (suc zero)))))))) h = refl
digit-value (suc (suc (suc (suc (suc (suc (suc (suc (suc zero))))))))) h = refl
digit-value (suc (suc (suc (suc (suc (suc (suc (suc (suc (suc n)))))))))) h = absurd (omega arith)

emit-value : (fuel n : ℕ) (out : String) → n < fuel → value (emit fuel n out) 0 ≡ value out n
unfolding emit value
emit-value zero n out h = elim h [ ]
emit-value (suc fuel) n out h = elim (Bool-cases (eqb n 0)) [
  | inl done ↦ ground arith
  | inr more ↦ ground (
    arith,
    digit-value (n % 10),
    emit-value fuel (n / 10) (String.◌∷◌ (digit_from "0123456789" (n % 10) "0") out),
  )
]

format_nat-value : (n : ℕ) → value (format_nat n) 0 ≡ n
unfolding format_nat
format_nat-value n = elim (Bool-cases (eqb n 0)) [
  | inl done ↦ ground (arith, value_zero)
  | inr more ↦ ground (arith, emit-value (suc n) n "", value_nil n)
]

-- Different numbers are written differently.
pub itoa_injective : (a b : ℕ) → itoa (pos a) ≡ itoa (pos b) → a ≡ b
unfolding itoa
itoa_injective a b h = cc (format_nat-value a, format_nat-value b)
