-- ===== src/Decimal.antt =====
-- JavaScript's `Number.toString`, `BigInt.toString` and template literals on natural numbers, and
-- `Number(text)` and `BigInt(text)` on a text of decimal digits.
use Prim.Native.Char.{Char, code}
use Prim.Native.String.{[], ◌∷◌}
use account_service.Common.{
  ℕ, zero, suc, ◌+◌, ◌-◌, ◌*◌, ◌/◌, ◌%◌, ◌<◌, ◌≡◌, refl, ap, sym, ◌∙◌, String, Option, none, some,
  inl, inr, ◌&&◌, arith, ltb, leb, if◌then◌else◌, Bool-cases,
}
use mathlib.Core.Option.{some-injective}

abbrev digit : ℕ → Char
digit zero = "0"
digit (suc zero) = "1"
digit (suc (suc zero)) = "2"
digit (suc (suc (suc zero))) = "3"
digit (suc (suc (suc (suc zero)))) = "4"
digit (suc (suc (suc (suc (suc zero))))) = "5"
digit (suc (suc (suc (suc (suc (suc zero)))))) = "6"
digit (suc (suc (suc (suc (suc (suc (suc zero))))))) = "7"
digit (suc (suc (suc (suc (suc (suc (suc (suc zero)))))))) = "8"
digit _ = "9"

-- The digits of `n` in front of `rest`; a number has fewer digits than the fuel `suc n`.
print : ℕ → ℕ → String → String
print zero n rest = rest
print (suc fuel) n rest =
    let more = print fuel (n / 10) (digit (n % 10) ∷ rest) in
    if ltb n 10 then digit n ∷ rest else more

unfoldable pub to_string : ℕ → String
unfolding print
to_string n = print (suc n) n []

-- The value of a text of digits after those read so far; any other character is refused.
unfoldable pub read : ℕ → String → Option ℕ
read acc [] = some acc
read acc (c ∷ s) =
    let d = code c in
    let rest = read (acc * 10 + (d - 48)) s in if leb 48 d && leb d 57 then rest else none

read-digit : (acc d : ℕ) (s : String) → d < 10 → read acc (digit d ∷ s) ≡ read (acc * 10 + d) s
unfolding read
read-digit acc zero s h = refl
read-digit acc (suc zero) s h = refl
read-digit acc (suc (suc zero)) s h = refl
read-digit acc (suc (suc (suc zero))) s h = refl
read-digit acc (suc (suc (suc (suc zero)))) s h = refl
read-digit acc (suc (suc (suc (suc (suc zero))))) s h = refl
read-digit acc (suc (suc (suc (suc (suc (suc zero)))))) s h = refl
read-digit acc (suc (suc (suc (suc (suc (suc (suc zero))))))) s h = refl
read-digit acc (suc (suc (suc (suc (suc (suc (suc (suc zero)))))))) s h = refl
read-digit acc (suc (suc (suc (suc (suc (suc (suc (suc (suc zero))))))))) s h = refl
read-digit acc (suc (suc (suc (suc (suc (suc (suc (suc (suc (suc n)))))))))) s h =
    absurd (omega arith)

read-print : (fuel n : ℕ) (rest : String) → n < fuel → read 0 (print fuel n rest) ≡ read n rest
unfolding print
read-print zero n rest h = absurd (omega arith)
read-print (suc fuel) n rest h = elim (Bool-cases (ltb n 10)) [
  | inl small ↦
      rw small (read-digit 0 n rest (ground arith) ∙ ap (λ (k : ℕ). read k rest) (omega arith))
  | inr large ↦ rw large (
      read-print fuel (n / 10) (digit (n % 10) ∷ rest) (ground arith)
      ∙ read-digit (n / 10) (n % 10) rest (omega arith)
      ∙ ap (λ (k : ℕ). read k rest) (omega arith))
]

-- A printed number is read back.
pub read-to_string : (n : ℕ) → read 0 (to_string n) ≡ some n
unfolding to_string read
read-to_string n = read-print (suc n) n [] (omega arith)

-- Different numbers have different texts.
pub to_string-injective : (m n : ℕ) → to_string m ≡ to_string n → m ≡ n
to_string-injective m n e =
    some-injective m n (sym (read-to_string m) ∙ ap (read 0) e ∙ read-to_string n)
