-- ===== src/Python/Decimal.antt =====
-- `str(n)` for an int, and the texts that `str.strip` and `int` walk.
use Prim.Native.Char.{Char, code}
use robot_core.Prelude.{
  ℕ, zero, suc, ◌+◌, ◌-◌, ◌*◌, ◌/◌, ◌%◌, ◌≤◌, ◌<◌, ◌≡◌, refl, sym, ap, ◌∙◌, String, true, false,
  List, [], ◌∷◌, arith, ◌==◌, codes,
}
use native.Mathlib.Decide.{dec_lt}
use robot_core.Prelude.Int.{ℤ, pos, negsuc}

abbrev digit_char : ℕ → Char
digit_char zero = "0"
digit_char (suc zero) = "1"
digit_char (suc (suc zero)) = "2"
digit_char (suc (suc (suc zero))) = "3"
digit_char (suc (suc (suc (suc zero)))) = "4"
digit_char (suc (suc (suc (suc (suc zero))))) = "5"
digit_char (suc (suc (suc (suc (suc (suc zero)))))) = "6"
digit_char (suc (suc (suc (suc (suc (suc (suc zero))))))) = "7"
digit_char (suc (suc (suc (suc (suc (suc (suc (suc zero)))))))) = "8"
digit_char (suc (suc (suc (suc (suc (suc (suc (suc (suc n))))))))) = "9"

code-digit_char : (d : ℕ) → d < 10 → code (digit_char d) ≡ 48 + d
code-digit_char zero h = refl
code-digit_char (suc zero) h = refl
code-digit_char (suc (suc zero)) h = refl
code-digit_char (suc (suc (suc zero))) h = refl
code-digit_char (suc (suc (suc (suc zero)))) h = refl
code-digit_char (suc (suc (suc (suc (suc zero))))) h = refl
code-digit_char (suc (suc (suc (suc (suc (suc zero)))))) h = refl
code-digit_char (suc (suc (suc (suc (suc (suc (suc zero))))))) h = refl
code-digit_char (suc (suc (suc (suc (suc (suc (suc (suc zero)))))))) h = refl
code-digit_char (suc (suc (suc (suc (suc (suc (suc (suc (suc n))))))))) h = omega arith

-- The digits of `n`, last one first, put in front of `rest`; fuel above `n` is enough.
digits_onto : ℕ → ℕ → String → String
digits_onto zero n rest = rest
digits_onto (suc fuel) n rest =
    let rest' : String = String.◌∷◌ (digit_char (n % 10)) rest in
    elim (n / 10 == 0) [ true ↦ rest' | false ↦ digits_onto fuel (n / 10) rest' ]

unfoldable pub show : ℕ → String
unfolding digits_onto
show n = digits_onto (suc n) n ""

-- `str(n)`
unfoldable pub show_ℤ : ℤ → String
unfolding show
show_ℤ (pos n) = show n
show_ℤ (negsuc n) = String.◌∷◌ "-" (show (suc n))

-- The number that decimal digits denote, read onto `acc`.
unfoldable pub read_digits : ℕ → List ℕ → ℕ
read_digits acc [] = acc
read_digits acc (c ∷ cs) = read_digits (acc * 10 + (c - 48)) cs

next_digit : (n : ℕ) → n / 10 * 10 + (code (digit_char (n % 10)) - 48) ≡ n
next_digit n = omega (arith, code-digit_char (n % 10) (omega arith))

last_digit : (n : ℕ) → n < 10 → 0 * 10 + (code (digit_char (n % 10)) - 48) ≡ n
last_digit n h = omega (arith, code-digit_char (n % 10) (omega arith))

digits_onto_last :
    (fuel n : ℕ) (rest : String)
    → n < 10
    → digits_onto (suc fuel) n rest ≡ String.◌∷◌ (digit_char (n % 10)) rest
unfolding digits_onto
digits_onto_last fuel n rest h = ground arith

digits_onto_more :
    (fuel n : ℕ) (rest : String)
    → 10 ≤ n
    → digits_onto (suc fuel) n rest
      ≡ digits_onto fuel (n / 10) (String.◌∷◌ (digit_char (n % 10)) rest)
unfolding digits_onto
digits_onto_more fuel n rest h = ground arith

-- A digit in front is read first.
read_digits_onto :
    (fuel n : ℕ) (rest : String)
    → n < fuel
    → read_digits 0 (codes (digits_onto fuel n rest)) ≡ read_digits n (codes rest)
unfolding read_digits
read_digits_onto zero n rest h = absurd (omega arith)
read_digits_onto (suc fuel) n rest h = elim (dec_lt n 10) [
  | yes small ↦
      rw (digits_onto_last fuel n rest small)
        (ap (λ (a : ℕ). read_digits a (codes rest)) (last_digit n small))
  | no large ↦ rw (digits_onto_more fuel n rest (omega arith)) (
      read_digits_onto fuel (n / 10) (String.◌∷◌ (digit_char (n % 10)) rest) (omega arith)
      ∙ ap (λ (a : ℕ). read_digits a (codes rest)) (next_digit n))
]

-- Reading back what `str(n)` writes gives `n`.
pub read_digits-show : (n : ℕ) → read_digits 0 (codes (show n)) ≡ n
unfolding show read_digits
read_digits-show n = read_digits_onto (suc n) n "" (omega arith)

-- Two numbers with one text are one number.
pub show-injective : (m n : ℕ) → show m ≡ show n → m ≡ n
show-injective m n e =
    sym (read_digits-show m) ∙ ap (λ (s : String). read_digits 0 (codes s)) e ∙ read_digits-show n
