-- ===== src/Text/Decimal.antt =====
-- `str(n)` of a natural number, and the `f"{name}.{n}"` of product_workflow/schema_builder.py.
use text.Mathlib.TextLemmas.{append_cancel_left}
use Prim.Native.String
use Prim.Native.Char.{Char, code}
use excel_youhua.Prelude.{
  inr, ◌∙◌, ltb→lt, sym, ap, inl, Bool-cases, refl, ltb, arith, if◌then◌else◌, ◌≡◌, ◌-◌, ◌+◌, ◌%◌,
  ◌<◌, ◌*◌, ◌/◌, ℕ, zero, suc, String,
}

abbrev pub digit : ℕ → Char
digit zero = "0"
digit (suc zero) = "1"
digit (suc (suc zero)) = "2"
digit (suc (suc (suc zero))) = "3"
digit (suc (suc (suc (suc zero)))) = "4"
digit (suc (suc (suc (suc (suc zero))))) = "5"
digit (suc (suc (suc (suc (suc (suc zero)))))) = "6"
digit (suc (suc (suc (suc (suc (suc (suc zero))))))) = "7"
digit (suc (suc (suc (suc (suc (suc (suc (suc zero)))))))) = "8"
digit (suc (suc (suc (suc (suc (suc (suc (suc (suc n))))))))) = "9"

-- the digits of `n` in front of a text; a number has fewer digits than its fuel
unfoldable pub prepend : ℕ → ℕ → String → String
prepend zero n s = s
prepend (suc fuel) n s =
    let rest = prepend fuel (n / 10) (String.◌∷◌ (digit (n % 10)) s) in
    if ltb n 10 then String.◌∷◌ (digit n) s else rest

unfoldable pub decimal : ℕ → String
unfolding prepend
decimal n = prepend (suc n) n ""

unfoldable pub numbered : String → ℕ → String
unfolding decimal
numbered name n = String.◌++◌ name (String.◌∷◌ "." (decimal n))

-- the number that digits stand for, after those that have been read
value : ℕ → String → ℕ
value n String.[] = n
value n (String.◌∷◌ c s) = value (n * 10 + (code c - 48)) s

code-digit : (d : ℕ) → d < 10 → code (digit d) - 48 ≡ d
code-digit zero h = refl
code-digit (suc zero) h = refl
code-digit (suc (suc zero)) h = refl
code-digit (suc (suc (suc zero))) h = refl
code-digit (suc (suc (suc (suc zero)))) h = refl
code-digit (suc (suc (suc (suc (suc zero))))) h = refl
code-digit (suc (suc (suc (suc (suc (suc zero)))))) h = refl
code-digit (suc (suc (suc (suc (suc (suc (suc zero))))))) h = refl
code-digit (suc (suc (suc (suc (suc (suc (suc (suc zero)))))))) h = refl
code-digit (suc (suc (suc (suc (suc (suc (suc (suc (suc n))))))))) h = omega arith

value-prepend : (fuel n : ℕ) (s : String) → n < fuel → value 0 (prepend fuel n s) ≡ value n s
unfolding value prepend
value-prepend zero n s h = absurd (omega arith)
value-prepend (suc fuel) n s h = elim (Bool-cases (ltb n 10)) [
  | inl last ↦ rw last (ap (λ (k : ℕ). value k s) (omega (arith, code-digit n (ltb→lt n 10 last))))
  | inr more ↦ rw more (
      value-prepend fuel (n / 10) (String.◌∷◌ (digit (n % 10)) s) (ground arith)
      ∙ ap (λ (k : ℕ). value k s) (omega (arith, code-digit (n % 10) (omega arith))))
]

-- No two numbers are written alike.
pub decimal-injective : (m n : ℕ) → decimal m ≡ decimal n → m ≡ n
unfolding decimal value
decimal-injective m n h =
    read_back m (omega arith) ∙ ap (value 0) h ∙ sym (read_back n (omega arith))
  where
    read_back : (k : ℕ) → k < suc k → k ≡ value 0 (prepend (suc k) k "")
    read_back k lt = sym (value-prepend (suc k) k "" lt)

pub numbered-injective : (name : String) (m n : ℕ) → numbered name m ≡ numbered name n → m ≡ n
unfolding numbered
numbered-injective name m n h =
    decimal-injective m n
      (cc (append_cancel_left name (String.◌∷◌ "." (decimal m)) (String.◌∷◌ "." (decimal n)) h))
