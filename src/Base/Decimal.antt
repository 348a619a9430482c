-- ===== src/Base/Decimal.antt =====
-- fmt's verb %06d on Go's int64: decimal digits, padded with zeros to a width.
-- An int64 is its bit pattern, a number below 2^64; it is negative from 2^63 on.
use Prim.Native.Nat.{ℕ, zero, suc, ◌+◌, ◌-◌, ◌*◌, ◌/◌, ◌%◌, ◌^◌, ◌<◌}
use Prim.Native.Char.{Char, code}
use Prim.Native.String.{String, ◌++◌, char_at}
use mathlib.Core.Path.{◌≡◌, refl, sym, ap, ◌∙◌}
use mathlib.Core.Logic.{inl, inr}
use native.Mathlib.Omega.{arith}
use browser_use.Base.Bools.{ltb, if◌then◌else◌, Bool-cases}

abbrev pub digit : ℕ → Char
digit zero = char_at "0" 0
digit (suc zero) = char_at "1" 0
digit (suc (suc zero)) = char_at "2" 0
digit (suc (suc (suc zero))) = char_at "3" 0
digit (suc (suc (suc (suc zero)))) = char_at "4" 0
digit (suc (suc (suc (suc (suc zero))))) = char_at "5" 0
digit (suc (suc (suc (suc (suc (suc zero)))))) = char_at "6" 0
digit (suc (suc (suc (suc (suc (suc (suc zero))))))) = char_at "7" 0
digit (suc (suc (suc (suc (suc (suc (suc (suc zero)))))))) = char_at "8" 0
digit (suc (suc (suc (suc (suc (suc (suc (suc (suc _))))))))) = char_at "9" 0

-- The digits of `n` before `s`, on fuel: more than `n` is enough.
decimal_loop : ℕ → ℕ → String → String
decimal_loop zero n s = s
decimal_loop (suc f) n s =
    let rest = decimal_loop f (n / 10) (String.◌∷◌ (digit (n % 10)) s) in
    if ltb n 10 then String.◌∷◌ (digit n) s else rest

unfoldable pub decimal : ℕ → String
unfolding decimal_loop
decimal n = decimal_loop (suc n) n String.[]

abbrev size : String → ℕ
size String.[] = 0
size (String.◌∷◌ c s) = suc (size s)

zeros : ℕ → String → String
zeros zero s = s
zeros (suc n) s = String.◌∷◌ (digit 0) (zeros n s)

-- At least `w` characters, zeros first.
unfoldable pub padded : ℕ → ℕ → String
unfolding zeros decimal
padded w n = zeros (w - size (decimal n)) (decimal n)

unfoldable pub format_06d : ℕ → String
unfolding padded
format_06d bits = if ltb bits (2 ^ 63) then padded 6 bits else "-" ++ padded 5 (2 ^ 64 - bits)

-- The value of a text of digits, after the digits read so far.
abbrev read_from : ℕ → String → ℕ
read_from a String.[] = a
read_from a (String.◌∷◌ c s) = read_from (a * 10 + (code c - 48)) s

code-digit : (d : ℕ) → d < 10 → code (digit d) ≡ 48 + d
code-digit zero h = refl
code-digit (suc zero) h = refl
code-digit (suc (suc zero)) h = refl
code-digit (suc (suc (suc zero))) h = refl
code-digit (suc (suc (suc (suc zero)))) h = refl
code-digit (suc (suc (suc (suc (suc zero))))) h = refl
code-digit (suc (suc (suc (suc (suc (suc zero)))))) h = refl
code-digit (suc (suc (suc (suc (suc (suc (suc zero))))))) h = refl
code-digit (suc (suc (suc (suc (suc (suc (suc (suc zero)))))))) h = refl
code-digit (suc (suc (suc (suc (suc (suc (suc (suc (suc zero))))))))) h = refl
code-digit (suc (suc (suc (suc (suc (suc (suc (suc (suc (suc d)))))))))) h = absurd (omega arith)

read-decimal_loop :
    (f n : ℕ) (s : String) → n < f → read_from 0 (decimal_loop f n s) ≡ read_from n s
unfolding decimal_loop
read-decimal_loop zero n s h = absurd (omega arith)
read-decimal_loop (suc f) n s h = elim (Bool-cases (ltb n 10)) [
  | inl t ↦ rw t (ap (λ (a : ℕ). read_from a s) (omega (arith, code-digit n (ground arith))))
  | inr t ↦ rw t (
      read-decimal_loop f (n / 10) (String.◌∷◌ (digit (n % 10)) s) (ground arith)
      ∙ ap (λ (a : ℕ). read_from a s) (omega (arith, code-digit (n % 10) (omega arith))))
]

read-zeros : (k : ℕ) (s : String) → read_from 0 (zeros k s) ≡ read_from 0 s
unfolding zeros
read-zeros zero s = refl
read-zeros (suc k) s = read-zeros k s

read-padded : (w n : ℕ) → read_from 0 (padded w n) ≡ n
unfolding padded decimal
read-padded w n =
    read-zeros (w - size (decimal n)) (decimal n)
    ∙ read-decimal_loop (suc n) n String.[] (omega arith)

-- Two counters that are not negative print alike only if they are one.
pub format_06d_inj : (a b : ℕ) → a < 2 ^ 63 → b < 2 ^ 63 → format_06d a ≡ format_06d b → a ≡ b
unfolding format_06d
format_06d_inj a b h k e =
    sym (read-padded 6 a) ∙ ap (read_from 0) (shown a h ∙ e ∙ sym (shown b k)) ∙ read-padded 6 b
  where
    shown : (n : ℕ) → n < 2 ^ 63 → padded 6 n ≡ format_06d n
    shown n l = ground arith

format_test : format_06d 42 ≡ "000042"
unfolding format_06d
format_test = refl
