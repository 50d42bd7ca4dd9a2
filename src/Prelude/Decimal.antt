-- ===== src/Prelude/Decimal.antt =====
-- `%d` of Go's fmt: an integer in decimal.
use semidx.Prelude.{
  ℕ, zero, suc, ◌+◌, ◌*◌, ◌-◌, ◌/◌, ◌%◌, ◌<◌, ◌≡◌, sym, ap, ◌∙◌, true, false, [], ◌∷◌, ltb, ◌==◌,
  All, arith, Bool-cases, inl, inr,
}
use semidx.Prelude.Bytes.{Bytes}
use semidx.Prelude.Int.{ℤ, pos, negsuc}

-- the digits of `n` before those already written; `n` bounds the number of rounds
write_digits : ℕ → ℕ → Bytes → Bytes
write_digits zero n out = out
write_digits (suc f) n out = elim (ltb n 10) [
  | true ↦ (b'0' + n) ∷ out
  | false ↦ write_digits f (n / 10) ((b'0' + n % 10) ∷ out)
]

unfoldable pub decimal : ℕ → Bytes
unfolding write_digits
decimal n = write_digits (suc n) n []

unfoldable pub format_int : ℤ → Bytes
unfolding decimal
format_int (pos n) = decimal n
format_int (negsuc n) = b'-' ∷ decimal (suc n)

-- no digit is NUL
write_digits_plain :
    (f n : ℕ) (out : Bytes)
    → All (λ c. (c == 0) ≡ false) out
    → All (λ c. (c == 0) ≡ false) (write_digits f n out)
unfolding write_digits
write_digits_plain zero n out plain = plain
write_digits_plain (suc f) n out plain = elim (Bool-cases (ltb n 10)) [
  | inl digit ↦ rw (digit, write_digits) (ground arith, plain)
  | inr more ↦
      rw (more, write_digits)
        (write_digits_plain f (n / 10) ((b'0' + n % 10) ∷ out) (ground arith, plain))
]

pub decimal_plain : (n : ℕ) → All (λ c. (c == 0) ≡ false) (decimal n)
unfolding decimal
decimal_plain n = write_digits_plain (suc n) n [] tt

-- the number of some digits, behind those of `acc`
value : ℕ → Bytes → ℕ
value acc [] = acc
value acc (d ∷ ds) = value (acc * 10 + (d - b'0')) ds

value-write_digits : (f n : ℕ) (out : Bytes) → n < f → value 0 (write_digits f n out) ≡ value n out
unfolding write_digits value
value-write_digits zero n out le = absurd (omega arith)
value-write_digits (suc f) n out le = elim (Bool-cases (ltb n 10)) [
  | inl digit ↦ rw (digit, write_digits) (ap (λ k. value k out) (omega arith))
  | inr more ↦
      let less : n / 10 < f = ground arith in
      rw (more, write_digits)
        (value-write_digits f (n / 10) ((b'0' + n % 10) ∷ out) less
          ∙ ap (λ k. value k out) (omega arith))
]

pub decimal-injective : (m n : ℕ) → decimal m ≡ decimal n → m ≡ n
unfolding decimal value
decimal-injective m n same =
    sym (value-write_digits (suc m) m [] (omega arith))
    ∙ ap (value 0) same
    ∙ value-write_digits (suc n) n [] (omega arith)
