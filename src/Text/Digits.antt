-- ===== src/Text/Digits.antt =====
-- Decimal numbers are read back.
use mirror_maestro.Common.{
  ℕ, zero, suc, ◌+◌, ◌*◌, ◌-◌, ◌/◌, ◌%◌, ◌<◌, ◌≡◌, refl, ◌∙◌, inl, inr, ap, Bool, true, ◌&&◌,
  Bool-cases, [], ◌∷◌, ◌++◌, arith, ltb, leb, if◌then◌else◌,
}
use mirror_maestro.Text.Equality.{Text}
use mirror_maestro.Text.Number.{digits_of, decimal}

abbrev pub is_digit : ℕ → Bool
is_digit c = leb 48 c && leb c 57

-- Reads digits onto `n`, and gives what follows them.
unfoldable pub read : ℕ → Text → ℕ × Text
read n [] = (n, [])
read n (c ∷ s) = let more = read (n * 10 + (c - 48)) s in if is_digit c then more else (n, c ∷ s)

read-digit : (n d : ℕ) (s : Text) → d < 10 → read n ((48 + d) ∷ s) ≡ read (n * 10 + d) s
unfolding read
read-digit n d s h =
    let e : 48 + d - 48 ≡ d = omega arith in
    let l : leb 48 (48 + d) ≡ true = ground arith in
    let u : leb (48 + d) 57 ≡ true = ground arith in rw e (ground arith)

read-digits_of : (fuel n : ℕ) (s : Text) → n < fuel → read 0 (digits_of fuel n s) ≡ read n s
unfolding digits_of
read-digits_of zero n s h = absurd (omega arith)
read-digits_of (suc fuel) n s h = elim (Bool-cases (ltb n 10)) [
  | inl small ↦
      rw (small, digits_of) (read-digit 0 n s (ground arith) ∙ ap (λ m. read m s) (omega arith))
  | inr large ↦
      rw (large, digits_of)
        (read-digits_of fuel (n / 10) ((48 + n % 10) ∷ s) (ground arith)
          ∙ (read-digit (n / 10) (n % 10) s (omega arith) ∙ ap (λ m. read m s) (omega arith)))
]

digits_of-append : (fuel n : ℕ) (r s : Text) → digits_of fuel n r ++ s ≡ digits_of fuel n (r ++ s)
unfolding digits_of
digits_of-append zero n r s = refl
digits_of-append (suc fuel) n r s =
    ground (arith, digits_of-append fuel (n / 10) ((48 + n % 10) ∷ r) s)

-- The number that `str` printed is read back, and what follows it goes on being read.
pub read-decimal : (n : ℕ) (s : Text) → read 0 (decimal n ++ s) ≡ read n s
unfolding decimal
read-decimal n s = rw (digits_of-append (n + 1) n [] s) (read-digits_of (n + 1) n s (omega arith))
