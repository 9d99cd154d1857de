-- ===== src/Decimal/RoundTrip.antt =====
-- Reading with `%d` what `%d` and `%02d` wrote (see Decimal).
use gmrender_resurrect_silan.Base.{
  ℕ, zero, suc, ◌+◌, ◌*◌, ◌/◌, ◌%◌, ◌<◌, ◌≡◌, refl, ap, ◌∙◌, inl, inr, false, none, some, [], ◌∷◌,
  ◌++◌, append_assoc, Text, arith, Bool-cases, ltb,
}
use gmrender_resurrect_silan.Base.Int.{pos}
use gmrender_resurrect_silan.Decimal.{
  digits, show, print_int, print_int_02, is_digit, skip_space, read_digits, read_number,
  read_signed, scan_int,
}

-- A text that does not begin with a digit.
abbrev pub Stops : Text → Type 0
Stops [] = Unit
Stops (c ∷ s) = is_digit c ≡ false

read_digits-Stops : (n : ℕ) (s : Text) → Stops s → read_digits none n s ≡ (n, s)
unfolding read_digits
read_digits-Stops n [] h = refl
read_digits-Stops n (c ∷ s) h = rw h

read_digits-digit :
    (n d : ℕ) (s : Text)
    → d < 10
    → read_digits none n ((b'0' + d) ∷ s) ≡ read_digits none (n * 10 + d) s
unfolding read_digits
read_digits-digit n d s h = ground arith

-- Reading the digits of a number reads the number.
read_digits-digits :
    (fuel n : ℕ) (s : Text)
    → n < fuel
    → read_digits none 0 (digits fuel n ++ s) ≡ read_digits none n s
unfolding digits
read_digits-digits zero n s h = absurd (omega arith)
read_digits-digits (suc fuel) n s h = elim (Bool-cases (ltb n 10)) [
  | inl one ↦
      rw one (read_digits-digit 0 n s (ground arith) ∙ ap (λ k. read_digits none k s) (omega arith))
  | inr more ↦
      let back : n / 10 * 10 + n % 10 ≡ n = omega arith in
      rw (more, append_assoc (digits fuel (n / 10)) ((b'0' + n % 10) ∷ []) s)
        (read_digits-digits fuel (n / 10) ((b'0' + n % 10) ∷ s) (ground arith)
          ∙ read_digits-digit (n / 10) (n % 10) s (omega arith)
          ∙ ap (λ k. read_digits none k s) back)
]

-- The digits of a number begin with a digit.
digits-head :
    (fuel n : ℕ) → n < fuel → (d : ℕ) × (t : Text) × (d < 10) × (digits fuel n ≡ (b'0' + d) ∷ t)
unfolding digits
digits-head zero n h = absurd (omega arith)
digits-head (suc fuel) n h = elim (Bool-cases (ltb n 10)) [
  | inl one ↦ (n, [], ground arith, rw one)
  | inr more ↦
      let (d, t, lt, e) = digits-head fuel (n / 10) (ground arith) in
      (d, t ++ (b'0' + n % 10) ∷ [], lt, rw (more, e))
]

scan_int-digit :
    (d : ℕ) (t : Text)
    → d < 10
    → scan_int none ((b'0' + d) ∷ t)
      ≡ (let (n, s) = read_digits none 0 ((b'0' + d) ∷ t) in some (pos n, s))
unfolding scan_int skip_space read_signed read_number
scan_int-digit d t h = ground arith

scan_int-show : (n : ℕ) (s : Text) → Stops s → scan_int none (show n ++ s) ≡ some (pos n, s)
unfolding show
scan_int-show n s h =
    let (d, t, lt, e) = digits-head (suc n) n (omega arith) in
    let whole = read_digits-digits (suc n) n s (omega arith) ∙ read_digits-Stops n s h in
    rw e (scan_int-digit d (t ++ s) lt ∙ ap (λ (r : ℕ × Text). some (pos r.0, r.1)) (rw e at whole))

pub scan_int-print_int :
    (n : ℕ) (s : Text) → Stops s → scan_int none (print_int (pos n) ++ s) ≡ some (pos n, s)
unfolding print_int
scan_int-print_int n s h = scan_int-show n s h

-- A number below 100 is printed as two digits.
pub print_int_02-two :
    (n : ℕ) → n < 100 → print_int_02 (pos n) ≡ (b'0' + n / 10) ∷ (b'0' + n % 10) ∷ []
unfolding print_int_02 show digits
print_int_02-two zero h = refl
print_int_02-two (suc n) h = ground arith

pub scan_int-two :
    (d e : ℕ) (s : Text)
    → d < 10
    → e < 10
    → scan_int (some 2) ((b'0' + d) ∷ (b'0' + e) ∷ s) ≡ some (pos (d * 10 + e), s)
unfolding scan_int skip_space read_signed read_number read_digits
scan_int-two d e [] p q = ground arith
scan_int-two d e (c ∷ s) p q = ground arith
