-- ===== src/M3u/Numbers.antt =====
-- internal/core/m3u/parser.go: a number is read back as it is printed.
use tvr.Base.{
  ℕ, zero, suc, ◌+◌, ◌-◌, ◌*◌, ◌/◌, ◌%◌, ◌^◌, ◌<◌, Bool, true, false, ◌&&◌, [], ◌∷◌, ◌++◌, Option,
  none, some, ◌==◌, ltb, leb, Text, is_empty, any, some_ne_none, ◌≡◌, refl, sym, ap, ◌∙◌, inl, inr,
  Bool-cases, arith, lt→ltb,
}
use native.Mathlib.Numerals.{unary_clauses}
use tvr.Stream.Copy.{decimal}
use tvr.M3u.{digits_value, atoi, in_range}

abbrev then_digit : ℕ → Option ℕ → Option ℕ
then_digit d none = none
then_digit d (some m) = some (m * 10 + d)

digits_value-append :
    (acc d : ℕ) (s : Text)
    → d < 10
    → digits_value acc (s ++ ((48 + d) ∷ [])) ≡ then_digit d (digits_value acc s)
unfolding digits_value
digits_value-append acc d [] h = ground arith
digits_value-append acc d (c ∷ s) h = elim (Bool-cases (leb 48 c && leb c 57)) [
  | inl e ↦ rw e (digits_value-append (acc * 10 + (c - 48)) d s h)
  | inr e ↦ rw e refl
]

zero_of : (n : ℕ) → n < 1 → 0 ≡ n
zero_of n h = omega arith

small : (n : ℕ) → ltb n 10 ≡ true → n < 10
small n e = ground arith

zero_plus : (n : ℕ) → 0 + n ≡ n
zero_plus n = omega arith

last_digit : (n : ℕ) → n % 10 < 10
last_digit n = omega arith

fewer_digits : (n p : ℕ) → n < p * 10 → n / 10 < p
fewer_digits n p h = omega arith

tens_and_ones : (n : ℕ) → n / 10 * 10 + n % 10 ≡ n
tens_and_ones n = omega arith

pub digits_value-decimal : (fuel n : ℕ) → n < 10 ^ fuel → digits_value 0 (decimal fuel n) ≡ some n
unfolding decimal digits_value
digits_value-decimal zero n h = ap some (zero_of n h)
digits_value-decimal (suc fuel) n h = elim (Bool-cases (ltb n 10)) [
  | inl e ↦ rw e (digits_value-append 0 n [] (small n e) ∙ ap some (zero_plus n))
  | inr e ↦ rw e (
      digits_value-append 0 (n % 10) (decimal fuel (n / 10)) (last_digit n)
      ∙ ap (then_digit (n % 10)) (
          digits_value-decimal fuel (n / 10) (fewer_digits n (10 ^ fuel) (simp unary_clauses at h)))
      ∙ ap some (tens_and_ones n))
]

any-append :
    (p : ℕ → Bool) (s : Text) (c : ℕ)
    → any p s ≡ false
    → p c ≡ false
    → any p (s ++ (c ∷ [])) ≡ false
any-append p [] c h k = rw k refl
any-append p (x ∷ s) c h k = elim (Bool-cases (p x)) [
  | inl e ↦ cc (rw e at h)
  | inr e ↦ rw e (any-append p s c (rw e at h) k)
]

-- What no digit is, no character of a printed number is.
pub any-decimal :
    (p : ℕ → Bool) (fuel n : ℕ)
    → ((d : ℕ) → d < 10 → p (48 + d) ≡ false)
    → any p (decimal fuel n) ≡ false
unfolding decimal
any-decimal p zero n h = refl
any-decimal p (suc fuel) n h = elim (Bool-cases (ltb n 10)) [
  | inl e ↦ rw (e, h n (small n e)) refl
  | inr e ↦ rw e (
      any-append p (decimal fuel (n / 10)) (48 + n % 10) (any-decimal p fuel (n / 10) h)
        (h (n % 10) (last_digit n)))
]

is_empty-append : (s : Text) (c : ℕ) → is_empty (s ++ (c ∷ [])) ≡ false
is_empty-append [] c = refl
is_empty-append (x ∷ s) c = refl

pub is_empty-decimal : (fuel n : ℕ) → is_empty (decimal (suc fuel) n) ≡ false
unfolding decimal
is_empty-decimal fuel n = elim (Bool-cases (ltb n 10)) [
  | inl e ↦ rw e refl
  | inr e ↦ rw e (is_empty-append (decimal fuel (n / 10)) (48 + n % 10))
]

atoi-digits :
    (s : Text) (n : ℕ)
    → is_empty s ≡ false
    → digits_value 0 s ≡ some n
    → n < 2 ^ 63
    → atoi s ≡ some n
unfolding atoi digits_value
atoi-digits [] n k h b = cc
atoi-digits (c ∷ s) n k h b = elim (Bool-cases (leb 48 c && leb c 57)) [
  | inr e ↦ absurd (some_ne_none (sym (rw e at h)))
  | inl e ↦
      let digit : (c == b'+') ≡ false = ground arith in
      rw digit (ap in_range h ∙ rw (lt→ltb n (2 ^ 63) b) refl)
]

pub atoi-decimal : (n : ℕ) → n < 2 ^ 63 → atoi (decimal 20 n) ≡ some n
atoi-decimal n h =
    atoi-digits (decimal 20 n) n (is_empty-decimal 19 n) (digits_value-decimal 20 n (fits n h)) h
  where
    fits : (n : ℕ) → n < 2 ^ 63 → n < 10 ^ 20
    fits n h = omega arith
