-- ===== src/Utils/Natsort/Fuel.antt =====
-- The fuel of `natural_loop` is enough: each pass takes a code point off both texts.
use tvr.Base.{
  ℕ, zero, suc, ◌+◌, ◌≤◌, ◌<◌, Bool, true, [], ◌∷◌, ◌≡◌, refl, ap, arith, length, drop, length-drop,
  length-take, ◌==◌, Bool-cases, inl, inr, Text,
}
use tvr.Utils.Natsort.{
  Unicode, Order, count, then_order, order_numbers, order_ℕ, zeros, digits, after_number,
  natural_loop,
}

count-le : (p : ℕ → Bool) (s : Text) → count p s ≤ length s
unfolding count
count-le p [] = omega arith
count-le p (r ∷ rs) = ground (arith, count-le p rs)

length-digits :
    (u : Unicode) (s : Text) → length (digits u s) ≡ count u.is_digit (drop (zeros u s) s)
length-digits u s =
    length-take (count u.is_digit (drop (zeros u s) s)) (drop (zeros u s) s)
      (count-le u.is_digit (drop (zeros u s) s))

-- A run that starts with a digit has at least one code point.
number_has_digit :
    (u : Unicode) (r : ℕ) (rs : Text)
    → u.is_digit r ≡ true
    → 0 < zeros u (r ∷ rs) + count u.is_digit (drop (zeros u (r ∷ rs)) (r ∷ rs))
unfolding count
number_has_digit u r rs h = elim (Bool-cases (r == b'0')) [
  | inl e ↦ rw e (omega arith)
  | inr e ↦ rw e (rw h (omega arith))
]

length-after_number :
    (u : Unicode) (r : ℕ) (rs : Text)
    → u.is_digit r ≡ true
    → length (after_number u (r ∷ rs)) ≤ length rs
length-after_number u r rs h = omega (
  arith,
  length-drop (zeros u (r ∷ rs) + length (digits u (r ∷ rs))) (r ∷ rs),
  length-digits u (r ∷ rs),
  number_has_digit u r rs h,
)

-- Fuel that is at least the sum of the lengths is never spent: with any two such fuels the order is the same, whatever
-- the answers when they are spent.
pub natural_loop-fuel :
    (u : Unicode) (spent spent' : Order) (f g : ℕ) (a b : Text)
    → length a + length b ≤ f
    → length a + length b ≤ g
    → natural_loop u spent f a b ≡ natural_loop u spent' g a b
unfolding natural_loop
natural_loop-fuel u spent spent' f g [] [] h k = refl
natural_loop-fuel u spent spent' f g [] (b ∷ ys) h k = refl
natural_loop-fuel u spent spent' f g (a ∷ xs) [] h k = refl
natural_loop-fuel u spent spent' zero g (a ∷ xs) (b ∷ ys) h k = absurd (omega arith)
natural_loop-fuel u spent spent' (suc f) zero (a ∷ xs) (b ∷ ys) h k = absurd (omega arith)
natural_loop-fuel u spent spent' (suc f) (suc g) (a ∷ xs) (b ∷ ys) h k =
    elim (Bool-cases (u.is_digit a)) [
      | inr d ↦ rw d (
          ap (then_order (order_ℕ a b))
            (natural_loop-fuel u spent spent' f g xs ys (omega arith) (omega arith)))
      | inl d ↦ elim (Bool-cases (u.is_digit b)) [
        | inr e ↦ rw d (
            rw e (
              ap (then_order (order_ℕ a b))
                (natural_loop-fuel u spent spent' f g xs ys (omega arith) (omega arith))))
        | inl e ↦
            let la = length-after_number u a xs d in
            let lb = length-after_number u b ys e in
            rw d (
              rw e (
                ap (then_order (order_numbers u (a ∷ xs) (b ∷ ys))) (
                  natural_loop-fuel u spent spent' f g (after_number u (a ∷ xs))
                    (after_number u (b ∷ ys)) (omega arith) (omega arith))))
      ]
    ]
