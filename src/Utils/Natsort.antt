-- ===== src/Utils/Natsort.antt =====
-- internal/utils/natsort.go on lists of code points: the tables of the package `unicode` and the mapping
-- to lower case are arguments, and a text that is not valid UTF-8 is not covered.
pub mod Fuel
use tvr.Base.{
  ℕ, zero, suc, ◌+◌, Bool, true, false, not, ◌&&◌, ◌||◌, [], ◌∷◌, ◌≡◌, refl, ap, ◌∙◌, arith, ltb,
  leb, ◌==◌, if◌then◌else◌, length, take, drop, Text, trim_left,
}

pub data Order : Type 0 where
  less same greater : Order

pub record Unicode : Type 0 where
  pub is_digit : ℕ → Bool
  pub is_han : ℕ → Bool
  pub is_space : ℕ → Bool
  pub to_lower : Text → Text

-- How many of the first code points pass, the end of the loops `for ia < len(ra) && ...`.
unfoldable pub count : (ℕ → Bool) → Text → ℕ
count p [] = 0
count p (r ∷ rs) = let rest = count p rs in if p r then suc rest else 0

abbrev pub order_ℕ : ℕ → ℕ → Order
order_ℕ a b = if a == b then same else if ltb a b then less else greater

abbrev pub then_order : Order → Order → Order
then_order less o = less
then_order same o = o
then_order greater o = greater

-- The first difference of two runs of digits of one length.
unfoldable pub order_digits : Text → Text → Order
order_digits (a ∷ xs) (b ∷ ys) = then_order (order_ℕ a b) (order_digits xs ys)
order_digits [] [] = same
order_digits [] (_ ∷ _) = same
order_digits (_ ∷ _) [] = same

module _ (u : Unicode) where
  abbrev pub zeros : Text → ℕ
  zeros s = count (λ r. r == b'0') s

  abbrev pub digits : Text → Text
  digits s = let rest = drop (zeros s) s in take (count u.is_digit rest) rest

  -- Two runs of digits: by the length without the leading zeros, by the digits, then the run that is shorter.
  unfoldable pub order_numbers : Text → Text → Order
  order_numbers a b =
      let da = digits a in
      let db = digits b in
      then_order (order_ℕ (length da) (length db))
        (then_order (order_digits da db) (order_ℕ (zeros a + length da) (zeros b + length db)))

  abbrev pub after_number : Text → Text
  after_number s = drop (zeros s + length (digits s)) s

  -- `spent` is the answer when the fuel is spent.
  unfoldable pub natural_loop : Order → ℕ → Text → Text → Order
  natural_loop spent fuel [] [] = same
  natural_loop spent fuel [] (_ ∷ _) = less
  natural_loop spent fuel (_ ∷ _) [] = greater
  natural_loop spent zero (a ∷ xs) (b ∷ ys) = spent
  natural_loop spent (suc fuel) (a ∷ xs) (b ∷ ys) =
      let numbers = natural_loop spent fuel (after_number (a ∷ xs)) (after_number (b ∷ ys)) in
      let letters = natural_loop spent fuel xs ys in
      if u.is_digit a && u.is_digit b
      then then_order (order_numbers (a ∷ xs) (b ∷ ys)) numbers
      else then_order (order_ℕ a b) letters

  unfoldable pub compare_natural : Text → Text → Order
  compare_natural a b =
      let ra = u.to_lower a in
      let rb = u.to_lower b in natural_loop same (length ra + length rb) ra rb

  abbrev pub first_is_cjk : Text → Bool
  first_is_cjk [] = false
  first_is_cjk (r ∷ rs) =
      if r == 65533
      then false
      else u.is_han r
        || (leb 13312 r && leb r 19903)
        || (leb 63744 r && leb r 64255)
        || (leb 131072 r && leb r 183983)

  unfoldable pub starts_with_cjk : Text → Bool
  starts_with_cjk s = first_is_cjk (trim_left u.is_space s)

  unfoldable pub natural_compare : Text → Text → Order
  natural_compare a b =
      let ac = starts_with_cjk a in
      let bc = starts_with_cjk b in
      if (ac && not bc) || (not ac && bc)
      then (if ac then greater else less)
      else compare_natural a b

  unfoldable pub natural_less : Text → Text → Bool
  natural_less a b = elim (natural_compare a b) [ less ↦ true | same ↦ false | greater ↦ false ]

abbrev pub opposite : Order → Order
opposite less = greater
opposite same = same
opposite greater = less

order_ℕ-opposite : (a b : ℕ) → order_ℕ b a ≡ opposite (order_ℕ a b)
order_ℕ-opposite a b = ground arith

then_order-opposite :
    (p q p' q' : Order)
    → p' ≡ opposite p
    → q' ≡ opposite q
    → then_order p' q' ≡ opposite (then_order p q)
then_order-opposite p q p' q' e f = ground arith

order_digits-opposite : (xs ys : Text) → order_digits ys xs ≡ opposite (order_digits xs ys)
unfolding order_digits
order_digits-opposite [] [] = refl
order_digits-opposite [] (b ∷ ys) = refl
order_digits-opposite (a ∷ xs) [] = refl
order_digits-opposite (a ∷ xs) (b ∷ ys) =
    then_order-opposite _ _ _ _ (order_ℕ-opposite a b) (order_digits-opposite xs ys)

order_numbers-opposite :
    (u : Unicode) (a b : Text) → order_numbers u b a ≡ opposite (order_numbers u a b)
unfolding order_numbers
order_numbers-opposite u a b =
    then_order-opposite _ _ _ _ (order_ℕ-opposite (length (digits u a)) (length (digits u b))) (
      then_order-opposite _ _ _ _ (order_digits-opposite (digits u a) (digits u b))
        (order_ℕ-opposite (zeros u a + length (digits u a)) (zeros u b + length (digits u b))))

-- Both ways test the two runes for digits.
if-opposite :
    (d e : Bool) (p q p' q' : Order)
    → p' ≡ opposite p
    → q' ≡ opposite q
    → (if e && d then p' else q') ≡ opposite (if d && e then p else q)
if-opposite d e p q p' q' h k = ground arith

natural_loop-opposite :
    (u : Unicode) (spent : Order) (fuel : ℕ) (a b : Text)
    → natural_loop u (opposite spent) fuel b a ≡ opposite (natural_loop u spent fuel a b)
unfolding natural_loop
natural_loop-opposite u spent fuel [] [] = refl
natural_loop-opposite u spent fuel [] (b ∷ bs) = refl
natural_loop-opposite u spent fuel (a ∷ xs) [] = refl
natural_loop-opposite u spent zero (a ∷ xs) (b ∷ ys) = refl
natural_loop-opposite u spent (suc fuel) (a ∷ xs) (b ∷ ys) =
    if-opposite (u.is_digit a) (u.is_digit b) _ _ _ _
      (then_order-opposite _ _ _ _ (order_numbers-opposite u (a ∷ xs) (b ∷ ys))
        (natural_loop-opposite u spent fuel (after_number u (a ∷ xs)) (after_number u (b ∷ ys))))
      (then_order-opposite _ _ _ _ (order_ℕ-opposite a b)
        (natural_loop-opposite u spent fuel xs ys))

compare_natural-opposite :
    (u : Unicode) (a b : Text) → compare_natural u b a ≡ opposite (compare_natural u a b)
unfolding compare_natural
compare_natural-opposite u a b =
    let x : Text = u.to_lower a in
    let y : Text = u.to_lower b in
    let swap : length y + length x ≡ length x + length y = omega arith in
    ap (λ n. natural_loop u same n y x) swap
    ∙ natural_loop-opposite u same (length x + length y) x y

-- Comparing two texts the other way gives the opposite order.
pub natural_compare-opposite :
    (u : Unicode) (a b : Text) → natural_compare u b a ≡ opposite (natural_compare u a b)
unfolding natural_compare
natural_compare-opposite u a b = ground (arith, compare_natural-opposite u a b)
