-- ===== src/Utils/Tests.antt =====
-- internal/utils on small lists and names.
use tvr.Base.{
  length, ◌+◌, ◌≤◌, arith, ℕ, true, ◌&&◌, leb, [], ◌∷◌, ◌≡◌, refl, codes, to_lower, trim_left,
  is_space,
}
use tvr.Utils.Slice.{contains_int64, unique_int64, is_unique, unique_int64-is_unique}
use tvr.Utils.Natsort.Fuel.{natural_loop-fuel}
use tvr.Utils.Natsort.{
  less, greater, Unicode, natural_compare, opposite, natural_compare-opposite, compare_natural,
  natural_loop, order_numbers, order_digits, count, starts_with_cjk,
}

abbrev ascii : Unicode
ascii = record {
  is_digit = λ r. leb b'0' r && leb r b'9';
  is_han = λ r. leb 19968 r && leb r 40959;
  is_space = is_space;
  to_lower = to_lower;
}

-- CCTV-1 stands before CCTV-01 and CCTV-10.
cctv : natural_compare ascii (codes "CCTV-1") (codes "cctv-01") ≡ less
unfolding natural_compare compare_natural natural_loop order_numbers order_digits count
    starts_with_cjk trim_left is_space to_lower
cctv = refl

natural_compare-opposite_example :
    natural_compare ascii (codes "CCTV-10") (codes "CCTV-2")
    ≡ opposite (natural_compare ascii (codes "CCTV-2") (codes "CCTV-10"))
natural_compare-opposite_example = natural_compare-opposite ascii (codes "CCTV-2") (codes "CCTV-10")

unique_int64-is_unique_example :
    (is_unique (unique_int64 (4 ∷ 2 ∷ 4 ∷ [])) ≡ true)
    × ((want : ℕ)
        → contains_int64 (unique_int64 (4 ∷ 2 ∷ 4 ∷ [])) want
          ≡ contains_int64 (4 ∷ 2 ∷ 4 ∷ []) want)
unique_int64-is_unique_example = unique_int64-is_unique (4 ∷ 2 ∷ 4 ∷ [])

lengths_fit : length (codes "a1") + length (codes "a01") ≤ 5
lengths_fit = omega arith

lengths_fit_nine : length (codes "a1") + length (codes "a01") ≤ 9
lengths_fit_nine = omega arith

natural_loop-fuel_example :
    natural_loop ascii less 5 (codes "a1") (codes "a01")
    ≡ natural_loop ascii greater 9 (codes "a1") (codes "a01")
natural_loop-fuel_example =
    natural_loop-fuel ascii less greater 5 9 (codes "a1") (codes "a01") lengths_fit lengths_fit_nine
