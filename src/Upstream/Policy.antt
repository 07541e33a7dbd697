-- ===== src/Upstream/Policy.antt =====
-- internal/core/upstream/source.go: policy names, and the pick of an index. `rand.IntN` is an argument.
use tvr.Base.{
  ℕ, ◌<◌, Bool, true, false, ◌&&◌, ◌||◌, ◌≡◌, refl, ◌⊎◌, inl, inr, arith, ◌==◌, if◌then◌else◌, Text,
  codes, text_eq, trim_space, to_lower, is_empty, Result, ok, err,
}
use tvr.Base.Int.{ℤ, pos, pos_part, ltb_ℤ, leb_ℤ}

abbrev pub policy_fixed : Text
policy_fixed = codes "fixed"

abbrev pub policy_random : Text
policy_random = codes "random"

abbrev pub policy_failover : Text
policy_failover = codes "failover"

abbrev pub policy_fallback : Text
policy_fallback = codes "fallback"

-- The error names the kind of policy.
unfoldable pub parse_pick_policy : Text → Text → Bool → Result Text Text
parse_pick_policy raw kind allow_fallback =
    let p = to_lower (trim_space raw) in
    if is_empty p || text_eq p policy_fixed
    then ok policy_fixed
    else if text_eq p policy_random
    then ok policy_random
    else if text_eq p policy_failover
    then ok policy_failover
    else if text_eq p policy_fallback && allow_fallback
    then ok policy_failover
    else err kind

unfoldable pub parse_policy : Text → Result Text Text
parse_policy raw = parse_pick_policy raw (codes "upstream") true

unfoldable pub parse_proxy_policy : Text → Result Text Text
parse_proxy_policy raw = parse_pick_policy raw (codes "proxy") false

unfoldable pub pick_index : (ℕ → ℕ) → Text → ℕ → ℤ → ℕ
pick_index rand policy n fixed =
    if n == 0
    then 0
    else if text_eq policy policy_random
    then rand n
    else if text_eq policy policy_fixed
    then (if leb_ℤ (pos 0) fixed && ltb_ℤ fixed (pos n) then pos_part fixed else 0)
    else 0

abbrev pub IsPolicy : Text → Type 0
IsPolicy p = (p ≡ policy_fixed) ⊎ ((p ≡ policy_random) ⊎ (p ≡ policy_failover))

-- What either parser accepts is one of the three policies.
pub parse_pick_policy-IsPolicy :
    (raw kind : Text) (allow : Bool) {p : Text}
    → parse_pick_policy raw kind allow ≡ ok p
    → IsPolicy p
unfolding parse_pick_policy
parse_pick_policy-IsPolicy raw kind allow h = ground arith

pub parse_policy-IsPolicy : (raw : Text) {p : Text} → parse_policy raw ≡ ok p → IsPolicy p
unfolding parse_policy
parse_policy-IsPolicy raw h = parse_pick_policy-IsPolicy raw (codes "upstream") true h

pub parse_policy-IsPolicy-eq : (p : Text) → IsPolicy p → parse_policy p ≡ ok p
unfolding parse_policy parse_pick_policy text_eq trim_space to_lower
parse_policy-IsPolicy-eq p (inl e) = rw e refl
parse_policy-IsPolicy-eq p (inr (inl e)) = rw e refl
parse_policy-IsPolicy-eq p (inr (inr e)) = rw e refl

pub pick_index-lt :
    (rand : ℕ → ℕ) (policy : Text) (n : ℕ) (fixed : ℤ)
    → ((m : ℕ) → 0 < m → rand m < m)
    → 0 < n
    → pick_index rand policy n fixed < n
unfolding pick_index
pick_index-lt rand policy n fixed law h = ground (arith, law n)
