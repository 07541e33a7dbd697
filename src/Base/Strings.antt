-- ===== src/Base/Strings.antt =====
-- Texts as lists of byte values, and the functions of Go's package `strings` that the program calls, on ASCII
-- text: the only spaces and the only letters with two cases are ASCII's.
use Prim.Native.Char.{code}
use Prim.Native.String.{String}
use Prim.Native.Nat.{ℕ, suc, ◌+◌, ◌-◌}
use mathlib.Core.Path.{◌≡◌, refl, ap, ◌∙◌}
use mathlib.Core.Logic.{◌↔◌, inl, inr}
use mathlib.Core.Bool.{Bool, true, false, ◌&&◌, ◌||◌}
use mathlib.Core.List.{List, [], ◌∷◌, map}
use mathlib.Core.Option.{Option, none, some}
use native.Mathlib.Omega.{arith}
use tvr.Base.Tests.{ltb, leb, ◌==◌, if◌then◌else◌, Bool-cases}
use tvr.Base.Lists.{length, drop}

abbrev pub Text : Type 0
Text = List ℕ

-- The bytes of an ASCII literal.
abbrev pub codes : String → Text
codes String.[] = []
codes (String.◌∷◌ c s) = code c ∷ codes s

unfoldable pub text_eq : Text → Text → Bool
text_eq [] [] = true
text_eq (a ∷ s) (b ∷ t) = a == b && text_eq s t
text_eq _ _ = false

abbrev pub is_empty : Text → Bool
is_empty [] = true
is_empty (_ ∷ _) = false

unfoldable pub is_space : ℕ → Bool
is_space c = (leb 9 c && leb c 13) || c == 32

-- `strings.TrimLeftFunc` and `strings.TrimRightFunc`.
unfoldable pub trim_left : (ℕ → Bool) → Text → Text
trim_left p [] = []
trim_left p (c ∷ s) = if p c then trim_left p s else c ∷ s

abbrev pub keep_right : (ℕ → Bool) → ℕ → Text → Text
keep_right p c [] = if p c then [] else c ∷ []
keep_right p c (d ∷ s) = c ∷ d ∷ s

unfoldable pub trim_right : (ℕ → Bool) → Text → Text
trim_right p [] = []
trim_right p (c ∷ s) = keep_right p c (trim_right p s)

unfoldable pub trim_space : Text → Text
unfolding trim_left trim_right is_space
trim_space s = trim_right is_space (trim_left is_space s)

unfoldable pub lower : ℕ → ℕ
lower c = if leb b'A' c && leb c b'Z' then c + 32 else c

unfoldable pub upper : ℕ → ℕ
upper c = if leb b'a' c && leb c b'z' then c - 32 else c

unfoldable pub to_lower : Text → Text
unfolding lower
to_lower = map lower

unfoldable pub to_upper : Text → Text
unfolding upper
to_upper = map upper

unfoldable pub has_prefix : Text → Text → Bool
has_prefix s [] = true
has_prefix [] (b ∷ p) = false
has_prefix (a ∷ s) (b ∷ p) = a == b && has_prefix s p

unfoldable pub has_suffix : Text → Text → Bool
unfolding has_prefix
has_suffix s p =
    if ltb (length s) (length p) then false else has_prefix (drop (length s - length p) s) p

-- `strings.Index(s, sub)`; `none` for -1.
unfoldable pub index : Text → Text → Option ℕ
unfolding has_prefix
index [] sub = if has_prefix [] sub then some 0 else none
index (c ∷ s) sub =
    if has_prefix (c ∷ s) sub
    then some 0
    else elim (index s sub) [ none ↦ none | some i ↦ some (suc i) ]

abbrev pub contains : Text → Text → Bool
contains s sub = elim (index s sub) [ none ↦ false | some i ↦ true ]

-- The first byte that passes, as `strings.IndexByte` and `strings.IndexAny` find it.
unfoldable pub index_by : (ℕ → Bool) → Text → Option ℕ
index_by p [] = none
index_by p (c ∷ s) =
    if p c then some 0 else elim (index_by p s) [ none ↦ none | some i ↦ some (suc i) ]

-- The last byte that passes, as `strings.LastIndex` of one byte finds it.
unfoldable pub last_index_by : (ℕ → Bool) → Text → Option ℕ
last_index_by p [] = none
last_index_by p (c ∷ s) = elim (last_index_by p s) [
  | none ↦ if p c then some 0 else none
  | some i ↦ some (suc i)
]

abbrev pub any : (ℕ → Bool) → Text → Bool
any p [] = false
any p (c ∷ s) = p c || any p s

pub text_eq_iff : (s t : Text) → (text_eq s t ≡ true) ↔ (s ≡ t)
unfolding text_eq
text_eq_iff (a ∷ s) (b ∷ t) = ground (arith, text_eq_iff s t)
text_eq_iff _ _ = ground arith

pub text_eq_self : (s : Text) → text_eq s s ≡ true
text_eq_self s = (text_eq_iff s s).1 refl

pub text_ne : (s t : Text) → text_eq s t ≡ false → ¬ (s ≡ t)
text_ne s t h e = ground (arith, text_eq_iff s t)

trim_right-keep_right :
    (p : ℕ → Bool) (c : ℕ) (r : Text)
    → trim_right p r ≡ r
    → trim_right p (keep_right p c r) ≡ keep_right p c r
unfolding trim_right
trim_right-keep_right p c [] h = elim (Bool-cases (p c)) [
  | inl e ↦ rw e refl
  | inr e ↦ rw e (rw e refl)
]
trim_right-keep_right p c (d ∷ r) h = ap (keep_right p c) h

pub trim_right_idem : (p : ℕ → Bool) (s : Text) → trim_right p (trim_right p s) ≡ trim_right p s
unfolding trim_right
trim_right_idem p [] = refl
trim_right_idem p (c ∷ s) = trim_right-keep_right p c (trim_right p s) (trim_right_idem p s)

trim_left-keep_right :
    (p : ℕ → Bool) (c : ℕ) (r : Text)
    → p c ≡ false
    → trim_left p (keep_right p c r) ≡ keep_right p c r
unfolding trim_left
trim_left-keep_right p c [] h = rw h (rw h refl)
trim_left-keep_right p c (d ∷ r) h = rw h refl

trim_left-trim_right :
    (p : ℕ → Bool) (s : Text)
    → trim_left p (trim_right p (trim_left p s)) ≡ trim_right p (trim_left p s)
unfolding trim_left trim_right
trim_left-trim_right p [] = refl
trim_left-trim_right p (c ∷ s) = elim (Bool-cases (p c)) [
  | inl e ↦ rw e (trim_left-trim_right p s)
  | inr e ↦ rw e (trim_left-keep_right p c (trim_right p s) e)
]

pub trim_space_idem : (s : Text) → trim_space (trim_space s) ≡ trim_space s
unfolding trim_space
trim_space_idem s =
    ap (trim_right is_space) (trim_left-trim_right is_space s)
    ∙ trim_right_idem is_space (trim_left is_space s)
