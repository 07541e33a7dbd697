-- ===== src/M3u/Cuts.antt =====
-- internal/core/m3u/parser.go, `splitEXTINF`: the comma behind the attributes is found, whatever stands in quotes.
use tvr.Base.{
  ℕ, Bool, true, false, ◌||◌, List, [], ◌∷◌, ◌++◌, append-nil, append_assoc, All, some, ◌==◌, Text,
  is_empty, any, is_space, trim_space, trim_left, trim_right, trim_right_idem, keep_right, ◌≡◌,
  refl, sym, ap, ◌∙◌, inl, inr, Bool-cases,
}
use tvr.M3u.{cut_comma}
use tvr.M3u.Attrs.{attr_text, attr_text-append, joined, is_quote}

abbrev pub is_mark : ℕ → Bool
is_mark c = c == b'"' || c == b','

cut-plain :
    (xs ys m n : Text)
    → any is_mark xs ≡ false
    → cut_comma false ys ≡ some (m, n)
    → cut_comma false (xs ++ ys) ≡ some (xs ++ m, n)
unfolding cut_comma
cut-plain [] ys m n h c = c
cut-plain (x ∷ xs) ys m n h c = elim (Bool-cases (x == b'"')) [
  | inl e ↦ cc (rw e at h)
  | inr e ↦ elim (Bool-cases (x == b',')) [
    | inl f ↦ cc (rw (e, f) at h)
    | inr f ↦ rw (e, f, cut-plain xs ys m n (rw (e, f) at h) c) refl
  ]
]

cut-quoted :
    (v ys m n : Text)
    → any is_quote v ≡ false
    → cut_comma false ys ≡ some (m, n)
    → cut_comma true (v ++ (b'"' ∷ ys)) ≡ some (v ++ (b'"' ∷ m), n)
unfolding cut_comma
cut-quoted [] ys m n h c = rw c refl
cut-quoted (x ∷ v) ys m n h c = elim (Bool-cases (x == b'"')) [
  | inl e ↦ cc (rw e at h)
  | inr e ↦ elim (Bool-cases (x == b',')) [
    | inl f ↦ rw (e, f, cut-quoted v ys m n (rw e at h) c) refl
    | inr f ↦ rw (e, f, cut-quoted v ys m n (rw e at h) c) refl
  ]
]

-- A key without quotes and commas, and a value without quotes.
abbrev pub IsCut : Text × Text → Type 0
IsCut (k, v) = (any is_mark k ≡ false) × (any is_quote v ≡ false)

cut-attr :
    (k v ys m n : Text)
    → IsCut (k, v)
    → cut_comma false ys ≡ some (m, n)
    → cut_comma false (attr_text (k, v) ++ ys) ≡ some (attr_text (k, v) ++ m, n)
unfolding cut_comma
cut-attr k v ys m n h c =
    let inner : cut_comma false (b'=' ∷ b'"' ∷ (v ++ (b'"' ∷ ys)))
        ≡ some (b'=' ∷ b'"' ∷ (v ++ (b'"' ∷ m)), n) =
      rw (cut-quoted v ys m n h.1 c) refl in
    rw (attr_text-append k v ys, attr_text-append k v m)
      (cut-plain k (b'=' ∷ b'"' ∷ (v ++ (b'"' ∷ ys))) (b'=' ∷ b'"' ∷ (v ++ (b'"' ∷ m))) n h.0 inner)

pub cut_comma-joined :
    (attrs : List (Text × Text)) (name : Text)
    → All IsCut attrs
    → cut_comma false (joined attrs ++ (b',' ∷ name)) ≡ some (joined attrs, name)
unfolding cut_comma
cut_comma-joined [] name h = refl
cut_comma-joined ((k, v) ∷ []) name h =
    cut-attr k v (b',' ∷ name) [] name h.0 refl
    ∙ ap (λ x. some (x, name)) (append-nil (attr_text (k, v)))
cut_comma-joined ((k, v) ∷ b ∷ rest) name h =
    let later = cut_comma-joined (b ∷ rest) name h.1 in
    let behind : cut_comma false (b' ' ∷ (joined (b ∷ rest) ++ (b',' ∷ name)))
        ≡ some (b' ' ∷ joined (b ∷ rest), name) =
      rw later refl in
    ap (cut_comma false) (append_assoc (attr_text (k, v)) (b' ' ∷ joined (b ∷ rest)) (b',' ∷ name))
    ∙ cut-attr k v (b' ' ∷ (joined (b ∷ rest) ++ (b',' ∷ name))) (b' ' ∷ joined (b ∷ rest)) name h.0
        behind

-- Texts that end in one that is trimmed.
keep_right-full :
    (p : ℕ → Bool) (x : ℕ) (xs ys : Text)
    → is_empty ys ≡ false
    → keep_right p x (xs ++ ys) ≡ x ∷ (xs ++ ys)
keep_right-full p x [] [] n = cc
keep_right-full p x [] (y ∷ ys) n = refl
keep_right-full p x (z ∷ xs) ys n = refl

trim_space-starts :
    (c : ℕ) (s : Text) → is_space c ≡ false → trim_space (c ∷ s) ≡ trim_right is_space (c ∷ s)
unfolding trim_space trim_left
trim_space-starts c s h = rw h refl

trim_right-append :
    (p : ℕ → Bool) (xs ys : Text)
    → is_empty ys ≡ false
    → trim_right p ys ≡ ys
    → trim_right p (xs ++ ys) ≡ xs ++ ys
unfolding trim_right
trim_right-append p [] ys n h = h
trim_right-append p (x ∷ xs) ys n h =
    ap (keep_right p x) (trim_right-append p xs ys n h) ∙ keep_right-full p x xs ys n

pub trim_space-append :
    (c : ℕ) (xs ys : Text)
    → is_space c ≡ false
    → is_empty ys ≡ false
    → trim_space ys ≡ ys
    → trim_space ((c ∷ xs) ++ ys) ≡ (c ∷ xs) ++ ys
unfolding trim_space
trim_space-append c xs ys k n h =
    let right : trim_right is_space ys ≡ ys =
      ap (trim_right is_space) (sym h) ∙ (trim_right_idem is_space (trim_left is_space ys) ∙ h) in
    trim_space-starts c (xs ++ ys) k ∙ trim_right-append is_space (c ∷ xs) ys n right

keep_right-plain : (p : ℕ → Bool) (c : ℕ) (s : Text) → p c ≡ false → keep_right p c s ≡ c ∷ s
keep_right-plain p c [] h = rw h refl
keep_right-plain p c (d ∷ s) h = refl

trim_right-plain : (p : ℕ → Bool) (s : Text) → any p s ≡ false → trim_right p s ≡ s
unfolding trim_right
trim_right-plain p [] h = refl
trim_right-plain p (c ∷ s) h = elim (Bool-cases (p c)) [
  | inl e ↦ cc (rw e at h)
  | inr e ↦ ap (keep_right p c) (trim_right-plain p s (rw e at h)) ∙ keep_right-plain p c s e
]

trim_left-plain : (p : ℕ → Bool) (s : Text) → any p s ≡ false → trim_left p s ≡ s
unfolding trim_left
trim_left-plain p [] h = refl
trim_left-plain p (c ∷ s) h = elim (Bool-cases (p c)) [ inl e ↦ cc (rw e at h) | inr e ↦ rw e refl ]

pub trim_space-plain : (s : Text) → any is_space s ≡ false → trim_space s ≡ s
unfolding trim_space
trim_space-plain s h =
    ap (trim_right is_space) (trim_left-plain is_space s h) ∙ trim_right-plain is_space s h
