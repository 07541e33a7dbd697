-- ===== src/M3u/Attrs.antt =====
-- internal/core/m3u/parser.go, `parseAttrs` and `splitEXTINF`: attributes in quotes are read back as they were written.
use tvr.Base.{
  ℕ, zero, suc, ◌+◌, ◌≤◌, Bool, true, false, List, [], ◌∷◌, ◌++◌, append-nil, append_assoc, All,
  some, ◌==◌, Text, any, trim_space, trim_left, to_lower, index_by, drop, length, length-append,
  take-append, Dict, insert, text_key, ◌≡◌, refl, sym, ap, ◌∙◌, inl, inr, Bool-cases, arith,
}
use tvr.M3u.{is_blank, put, quoted_value, value_of, one_attr, attr_loop, parse_attrs}

abbrev pub is_quote : ℕ → Bool
is_quote c = c == b'"'

abbrev pub is_equals : ℕ → Bool
is_equals c = c == b'='

-- A key with its value in quotes.
abbrev pub attr_text : Text × Text → Text
attr_text (k, v) = k ++ (b'=' ∷ b'"' ∷ (v ++ (b'"' ∷ [])))

-- Attributes with a blank between them.
abbrev pub joined : List (Text × Text) → Text
joined [] = []
joined (a ∷ []) = attr_text a
joined (a ∷ b ∷ rest) = attr_text a ++ (b' ' ∷ joined (b ∷ rest))

-- A key that can be read back: in lower case, without blanks around it or an equals sign in it, and a value without a
-- quote.
abbrev pub starts_blank : Text → Bool
starts_blank [] = true
starts_blank (c ∷ s) = is_blank c

pub record IsAttr (a : Text × Text) : Type 0 where
  pub key_starts : starts_blank a.0 ≡ false
  pub key_low : to_lower (trim_space a.0) ≡ a.0
  pub key_plain : any is_equals a.0 ≡ false
  pub value_plain : any is_quote a.1 ≡ false

abbrev pub put_all : List (Text × Text) → Dict Text Text → Dict Text Text
put_all [] out = out
put_all ((k, v) ∷ attrs) out = put_all attrs (insert k v out)

index_by-append :
    (p : ℕ → Bool) (xs : Text) (c : ℕ) (ys : Text)
    → any p xs ≡ false
    → p c ≡ true
    → index_by p (xs ++ (c ∷ ys)) ≡ some (length xs)
unfolding index_by
index_by-append p [] c ys n h = rw h refl
index_by-append p (x ∷ xs) c ys n h = elim (Bool-cases (p x)) [
  | inl e ↦ cc (rw e at n)
  | inr e ↦ rw (e, index_by-append p xs c ys (rw e at n) h) refl
]

drop_after-append : (xs : Text) (c : ℕ) (ys : Text) → drop (suc (length xs)) (xs ++ (c ∷ ys)) ≡ ys
drop_after-append [] c ys = refl
drop_after-append (x ∷ xs) c ys = drop_after-append xs c ys

trim_left-key : (k s : Text) → starts_blank k ≡ false → trim_left is_blank (k ++ s) ≡ k ++ s
unfolding trim_left
trim_left-key [] s h = cc
trim_left-key (c ∷ k) s h = rw h refl

quoted_value-append :
    (v behind : Text) → any is_quote v ≡ false → quoted_value (v ++ (b'"' ∷ behind)) ≡ (v, behind)
quoted_value-append v behind h =
    rw
      (
        index_by-append is_quote v b'"' behind h refl,
        quoted_value,
        take-append v (b'"' ∷ behind),
        drop_after-append v b'"' behind,
      )
      refl

pub attr_text-append :
    (k v behind : Text) → attr_text (k, v) ++ behind ≡ k ++ (b'=' ∷ b'"' ∷ (v ++ (b'"' ∷ behind)))
attr_text-append k v behind =
    append_assoc k (b'=' ∷ b'"' ∷ (v ++ (b'"' ∷ []))) behind
    ∙ ap (λ x. k ++ (b'=' ∷ b'"' ∷ x)) (append_assoc v (b'"' ∷ []) behind)

value_of-append :
    (v behind : Text)
    → any is_quote v ≡ false
    → value_of (b'"' ∷ (v ++ (b'"' ∷ behind))) ≡ (v, behind)
unfolding value_of
value_of-append v behind h = quoted_value-append v behind h

one_attr-append :
    (k v behind : Text)
    → IsAttr (k, v)
    → one_attr (k ++ (b'=' ∷ b'"' ∷ (v ++ (b'"' ∷ behind)))) ≡ some ((k, v), behind)
unfolding one_attr
one_attr-append k v behind h =
    let after = b'"' ∷ (v ++ (b'"' ∷ behind)) in
    rw
      (
        one_attr,
        trim_left-key k (b'=' ∷ after) h.key_starts,
        index_by-append is_equals k b'=' after h.key_plain refl,
        trim_left-key k (b'=' ∷ after) h.key_starts,
        drop_after-append k b'=' after,
        take-append k (b'=' ∷ after),
        value_of-append v behind h.value_plain,
        h.key_low,
      )
      refl

put-key :
    (k v : Text) (out : Dict Text Text) → starts_blank k ≡ false → put k v out ≡ insert k v out
put-key [] v out h = cc
put-key (c ∷ k) v out h = refl

attr_loop-step :
    (fuel : ℕ) (k v behind : Text) (out : Dict Text Text)
    → IsAttr (k, v)
    → attr_loop (suc fuel) (attr_text (k, v) ++ behind) out ≡ attr_loop fuel behind (insert k v out)
unfolding attr_loop
attr_loop-step fuel k v behind out h =
    rw
      (
        attr_text-append k v behind,
        attr_loop,
        one_attr-append k v behind h,
        put-key k v out h.key_starts,
      )
      refl

one_attr-blank : (s : Text) → one_attr (b' ' ∷ s) ≡ one_attr s
unfolding one_attr trim_left
one_attr-blank s = refl

attr_loop-blank :
    (fuel : ℕ) (s : Text) (out : Dict Text Text)
    → attr_loop fuel (b' ' ∷ s) out ≡ attr_loop fuel s out
unfolding attr_loop
attr_loop-blank zero s out = refl
attr_loop-blank (suc fuel) s out = rw (attr_loop, one_attr-blank s) refl

attr_loop-nil : (fuel : ℕ) (out : Dict Text Text) → attr_loop fuel [] out ≡ out
unfolding attr_loop one_attr trim_left index_by
attr_loop-nil zero out = refl
attr_loop-nil (suc fuel) out = refl

length-attr_text :
    (a : Text × Text) (behind : Text) → 1 + length behind ≤ length (attr_text a ++ behind)
length-attr_text (k, v) behind =
    let e1 = length-append (attr_text (k, v)) behind in
    let e2 = length-append k (b'=' ∷ b'"' ∷ (v ++ (b'"' ∷ []))) in omega arith

le_self : (n : ℕ) → n ≤ n
le_self n = omega arith

too_long : (m n : ℕ) → 1 + n ≤ m → m ≤ 0 → ⊥
too_long m n h k = omega arith

shorter_by : (m n f : ℕ) → 1 + suc n ≤ m → m ≤ suc f → n ≤ f
shorter_by m n f h k = omega arith

-- The loop on attributes, with fuel for each byte.
attr_loop-joined :
    (fuel : ℕ) (attrs : List (Text × Text)) (out : Dict Text Text)
    → length (joined attrs) ≤ fuel
    → All IsAttr attrs
    → attr_loop fuel (joined attrs) out ≡ put_all attrs out
attr_loop-joined fuel [] out n h = attr_loop-nil fuel out
attr_loop-joined zero ((k, v) ∷ []) out n h =
    let whole = append-nil (attr_text (k, v)) in
    let long = length-attr_text (k, v) [] in
    absurd (too_long (length (attr_text (k, v))) 0 (rw whole at long) n)
attr_loop-joined (suc fuel) ((k, v) ∷ []) out n h =
    ap (λ x. attr_loop (suc fuel) x out) (sym (append-nil (attr_text (k, v))))
    ∙ attr_loop-step fuel k v [] out h.0
    ∙ attr_loop-nil fuel (insert k v out)
attr_loop-joined zero ((k, v) ∷ b ∷ rest) out n h =
    let behind = b' ' ∷ joined (b ∷ rest) in
    absurd (
      too_long (length (attr_text (k, v) ++ behind)) (length behind)
        (length-attr_text (k, v) behind) n)
attr_loop-joined (suc fuel) ((k, v) ∷ b ∷ rest) out n h =
    let behind = b' ' ∷ joined (b ∷ rest) in
    let shorter : length (joined (b ∷ rest)) ≤ fuel =
      shorter_by (length (attr_text (k, v) ++ behind)) (length (joined (b ∷ rest))) fuel
        (length-attr_text (k, v) behind) n in
    attr_loop-step fuel k v behind out h.0
    ∙ attr_loop-blank fuel (joined (b ∷ rest)) (insert k v out)
    ∙ attr_loop-joined fuel (b ∷ rest) (insert k v out) shorter h.1

-- Attributes that are written with their values in quotes and a blank between them are read back, a later value of a key in place of
-- an earlier one. The keys are in lower case and have no blank around them and no equals sign, and no value has a
-- quote.
pub parse_attrs-joined :
    (attrs : List (Text × Text)) → All IsAttr attrs → parse_attrs (joined attrs) ≡ put_all attrs []
unfolding parse_attrs
parse_attrs-joined attrs h =
    attr_loop-joined (length (joined attrs)) attrs [] (le_self (length (joined attrs))) h
