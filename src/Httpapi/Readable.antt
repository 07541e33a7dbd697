-- ===== src/Httpapi/Readable.antt =====
-- internal/httpapi/relays.go and internal/core/m3u/parser.go: the playlist of a relay is read back as the lineup it was printed from.
use tvr.Base.{
  ℕ, false, List, [], ◌∷◌, ◌++◌, append_assoc, All, some, Text, codes, is_space, trim_space,
  index_by, trim_left, trim_right, text_key, ok, ◌≡◌, refl, sym, ap, ◌∙◌,
}
use tvr.Epg.Service.{is_nil}
use tvr.M3u.{split_extinf, cut_comma, attrs_part, entry_of_attrs, parse_extinf}
use tvr.M3u.Attrs.{attr_text, joined, put_all, parse_attrs-joined}
use tvr.M3u.Cuts.{cut_comma-joined, trim_space-append}
use tvr.Httpapi.Keys.{IsKey, IsKeyed, keyed-IsAttr, keyed-IsCut}

-- The attributes start with no space and end in a quote.
abbrev pub IsFramed : Text → Type 0
IsFramed s = (c : ℕ) × (xs : Text) × (is_space c ≡ false) × (s ≡ (c ∷ xs) ++ (b'"' ∷ []))

attr_text-IsFramed : (k v : Text) → IsKey k → IsFramed (attr_text (k, v))
attr_text-IsFramed [] v h = cc h.starts
attr_text-IsFramed (c ∷ k) v h = (
  c,
  k ++ (b'=' ∷ b'"' ∷ v),
  h.spaceless,
  ap (◌∷◌ c) (sym (append_assoc k (b'=' ∷ b'"' ∷ v) (b'"' ∷ []))),
)

before-IsFramed : (s t : Text) → IsFramed s → IsFramed t → IsFramed (s ++ (b' ' ∷ t))
before-IsFramed s t (c, xs, h, e) (d, ys, k, f) = (
  c,
  (xs ++ (b'"' ∷ [])) ++ (b' ' ∷ d ∷ ys),
  h,
  rw (e, f) (ap (◌∷◌ c) (sym (append_assoc (xs ++ (b'"' ∷ [])) (b' ' ∷ d ∷ ys) (b'"' ∷ [])))),
)

joined-IsFramed :
    (attrs : List (Text × Text))
    → is_nil attrs ≡ false
    → All IsKeyed attrs
    → IsFramed (joined attrs)
joined-IsFramed [] n h = cc
joined-IsFramed ((k, v) ∷ []) n h = attr_text-IsFramed k v h.0.0
joined-IsFramed ((k, v) ∷ b ∷ rest) n h =
    before-IsFramed (attr_text (k, v)) (joined (b ∷ rest)) (attr_text-IsFramed k v h.0.0)
      (joined-IsFramed (b ∷ rest) refl h.1)

quote_trimmed : trim_space (b'"' ∷ []) ≡ b'"' ∷ []
unfolding trim_space is_space trim_left trim_right
quote_trimmed = refl

trim_space-IsFramed : (s : Text) → IsFramed s → trim_space s ≡ s
trim_space-IsFramed s (c, xs, h, e) =
    ap trim_space e ∙ (trim_space-append c xs (b'"' ∷ []) h refl quote_trimmed ∙ sym e)

minus_one-IsFramed : (s : Text) → IsFramed s → IsFramed (codes "-1 " ++ s)
unfolding is_space
minus_one-IsFramed s (c, xs, h, e) =
    (b'-', b'1' ∷ b' ' ∷ c ∷ xs, refl, ap (λ x. b'-' ∷ b'1' ∷ b' ' ∷ x) e)

cut_comma-minus_one :
    (attrs : List (Text × Text)) (name : Text)
    → All IsKeyed attrs
    → cut_comma false (codes "-1 " ++ (joined attrs ++ (b',' ∷ name)))
      ≡ some (codes "-1 " ++ joined attrs, name)
unfolding cut_comma
cut_comma-minus_one attrs name h = rw (cut_comma-joined attrs name (keyed-IsCut attrs h)) refl

split_extinf-joined :
    (attrs : List (Text × Text)) (name : Text)
    → is_nil attrs ≡ false
    → All IsKeyed attrs
    → trim_space name ≡ name
    → split_extinf (codes "-1 " ++ (joined attrs ++ (b',' ∷ name)))
      ≡ some (codes "-1 " ++ joined attrs, name)
unfolding split_extinf
split_extinf-joined attrs name n h t =
    let trimmed =
      trim_space-IsFramed (codes "-1 " ++ joined attrs)
        (minus_one-IsFramed (joined attrs) (joined-IsFramed attrs n h)) in
    rw (split_extinf, cut_comma-minus_one attrs name h, trimmed, t) refl

attrs_part-joined :
    (attrs : List (Text × Text))
    → is_nil attrs ≡ false
    → All IsKeyed attrs
    → attrs_part (codes "-1 " ++ joined attrs) ≡ joined attrs
unfolding index_by
attrs_part-joined attrs n h = trim_space-IsFramed (joined attrs) (joined-IsFramed attrs n h)

pub parse_extinf-joined :
    (attrs : List (Text × Text)) (name : Text)
    → is_nil attrs ≡ false
    → All IsKeyed attrs
    → trim_space name ≡ name
    → parse_extinf (codes "-1 " ++ (joined attrs ++ (b',' ∷ name)))
      ≡ ok (entry_of_attrs (put_all attrs []) name)
unfolding parse_extinf entry_of_attrs
parse_extinf-joined attrs name n h t =
    rw
      (
        parse_extinf,
        split_extinf-joined attrs name n h t,
        attrs_part-joined attrs n h,
        parse_attrs-joined attrs (keyed-IsAttr attrs h),
      )
      refl
