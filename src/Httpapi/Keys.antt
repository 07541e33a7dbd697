-- ===== src/Httpapi/Keys.antt =====
-- internal/httpapi/relays.go: the attributes of a playlist as they are printed, and their keys.
use tvr.Base.{
  ℕ, ◌+◌, ◌^◌, ◌<◌, Bool, true, false, List, [], ◌∷◌, ◌++◌, map, All, ◌==◌, Text, codes, is_empty,
  any, is_space, trim_space, to_lower, has_prefix, text_key, ◌≡◌, refl, ap, ◌∙◌, inl, inr,
  Bool-cases, arith,
}
use tvr.Stream.Copy.{decimal}
use tvr.M3u.Attrs.{attr_text, joined, IsAttr, is_quote, is_equals, starts_blank}
use tvr.M3u.Numbers.{any-decimal}
use tvr.M3u.Cuts.{IsCut, is_mark}
use tvr.Httpapi.{
  LineupEntry, is_control, sanitize_playlist_text, escape_quotes, escape_attr, unless, public_id,
  lineup_attrs, quoted, join_blank, stream_line,
}

-- Text that is printed as it is and read back as it is: without quotes, line ends, and blanks around it.
abbrev pub IsPlain : Text → Type 0
IsPlain v = (any is_quote v ≡ false) × (any is_control v ≡ false) × (trim_space v ≡ v)

pub sanitize-IsPlain : (v : Text) → any is_control v ≡ false → sanitize_playlist_text v ≡ v
unfolding sanitize_playlist_text
sanitize-IsPlain [] h = refl
sanitize-IsPlain (c ∷ v) h = elim (Bool-cases (is_control c)) [
  | inl e ↦ cc (rw e at h)
  | inr e ↦ rw (e, sanitize-IsPlain v (rw e at h)) refl
]

escape_quotes-plain : (v : Text) → any is_quote v ≡ false → escape_quotes v ≡ v
unfolding escape_quotes
escape_quotes-plain [] h = refl
escape_quotes-plain (c ∷ v) h = elim (Bool-cases (is_quote c)) [
  | inl e ↦ cc (rw e at h)
  | inr e ↦ rw (e, escape_quotes-plain v (rw e at h)) refl
]

escape_attr-IsPlain : (v : Text) → IsPlain v → escape_attr v ≡ v
unfolding escape_attr
escape_attr-IsPlain v (q, c, t) = ap escape_quotes (sanitize-IsPlain v c) ∙ escape_quotes-plain v q

-- A lineup entry that can be read back.
pub record IsReadable (base : Text) (e : LineupEntry) : Type 0 where
  pub named : is_empty e.name ≡ false
  pub name_plain : IsPlain e.name
  pub id_plain : IsPlain (public_id e)
  pub logo_plain : IsPlain e.logo_url
  pub group_plain : IsPlain e.group_title
  pub number_fits : e.number < 2 ^ 63
  pub url_full : is_empty (stream_line base e) ≡ false
  pub url_trimmed : trim_space (stream_line base e) ≡ stream_line base e
  pub url_bare : has_prefix (stream_line base e) (codes "#") ≡ false

-- The attributes as they are read.
abbrev pub plain_attrs : LineupEntry → List (Text × Text)
plain_attrs e =
    unless (is_empty (public_id e)) (codes "tvg-id", public_id e)
      ((codes "tvg-name", e.name)
        ∷ unless (is_empty e.logo_url) (codes "tvg-logo", e.logo_url)
            (unless (e.number == 0) (codes "tvg-chno", decimal 20 e.number)
              (unless (is_empty e.group_title) (codes "group-title", e.group_title) [])))

pub lineup_attrs-plain :
    (base : Text) (e : LineupEntry) → IsReadable base e → lineup_attrs e ≡ plain_attrs e
unfolding lineup_attrs
lineup_attrs-plain base e h =
    rw
      (
        escape_attr-IsPlain e.name h.name_plain,
        escape_attr-IsPlain (public_id e) h.id_plain,
        escape_attr-IsPlain e.logo_url h.logo_plain,
        escape_attr-IsPlain e.group_title h.group_plain,
      )
      refl

pub join_blank-joined : (attrs : List (Text × Text)) → join_blank (map quoted attrs) ≡ joined attrs
join_blank-joined [] = refl
join_blank-joined (a ∷ []) = refl
join_blank-joined (a ∷ b ∷ rest) =
    ap (λ x. attr_text a ++ (b' ' ∷ x)) (join_blank-joined (b ∷ rest))

All-unless :
    (P : Text × Text → Type 0) (skip : Bool) (a : Text × Text) (rest : List (Text × Text))
    → P a
    → All P rest
    → All P (unless skip a rest)
All-unless P true a rest p h = h
All-unless P false a rest p h = (p, h)

digit_is_no : (c d : ℕ) → d < 10 → c < 48 → (48 + d == c) ≡ false
digit_is_no c d h k = ground arith

decimal-unquoted : (n : ℕ) → any is_quote (decimal 20 n) ≡ false
decimal-unquoted n = any-decimal is_quote 20 n (λ d h. digit_is_no 34 d h (omega arith))

abbrev pub is_space_first : Text → Bool
is_space_first [] = true
is_space_first (c ∷ s) = is_space c

-- What the keys of the playlist have in common.
pub record IsKey (k : Text) : Type 0 where
  pub starts : starts_blank k ≡ false
  pub spaceless : is_space_first k ≡ false
  pub low : to_lower (trim_space k) ≡ k
  pub plain : any is_equals k ≡ false
  pub unmarked : any is_mark k ≡ false

IsKey-id : IsKey (codes "tvg-id")
unfolding to_lower trim_space is_space
IsKey-id = record { starts = refl; spaceless = refl; low = refl; plain = refl; unmarked = refl }

IsKey-name : IsKey (codes "tvg-name")
unfolding to_lower trim_space is_space
IsKey-name = record { starts = refl; spaceless = refl; low = refl; plain = refl; unmarked = refl }

IsKey-logo : IsKey (codes "tvg-logo")
unfolding to_lower trim_space is_space
IsKey-logo = record { starts = refl; spaceless = refl; low = refl; plain = refl; unmarked = refl }

IsKey-chno : IsKey (codes "tvg-chno")
unfolding to_lower trim_space is_space
IsKey-chno = record { starts = refl; spaceless = refl; low = refl; plain = refl; unmarked = refl }

IsKey-group : IsKey (codes "group-title")
unfolding to_lower trim_space is_space
IsKey-group = record { starts = refl; spaceless = refl; low = refl; plain = refl; unmarked = refl }

abbrev pub IsKeyed : Text × Text → Type 0
IsKeyed (k, v) = IsKey k × (any is_quote v ≡ false)

pub plain_attrs-IsKeyed :
    (base : Text) (e : LineupEntry) → IsReadable base e → All IsKeyed (plain_attrs e)
plain_attrs-IsKeyed base e h =
    All-unless IsKeyed (is_empty (public_id e)) _ _ (IsKey-id, h.id_plain.0)
      (
        (IsKey-name, h.name_plain.0),
        All-unless IsKeyed (is_empty e.logo_url) _ _ (IsKey-logo, h.logo_plain.0)
            (All-unless IsKeyed (e.number == 0) _ _ (IsKey-chno, decimal-unquoted e.number)
              (All-unless IsKeyed (is_empty e.group_title) _ _ (IsKey-group, h.group_plain.0) tt)),
      )

pub keyed-IsAttr : (attrs : List (Text × Text)) → All IsKeyed attrs → All IsAttr attrs
keyed-IsAttr [] h = tt
keyed-IsAttr ((k, v) ∷ attrs) ((key, q), h) = (
  record { key_starts = key.starts; key_low = key.low; key_plain = key.plain; value_plain = q },
  keyed-IsAttr attrs h,
)

pub keyed-IsCut : (attrs : List (Text × Text)) → All IsKeyed attrs → All IsCut attrs
keyed-IsCut [] h = tt
keyed-IsCut ((k, v) ∷ attrs) ((key, q), h) = ((key.unmarked, q), keyed-IsCut attrs h)
