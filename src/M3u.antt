-- ===== src/M3u.antt =====
-- internal/core/m3u/parser.go on the lines that the scanner gives; no line is so long that the scanner refuses it. Whether a URL
-- parses with the scheme http or https (net/url) is an argument.
pub mod Parsing
pub mod Attrs
pub mod Numbers
pub mod Cuts
mod Tests
use tvr.Base.{
  ℕ, zero, suc, ◌+◌, ◌-◌, ◌*◌, ◌^◌, Bool, true, false, not, ◌&&◌, ◌||◌, List, [], ◌∷◌, ◌++◌, Option,
  none, some, ◌==◌, ltb, leb, if◌then◌else◌, Text, codes, is_empty, trim_space, trim_left,
  trim_right, is_space, to_lower, to_upper, has_prefix, text_eq, index_by, take, drop, length, Dict,
  lookup, insert, text_key, Result, ok, err,
}
use tvr.Stream.Copy.{decimal}
use tvr.Utils.Slice.{append_unique}

pub record Entry : Type 0 where
  pub name : Text
  pub number : ℕ
  pub tvg_id : Text
  pub group_title : Text
  pub logo_url : Text
  pub url : Text
  pub headers : Dict Text Text

pub record Playlist : Type 0 where
  pub epg_urls : List Text
  pub entries : List Entry
  pub warnings : List Text

pub data M3uError : Type 0 where
  not_a_playlist missing_comma : M3uError

abbrev pub is_blank : ℕ → Bool
is_blank c = c == b' ' || c == 9

abbrev pub put : Text → Text → Dict Text Text → Dict Text Text
put key val out = if is_empty key then out else insert key val out

-- The value at the start of the text, and the text behind it.
abbrev pub quoted_value : Text → Text × Text
quoted_value body = elim (index_by (λ c. c == b'"') body) [
  | none ↦ (body, [])
  | some end ↦ (take end body, drop (suc end) body)
]

abbrev pub bare_value : Text → Text × Text
bare_value s = elim (index_by is_blank s) [ none ↦ (s, []) | some end ↦ (take end s, drop end s) ]

unfoldable pub value_of : Text → Text × Text
value_of [] = ([], [])
value_of (c ∷ s) = if c == b'"' then quoted_value s else bare_value (c ∷ s)

-- A pass of the loop of `parseAttrs` on what is left of the text: a key with its value, and what is behind them.
unfoldable pub one_attr : Text → Option ((Text × Text) × Text)
one_attr s =
    let t = trim_left is_blank s in
    elim (index_by (λ c. c == b'=') t) [
      | none ↦ none
      | some eq ↦
          let rest = drop (suc eq) t in
          if is_empty rest
          then none
          else some ((to_lower (trim_space (take eq t)), (value_of rest).0), (value_of rest).1)
    ]

-- Every pass takes the equals sign off the text.
unfoldable pub attr_loop : ℕ → Text → Dict Text Text → Dict Text Text
attr_loop zero s out = out
attr_loop (suc fuel) s out = elim (one_attr s) [
  | none ↦ out
  | some a ↦ attr_loop fuel a.1 (put a.0.0 a.0.1 out)
]

unfoldable pub parse_attrs : Text → Dict Text Text
parse_attrs s = attr_loop (length s) s []

abbrev pub or_blank : Option Text → Text
or_blank none = []
or_blank (some v) = trim_space v

unfoldable pub first_attr : Dict Text Text → List Text → Text
first_attr attrs [] = []
first_attr attrs (k ∷ ks) =
    let rest = first_attr attrs ks in
    if is_empty (or_blank (lookup k attrs)) then rest else or_blank (lookup k attrs)

-- `splitEXTINF`: what stands before and behind the first comma that is not quoted.
abbrev pub push : ℕ → Option (Text × Text) → Option (Text × Text)
push c none = none
push c (some (meta, name)) = some (c ∷ meta, name)

unfoldable pub cut_comma : Bool → Text → Option (Text × Text)
cut_comma in_quote [] = none
cut_comma in_quote (c ∷ s) =
    let rest = cut_comma (if c == b'"' then not in_quote else in_quote) s in
    if c == b',' && not in_quote then some ([], s) else push c rest

unfoldable pub split_extinf : Text → Option (Text × Text)
unfolding cut_comma
split_extinf rest = elim (cut_comma false rest) [
  | none ↦ none
  | some cut ↦ some (trim_space cut.0, trim_space cut.1)
]

-- `strconv.Atoi` of a number that is not negative: the others, and those of more than 63 bits, are not used.
unfoldable pub digits_value : ℕ → Text → Option ℕ
digits_value acc [] = some acc
digits_value acc (c ∷ s) =
    let rest = digits_value (acc * 10 + (c - 48)) s in if leb 48 c && leb c 57 then rest else none

abbrev pub in_range : Option ℕ → Option ℕ
in_range none = none
in_range (some n) = if ltb n (2 ^ 63) then some n else none

unfoldable pub atoi : Text → Option ℕ
atoi [] = none
atoi (c ∷ s) =
    if c == b'+'
    then if is_empty s then none else in_range (digits_value 0 s)
    else in_range (digits_value 0 (c ∷ s))

abbrev pub number_or_zero : Option ℕ → ℕ
number_or_zero none = 0
number_or_zero (some n) = n

abbrev pub attrs_part : Text → Text
attrs_part meta = elim (index_by is_blank meta) [
  | none ↦ []
  | some i ↦ trim_space (drop (suc i) meta)
]

unfoldable pub entry_of_attrs : Dict Text Text → Text → Entry
entry_of_attrs attrs name = record {
  name =
      if is_empty name then first_attr attrs (codes "tvg-name" ∷ codes "tvg_name" ∷ []) else name;
  number = number_or_zero (
      atoi (
        first_attr attrs
          (codes "tvg-chno" ∷ codes "tvg-chnum" ∷ codes "channel-number" ∷ codes "chno" ∷ [])));
  tvg_id = first_attr attrs (codes "tvg-id" ∷ codes "tvg_id" ∷ []);
  group_title = first_attr attrs (codes "group-title" ∷ codes "group_title" ∷ []);
  logo_url = first_attr attrs (codes "tvg-logo" ∷ codes "tvg_logo" ∷ codes "logo" ∷ []);
  url = [];
  headers = [];
}

-- The line is behind `#EXTINF:`.
unfoldable pub parse_extinf : Text → Result M3uError Entry
unfolding split_extinf
parse_extinf rest = elim (split_extinf rest) [
  | none ↦ err missing_comma
  | some cut ↦ ok (entry_of_attrs (parse_attrs (attrs_part cut.0)) cut.1)
]

unfoldable pub apply_vlc_opt : Text → Entry → Entry
apply_vlc_opt opt ent =
    let low = to_lower opt in
    if has_prefix low (codes "http-user-agent=")
    then record ent { headers = insert (codes "User-Agent") (trim_space (drop 16 opt)) ent.headers }
    else if has_prefix low (codes "http-referrer=")
    then record ent { headers = insert (codes "Referer") (trim_space (drop 14 opt)) ent.headers }
    else if has_prefix low (codes "http-referer=")
    then record ent { headers = insert (codes "Referer") (trim_space (drop 13 opt)) ent.headers }
    else ent
