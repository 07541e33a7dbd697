-- ===== src/Channeltxt.antt =====
-- internal/core/channeltxt/parse.go on the lines that the scanner gives; no line is so long that the scanner refuses it.
pub mod Accepts
mod Tests
use tvr.Base.{
  ℕ, zero, suc, ◌+◌, ◌-◌, Bool, true, false, not, ◌&&◌, ◌||◌, List, [], ◌∷◌, ◌++◌, Option, none,
  some, length, take, drop, ltb, ◌==◌, if◌then◌else◌, Text, codes, is_empty, trim_space, to_lower,
  has_prefix, index_by, last_index_by, Result, ok, err,
}
use tvr.Upstream.Resolve.{valid_proxied_link}

pub record Entry : Type 0 where
  pub name : Text
  pub url : Text
  pub proxy_name : Text

-- Each error names the line.
pub data ParseError : Type 0 where
  expected_row : ℕ → ParseError
  expected_target : ℕ → ParseError

unfoldable pub is_http_target : Text → Bool
is_http_target raw =
    has_prefix (to_lower raw) (codes "http://") || has_prefix (to_lower raw) (codes "https://")

abbrev pub splits_port : Text → Option ℕ → Bool
splits_port link none = false
splits_port link (some i) = ltb 0 i && ltb (suc i) (length link)

unfoldable pub valid_host_port : Text → Bool
valid_host_port link =
    valid_proxied_link link && splits_port link (last_index_by (λ b. b == b':') link)

-- The target and the name of its proxy, or `none` for the error.
unfoldable pub split_target : Text → Option (Text × Text)
split_target raw =
    if is_http_target raw then some (raw, []) else elim (last_index_by (λ b. b == b'@') raw) [
      | none ↦ some (raw, [])
      | some at ↦
          let link = trim_space (take at raw) in
          let name = trim_space (drop (suc at) raw) in
          if not (valid_host_port link) || is_empty name then none else some (link, name)
    ]

-- `strings.Cut(line, ",")` with both parts trimmed.
unfoldable pub cut_row : Text → Option (Text × Text)
cut_row line = elim (index_by (λ b. b == b',') line) [
  | none ↦ none
  | some i ↦
      let name = trim_space (take i line) in
      let raw = trim_space (drop (suc i) line) in
      if is_empty name || is_empty raw then none else some (name, raw)
]

abbrev pub is_skipped : Text → Bool
is_skipped line = is_empty line || has_prefix line (codes "#")

-- The row on a line that is not skipped.
unfoldable pub parse_row : ℕ → Text → Result ParseError Entry
parse_row n line = elim (cut_row line) [
  | none ↦ err (expected_row n)
  | some row ↦ elim (split_target row.1) [
    | none ↦ err (expected_target n)
    | some t ↦ ok (record { name = row.0; url = t.0; proxy_name = t.1 })
  ]
]

abbrev pub and_rest : Entry → Result ParseError (List Entry) → Result ParseError (List Entry)
and_rest e (ok es) = ok (e ∷ es)
and_rest e (err x) = err x

-- The loop from line number `n` on.
unfoldable pub parse_lines : ℕ → List Text → Result ParseError (List Entry)
parse_lines n [] = ok []
parse_lines n (raw ∷ lines) =
    let rest = parse_lines (suc n) lines in
    if is_skipped (trim_space raw)
    then rest
    else elim (parse_row n (trim_space raw)) [ err e ↦ err e | ok e ↦ and_rest e rest ]

unfoldable pub parse : List Text → Result ParseError (List Entry)
parse lines = parse_lines 1 lines
