-- ===== src/M3u/Parsing.antt =====
-- internal/core/m3u/parser.go: `Parse`, a line at a time, and the URLs of guides in the header.
use tvr.Base.{
  ℕ, ◌+◌, Bool, true, false, not, ◌&&◌, ◌||◌, List, [], ◌∷◌, ◌++◌, Option, none, some, ◌==◌,
  if◌then◌else◌, Text, codes, is_empty, trim_space, to_upper, has_prefix, text_eq, take, drop,
  length, ltb, lookup, text_key, Result, ok, err,
}
use tvr.Stream.Copy.{decimal}
use tvr.Utils.Slice.{append_unique}
use tvr.M3u.{
  Entry, Playlist, M3uError, not_a_playlist, parse_attrs, or_blank, parse_extinf, apply_vlc_opt,
}

abbrev pub glue : ℕ → List Text → List Text
glue c [] = (c ∷ []) ∷ []
glue c (part ∷ parts) = (c ∷ part) ∷ parts

-- `strings.Split` at each comma.
unfoldable pub split_commas : Text → List Text
split_commas [] = [] ∷ []
split_commas (c ∷ s) = let rest = split_commas s in if c == b',' then [] ∷ rest else glue c rest

abbrev pub add_all_unique : List Text → List Text → List Text
add_all_unique list [] = list
add_all_unique list (v ∷ vs) = add_all_unique (append_unique list v) vs

module _ (is_http : Text → Bool) where
  unfoldable pub http_parts : List Text → List Text → List Text
  http_parts [] out = out
  http_parts (raw ∷ parts) out =
      let part = trim_space raw in
      http_parts parts (if is_empty part || not (is_http part) then out else append_unique out part)

  unfoldable pub epg_urls_of : List Text → Text → List Text → List Text
  epg_urls_of [] rest out = out
  epg_urls_of (key ∷ keys) rest out =
      let raw = or_blank (lookup key (parse_attrs rest)) in
      epg_urls_of keys rest (if is_empty raw then out else http_parts (split_commas raw) out)

  abbrev pub behind_tag : Text → Text
  behind_tag t =
      if not (ltb (length t) 7) && text_eq (to_upper (take 7 t)) (codes "#EXTM3U")
      then trim_space (drop 7 t)
      else t

  unfoldable pub extract_epg_urls : Text → List Text
  extract_epg_urls header =
      epg_urls_of (codes "url-tvg" ∷ codes "x-tvg-url" ∷ codes "tvg-url" ∷ [])
        (behind_tag (trim_space header)) []

  pub record Parsing : Type 0 where
    pub out : Playlist
    pub pending : Option Entry
    pub line_no : ℕ
    pub saw_header : Bool

  abbrev pub warn : Text → Parsing → Parsing
  warn what p = record p {
    out = record p.out {
      warnings =
          p.out.warnings ++ (codes "line " ++ (decimal 20 p.line_no ++ (codes ": " ++ what))) ∷ [];
    };
  }

  unfoldable pub flush : Parsing → Parsing
  flush p = elim p.pending [
    | none ↦ p
    | some ent ↦
        let done : Parsing = record p { pending = none } in
        if is_empty ent.url then warn (codes "EXTINF without URL, skipped") done else record done {
          out = record p.out {
            entries =
                p.out.entries
                ++ (if is_empty ent.name then record ent { name = ent.url } else ent) ∷ [];
          };
        }
  ]

  abbrev pub with_group : Text → Entry → Entry
  with_group group ent =
      if is_empty ent.group_title then record ent { group_title = group } else ent

  abbrev pub on_pending : (Entry → Entry) → Parsing → Parsing
  on_pending change p = elim p.pending [
    | none ↦ p
    | some ent ↦ record p { pending = some (change ent) }
  ]

  abbrev pub with_extinf : Text → Parsing → Parsing
  with_extinf rest p = elim (parse_extinf rest) [
    | err e ↦ record (warn (codes "malformed EXTINF (missing comma)") p) { pending = none }
    | ok ent ↦ record p { pending = some ent }
  ]

  unfoldable pub tag_line : Text → Parsing → Parsing
  tag_line line p =
      let up = to_upper line in
      if has_prefix up (codes "#EXTM3U")
      then record p {
        saw_header = true;
        out = record p.out { epg_urls = add_all_unique p.out.epg_urls (extract_epg_urls line) };
      }
      else if has_prefix up (codes "#EXTINF:")
      then with_extinf (drop 8 line) (flush p)
      else if has_prefix up (codes "#EXTVLCOPT:")
      then on_pending (λ ent. apply_vlc_opt (trim_space (drop 11 line)) ent) p
      else if has_prefix up (codes "#EXTGRP:")
      then on_pending (λ ent. with_group (trim_space (drop 8 line)) ent) p
      else p

  abbrev pub bare_entry : Text → Entry
  bare_entry line = record {
    name = line;
    number = 0;
    tvg_id = [];
    group_title = [];
    logo_url = [];
    url = [];
    headers = [];
  }

  abbrev pub pending_or_bare : Text → Option Entry → Entry
  pending_or_bare line none = bare_entry line
  pending_or_bare line (some ent) = ent

  unfoldable pub parse_line : Text → Parsing → Parsing
  parse_line raw q =
      let line = trim_space raw in
      let p : Parsing = record q { line_no = q.line_no + 1 } in
      if is_empty line
      then p
      else if has_prefix line (codes "#")
      then tag_line line p
      else flush
          (record p { pending = some (record (pending_or_bare line p.pending) { url = line }) })

  unfoldable pub parse_lines : List Text → Parsing → Parsing
  parse_lines [] p = p
  parse_lines (raw ∷ lines) p = parse_lines lines (parse_line raw p)

  abbrev pub start : Parsing
  start = record {
    out = record { epg_urls = []; entries = []; warnings = [] };
    pending = none;
    line_no = 0;
    saw_header = false;
  }

  abbrev pub is_nil_entries : List Entry → Bool
  is_nil_entries [] = true
  is_nil_entries (e ∷ es) = false

  abbrev pub conclude : Parsing → Result M3uError Playlist
  conclude p =
      if not p.saw_header && is_nil_entries p.out.entries then err not_a_playlist else ok p.out

  unfoldable pub parse : List Text → Result M3uError Playlist
  parse lines = conclude (flush (parse_lines lines start))
