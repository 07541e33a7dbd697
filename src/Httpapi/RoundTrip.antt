-- ===== src/Httpapi/RoundTrip.antt =====
-- internal/httpapi/relays.go and internal/core/m3u/parser.go: the lines of a playlist, one after another.
use tvr.Base.{
  ℕ, ◌+◌, Bool, true, false, List, [], ◌∷◌, ◌++◌, append-nil, append_assoc, map, All, Option, none,
  some, Text, codes, is_empty, is_space, trim_space, trim_left, trim_right, to_upper, has_prefix,
  ok, ◌≡◌, refl, sym, ap, ◌∙◌,
}
use tvr.Epg.Service.{is_nil}
use tvr.M3u.{Entry, Playlist, parse_extinf}
use tvr.M3u.Attrs.{joined}
use tvr.M3u.Cuts.{trim_space-append}
use tvr.M3u.Parsing.{
  Parsing, start, tag_line, with_extinf, parse_line, parse_lines, flush, conclude, parse,
  extract_epg_urls, add_all_unique,
}
use tvr.Httpapi.{
  LineupEntry, unless, public_id, extinf_line, stream_line, entry_lines, playlist_lines,
}
use tvr.Httpapi.Readable.{parse_extinf-joined}
use tvr.Httpapi.Keys.{
  IsReadable, plain_attrs, plain_attrs-IsKeyed, lineup_attrs-plain, join_blank-joined,
  sanitize-IsPlain,
}
use tvr.Httpapi.Reading.{entry_of_attrs-plain}
use tvr.Httpapi.Lookups.{bare}

-- The entry that a lineup entry is read back as.
abbrev pub entry_of : Text → LineupEntry → Entry
entry_of base e = record {
  name = e.name;
  number = e.number;
  tvg_id = public_id e;
  group_title = e.group_title;
  logo_url = e.logo_url;
  url = stream_line base e;
  headers = [];
}

abbrev line_of : LineupEntry → Text
line_of e = codes "#EXTINF:-1 " ++ (joined (plain_attrs e) ++ (b',' ∷ e.name))

extinf_line-plain : (base : Text) (e : LineupEntry) → IsReadable base e → extinf_line e ≡ line_of e
unfolding extinf_line
extinf_line-plain base e h =
    rw
      (
        lineup_attrs-plain base e h,
        join_blank-joined (plain_attrs e),
        sanitize-IsPlain e.name h.name_plain.1,
      )
      refl

line_of-trimmed :
    (base : Text) (e : LineupEntry) → IsReadable base e → trim_space (line_of e) ≡ line_of e
unfolding is_space
line_of-trimmed base e h =
    let behind = codes "EXTINF:-1 " ++ (joined (plain_attrs e) ++ (b',' ∷ [])) in
    let same : line_of e ≡ (b'#' ∷ behind) ++ e.name =
      ap (λ x. codes "#EXTINF:-1 " ++ x)
        (sym (append_assoc (joined (plain_attrs e)) (b',' ∷ []) e.name)) in
    ap trim_space same
    ∙ (trim_space-append b'#' behind e.name refl h.named h.name_plain.2 ∙ sym same)

unless-full :
    (skip : Bool) (a b : Text × Text) (rest : List (Text × Text))
    → is_nil (unless skip a (b ∷ rest)) ≡ false
unless-full true a b rest = refl
unless-full false a b rest = refl

plain_attrs-full : (e : LineupEntry) → is_nil (plain_attrs e) ≡ false
plain_attrs-full e = unless-full (is_empty (public_id e)) _ _ _

parse_extinf-line :
    (base : Text) (e : LineupEntry)
    → IsReadable base e
    → parse_extinf (b'-' ∷ b'1' ∷ b' ' ∷ (joined (plain_attrs e) ++ (b',' ∷ e.name)))
      ≡ ok (bare e.name e.number (public_id e) e.group_title e.logo_url)
parse_extinf-line base e h =
    parse_extinf-joined (plain_attrs e) e.name (plain_attrs-full e) (plain_attrs-IsKeyed base e h)
      h.name_plain.2
    ∙ ap ok (entry_of_attrs-plain base e h)

module _ (is_http : Text → Bool) where
  abbrev at : Playlist → Option Entry → ℕ → Bool → Parsing is_http
  at out pending n saw = record { out = out; pending = pending; line_no = n; saw_header = saw }

  parse_line-tag :
      (t : Text) (p : Parsing is_http)
      → trim_space (b'#' ∷ t) ≡ b'#' ∷ t
      → parse_line is_http (b'#' ∷ t) p
        ≡ tag_line is_http (b'#' ∷ t) (record p { line_no = p.line_no + 1 })
  unfolding parse_line has_prefix
  parse_line-tag t p h = rw (parse_line, h) refl

  tag_line-extinf :
      (rest : Text) (p : Parsing is_http)
      → tag_line is_http (codes "#EXTINF:" ++ rest) p ≡ with_extinf is_http rest (flush is_http p)
  unfolding tag_line has_prefix to_upper
  tag_line-extinf rest p = refl

  with_extinf-ok :
      (rest : Text) (ent : Entry) (p : Parsing is_http)
      → parse_extinf rest ≡ ok ent
      → with_extinf is_http rest p ≡ record p { pending = some ent }
  with_extinf-ok rest ent p h = rw (with_extinf, h) refl

  tag_line-header :
      (rest : Text) (p : Parsing is_http)
      → tag_line is_http (codes "#EXTM3U" ++ rest) p ≡ record p {
        saw_header = true;
        out = record p.out {
          epg_urls =
              add_all_unique p.out.epg_urls (extract_epg_urls is_http (codes "#EXTM3U" ++ rest));
        };
      }
  unfolding tag_line has_prefix to_upper
  tag_line-header rest p = refl

  parse_line-extinf :
      (base : Text) (e : LineupEntry) (out : Playlist) (n : ℕ) (saw : Bool)
      → IsReadable base e
      → parse_line is_http (extinf_line e) (at out none n saw)
        ≡ at out (some (bare e.name e.number (public_id e) e.group_title e.logo_url)) (n + 1) saw
  unfolding flush
  parse_line-extinf base e out n saw h =
      ap (λ x. parse_line is_http x (at out none n saw)) (extinf_line-plain base e h)
      ∙ parse_line-tag (codes "EXTINF:-1 " ++ (joined (plain_attrs e) ++ (b',' ∷ e.name)))
          (at out none n saw) (line_of-trimmed base e h)
      ∙ tag_line-extinf (codes "-1 " ++ (joined (plain_attrs e) ++ (b',' ∷ e.name)))
          (at out none (n + 1) saw)
      ∙ with_extinf-ok (codes "-1 " ++ (joined (plain_attrs e) ++ (b',' ∷ e.name)))
          (bare e.name e.number (public_id e) e.group_title e.logo_url) (at out none (n + 1) saw)
          (parse_extinf-line base e h)

  parse_line-stream :
      (base : Text) (e : LineupEntry) (out : Playlist) (n : ℕ) (saw : Bool)
      → IsReadable base e
      → parse_line is_http
          (stream_line base e)
          (at out (some (bare e.name e.number (public_id e) e.group_title e.logo_url)) n saw)
        ≡ at (record out { entries = out.entries ++ entry_of base e ∷ [] }) none (n + 1) saw
  unfolding parse_line flush
  parse_line-stream base e out n saw h = rw (h.url_trimmed, h.url_full, h.url_bare, h.named) refl

  abbrev after : ℕ → List LineupEntry → ℕ
  after n [] = n
  after n (e ∷ es) = after (n + 1 + 1) es

  parse_lines-entries :
      (base : Text) (es : List LineupEntry) (out : Playlist) (n : ℕ) (saw : Bool)
      → All (IsReadable base) es
      → parse_lines is_http (entry_lines base es) (at out none n saw)
        ≡ at (record out { entries = out.entries ++ map (entry_of base) es }) none (after n es) saw
  unfolding parse_lines entry_lines
  parse_lines-entries base [] out n saw h =
      ap (λ x. at (record out { entries = x }) none n saw) (sym (append-nil out.entries))
  parse_lines-entries base (e ∷ es) out n saw h =
      let read = bare e.name e.number (public_id e) e.group_title e.logo_url in
      let out' : Playlist = record out { entries = out.entries ++ entry_of base e ∷ [] } in
      ap
        (λ x. parse_lines is_http (entry_lines base es) (parse_line is_http (stream_line base e) x))
        (parse_line-extinf base e out n saw h.0)
      ∙ ap (parse_lines is_http (entry_lines base es))
          (parse_line-stream base e out (n + 1) saw h.0)
      ∙ parse_lines-entries base es out' (n + 1 + 1) saw h.1
      ∙ ap (λ x. at (record out { entries = x }) none (after (n + 1 + 1) es) saw)
          (append_assoc out.entries (entry_of base e ∷ []) (map (entry_of base) es))

  -- A text that ends in a quote.
  abbrev IsEnded : Text → Type 0
  IsEnded s = (xs : Text) × (s ≡ xs ++ (b'"' ∷ []))

  IsEnded-append : (a s : Text) → IsEnded s → IsEnded (a ++ s)
  IsEnded-append a s (xs, e) = (a ++ xs, ap (λ x. a ++ x) e ∙ sym (append_assoc a xs (b'"' ∷ [])))

  -- The header line.
  abbrev behind_hash : Text → Text → Text
  behind_hash base slug =
      codes "EXTM3U url-tvg=\"" ++ (base ++ (codes "/r/" ++ (slug ++ codes "/epg.xml\"")))

  header_trimmed :
      (base slug : Text) → trim_space (b'#' ∷ behind_hash base slug) ≡ b'#' ∷ behind_hash base slug
  unfolding is_space trim_space trim_left trim_right
  header_trimmed base slug =
      let (xs, e) = IsEnded-append (codes "EXTM3U url-tvg=\"") _ (
        IsEnded-append base _ (
          IsEnded-append (codes "/r/") _
            (IsEnded-append slug (codes "/epg.xml\"") (codes "/epg.xml", refl)))) in
      ap (λ x. trim_space (b'#' ∷ x)) e
      ∙ (trim_space-append b'#' xs (b'"' ∷ []) refl refl refl ∙ ap (◌∷◌ b'#') (sym e))

  parse_line-header :
      (base slug : Text)
      → (urls : List Text) × (parse_line is_http (b'#' ∷ behind_hash base slug) (start is_http)
          ≡ at (record { epg_urls = urls; entries = []; warnings = [] }) none (0 + 1) true)
  parse_line-header base slug = (
    _,
    parse_line-tag (behind_hash base slug) (start is_http) (header_trimmed base slug)
        ∙ tag_line-header
            (codes " url-tvg=\"" ++ (base ++ (codes "/r/" ++ (slug ++ codes "/epg.xml\""))))
            (record (start is_http) { line_no = 0 + 1 }),
  )

  -- The playlist that is printed for a lineup parses without a warning, and gives the lineup back: an entry for each, in its
  -- order, with its name, number, public guide id, group, logo and stream URL. The entries have texts without quotes, line ends
  -- and blanks around them, a name, a number of at most 63 bits, and a stream URL that is not blank and no tag.
  pub parse-playlist_lines :
      (base slug : Text) (lineup : List LineupEntry)
      → All (IsReadable base) lineup
      → (urls : List Text) × (parse is_http (playlist_lines base slug lineup)
          ≡ ok (record { epg_urls = urls; entries = map (entry_of base) lineup; warnings = [] }))
  unfolding parse parse_lines playlist_lines flush
  parse-playlist_lines base slug lineup h =
      let (urls, e) = parse_line-header base slug in
      let out : Playlist = record { epg_urls = urls; entries = []; warnings = [] } in
      (
        urls,
        ap (λ x. conclude is_http (flush is_http (parse_lines is_http (entry_lines base lineup) x)))
              e
            ∙ ap (λ x. conclude is_http (flush is_http x))
                (parse_lines-entries base lineup out (0 + 1) true h),
      )
