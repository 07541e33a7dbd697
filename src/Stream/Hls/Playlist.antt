-- ===== src/Stream/Hls/Playlist.antt =====
-- internal/core/stream/hls.go: the parser of playlists and the choice of a variant, on the lines of the text.
-- Numbers are parsed by `strconv`: the two parsers and the type of durations are arguments.
-- A line is not so long that the scanner refuses it.
use tvr.Base.{
  ℕ, ◌+◌, Bool, true, false, not, ◌&&◌, ◌||◌, List, [], ◌∷◌, ◌++◌, Option, none, some, length, drop,
  take, ltb, leb, ◌==◌, if◌then◌else◌, Text, codes, is_empty, trim_space, to_upper, to_lower,
  has_prefix, has_suffix, index, index_by, contains, Result, ok, err,
}
use tvr.Base.Int.{ℤ, pos, ◌+ℤ◌}

pub record HlsSegment (F : Type 0) : Type 0 where
  pub uri : Text
  pub duration : F
  pub seq : ℤ

pub record HlsVariant : Type 0 where
  pub uri : Text
  pub bandwidth : ℕ

pub record HlsPlaylist (F : Type 0) : Type 0 where
  pub is_master : Bool
  pub end_list : Bool
  pub target_duration : F
  pub media_sequence : ℤ
  pub segments : List (HlsSegment F)
  pub variants : List HlsVariant

pub data PlaylistError : Type 0 where
  not_hls encrypted byte_ranges fmp4_map : PlaylistError

-- What the package `strconv` and the arithmetic of float64 do.
pub record Numbers (F : Type 0) : Type 0 where
  pub parse_float : Text → F
  pub parse_int : Text → ℤ
  pub atoi : Text → ℕ
  pub zero_float : F
  pub six : F
  pub is_positive : F → Bool

-- The cases of the switch, in its order.
pub data Line : Type 0 where
  blank stream_inf rendition key byterange map_tag end_tag target sequence inf comment uri_line :
      Line

unfoldable pub classify : Text → Line
classify line =
    let upper = to_upper line in
    if is_empty line
    then blank
    else if has_prefix upper (codes "#EXT-X-STREAM-INF:")
    then stream_inf
    else if has_prefix upper (codes "#EXT-X-MEDIA:")
    then rendition
    else if has_prefix upper (codes "#EXT-X-KEY:")
    then key
    else if has_prefix upper (codes "#EXT-X-BYTERANGE:")
    then byterange
    else if has_prefix upper (codes "#EXT-X-MAP:")
    then map_tag
    else if has_prefix upper (codes "#EXT-X-ENDLIST")
    then end_tag
    else if has_prefix upper (codes "#EXT-X-TARGETDURATION:")
    then target
    else if has_prefix upper (codes "#EXT-X-MEDIA-SEQUENCE:")
    then sequence
    else if has_prefix upper (codes "#EXTINF:")
    then inf
    else if has_prefix line (codes "#")
    then comment
    else uri_line

abbrev pub is_number_byte : ℕ → Bool
is_number_byte c = leb b'0' c && leb c b'9'

abbrev pub take_while : (ℕ → Bool) → Text → Text
take_while p [] = []
take_while p (c ∷ s) = if p c then c ∷ take_while p s else []

abbrev pub before : Option ℕ → Text → Text
before none s = s
before (some i) s = take i s

module _ {F : Type 0} (num : Numbers F) where
  unfoldable pub attr_int : Text → Text → ℕ
  attr_int line name =
      let mark = to_upper name ++ codes "=" in
      elim (index (to_upper line) mark) [
        | none ↦ 0
        | some i ↦ num.atoi (take_while is_number_byte (drop (i + length mark) line))
      ]

  -- The playlist so far with the other variables of the loop.
  pub record Scan : Type 0 where
    pub playlist : HlsPlaylist F
    pub pending_duration : F
    pub pending_bandwidth : ℕ
    pub seq : ℤ
    pub saw_media : Bool

  unfoldable pub scan_uri : Text → Scan → Scan
  scan_uri line c =
      let pl = c.playlist in
      if pl.is_master && not c.saw_media
      then record c {
        playlist = record pl {
          variants = pl.variants ++ (record { uri = line; bandwidth = c.pending_bandwidth }) ∷ [];
        };
        pending_bandwidth = 0;
      }
      else record c {
        playlist = record pl {
          segments =
              pl.segments
              ++ (record { uri = line; duration = c.pending_duration; seq = c.seq }) ∷ [];
        };
        seq = c.seq +ℤ pos 1;
        pending_duration = num.zero_float;
      }

  unfoldable pub scan_line : Line → Text → Scan → Result PlaylistError Scan
  scan_line blank line c = ok c
  scan_line stream_inf line c = ok (record c {
    playlist = record c.playlist { is_master = true };
    pending_bandwidth = attr_int line (codes "BANDWIDTH");
  })
  scan_line rendition line c = ok c
  scan_line key line c = err encrypted
  scan_line byterange line c = err byte_ranges
  scan_line map_tag line c = err fmp4_map
  scan_line end_tag line c = ok (record c { playlist = record c.playlist { end_list = true } })
  scan_line target line c = ok (record c {
    playlist = record c.playlist {
      target_duration =
          num.parse_float (trim_space (drop (length (codes "#EXT-X-TARGETDURATION:")) line));
    };
  })
  scan_line sequence line c =
      let n = num.parse_int (trim_space (drop (length (codes "#EXT-X-MEDIA-SEQUENCE:")) line)) in
      ok (record c { playlist = record c.playlist { media_sequence = n }; seq = n })
  scan_line inf line c =
      let rest = drop (length (codes "#EXTINF:")) line in
      ok (record c {
        saw_media = true;
        pending_duration =
            num.parse_float (trim_space (before (index_by (λ b. b == b',') rest) rest));
      })
  scan_line comment line c = ok c
  scan_line uri_line line c = ok (scan_uri line c)

  unfoldable pub scan_lines : List Text → Scan → Result PlaylistError Scan
  scan_lines [] c = ok c
  scan_lines (raw ∷ lines) c = elim (scan_line (classify (trim_space raw)) (trim_space raw) c) [
    | err e ↦ err e
    | ok c' ↦ scan_lines lines c'
  ]

  abbrev pub start : Scan
  start = record {
    playlist = record {
      is_master = false;
      end_list = false;
      target_duration = num.zero_float;
      media_sequence = pos 0;
      segments = [];
      variants = [];
    };
    pending_duration = num.zero_float;
    pending_bandwidth = 0;
    seq = pos 0;
    saw_media = false;
  }

  abbrev pub with_target : HlsPlaylist F → HlsPlaylist F
  with_target pl =
      if num.is_positive pl.target_duration then pl else record pl { target_duration = num.six }

  -- The text and its lines, as the scanner splits them.
  unfoldable pub parse_hls_playlist : Text → List Text → Result PlaylistError (HlsPlaylist F)
  parse_hls_playlist text lines =
      if not (contains text (codes "#EXTM3U"))
      then err not_hls
      else elim (scan_lines lines start) [ err e ↦ err e | ok c ↦ ok (with_target c.playlist) ]

-- The variants are not empty where the program picks one: the first and the others.
unfoldable pub pick_variant : HlsVariant → List HlsVariant → HlsVariant
pick_variant best [] = best
pick_variant best (v ∷ vs) = pick_variant (if ltb best.bandwidth v.bandwidth then v else best) vs

unfoldable pub looks_like_hls : Text → Text → Bool
looks_like_hls content_type body =
    let ct = to_lower content_type in
    if contains ct (codes "mpegurl") || contains ct (codes "m3u8")
    then true
    else has_prefix (trim_space body) (codes "#EXTM3U")

abbrev pub has_some_suffix : Text → List Text → Bool
has_some_suffix s [] = false
has_some_suffix s (p ∷ ps) = has_suffix s p || has_some_suffix s ps

unfoldable pub is_ts_segment_uri : Text → Bool
is_ts_segment_uri raw =
    let path = before (index_by (λ b. b == b'?' || b == b'#') raw) raw in
    not (
      has_some_suffix (to_lower path) (
        codes ".mp4"
        ∷ codes ".m4s"
        ∷ codes ".m4v"
        ∷ codes ".m4a"
        ∷ codes ".cmfv"
        ∷ codes ".cmfa"
        ∷ codes ".aac"
        ∷ codes ".vtt"
        ∷ codes ".mp3"
        ∷ []))
