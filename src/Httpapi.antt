-- ===== src/Httpapi.antt =====
-- internal/httpapi/relays.go, `handleRelayPlaylist`, with `sanitizePlaylistText` and `escapeAttr` of server.go: the lines of the playlist
-- of a relay, from the lineup that the database has and the base URL of the request.
pub mod Keys
pub mod Readable
pub mod Lookups
pub mod Reading
pub mod RoundTrip
mod Tests
use tvr.Base.{
  ℕ, Bool, true, false, not, ◌||◌, List, [], ◌∷◌, ◌++◌, map, Option, none, some, ◌==◌,
  if◌then◌else◌, Text, codes, is_empty,
}
use tvr.Stream.Copy.{decimal}
use tvr.Epg.Documents.{public_tvg_id}

-- The fields of a lineup entry that are printed.
pub record LineupEntry : Type 0 where
  pub channel_id : Text
  pub name : Text
  pub logo_url : Text
  pub number : ℕ
  pub tvg_id : Text
  pub group_title : Text
  pub epg_source_id : Option ℕ

abbrev pub is_control : ℕ → Bool
is_control c = c == 13 || c == 10 || c == 0

unfoldable pub sanitize_playlist_text : Text → Text
sanitize_playlist_text = map (λ c. if is_control c then b' ' else c)

unfoldable pub escape_quotes : Text → Text
escape_quotes [] = []
escape_quotes (c ∷ s) =
    let rest = escape_quotes s in if c == b'"' then b'\\' ∷ b'"' ∷ rest else c ∷ rest

unfoldable pub escape_attr : Text → Text
unfolding sanitize_playlist_text escape_quotes
escape_attr v = escape_quotes (sanitize_playlist_text v)

abbrev pub source_of : Option ℕ → ℕ
source_of none = 0
source_of (some id) = id

-- A key with the text between its quotes, unless it is left out.
abbrev pub unless : Bool → Text × Text → List (Text × Text) → List (Text × Text)
unless skip a rest = if skip then rest else a ∷ rest

abbrev pub public_id : LineupEntry → Text
public_id e = public_tvg_id (source_of e.epg_source_id) e.tvg_id

unfoldable pub lineup_attrs : LineupEntry → List (Text × Text)
lineup_attrs e =
    unless (is_empty (public_id e)) (codes "tvg-id", escape_attr (public_id e))
      ((codes "tvg-name", escape_attr e.name)
        ∷ unless (is_empty e.logo_url) (codes "tvg-logo", escape_attr e.logo_url)
            (unless (e.number == 0) (codes "tvg-chno", decimal 20 e.number)
              (unless (is_empty e.group_title) (codes "group-title", escape_attr e.group_title)
                [])))

abbrev pub quoted : Text × Text → Text
quoted (k, v) = k ++ (codes "=\"" ++ (v ++ codes "\""))

-- `strings.Join(attrs, " ")`.
abbrev pub join_blank : List Text → Text
join_blank [] = []
join_blank (t ∷ []) = t
join_blank (t ∷ u ∷ rest) = t ++ (b' ' ∷ join_blank (u ∷ rest))

unfoldable pub extinf_line : LineupEntry → Text
extinf_line e =
    codes "#EXTINF:-1 "
    ++ (join_blank (map quoted (lineup_attrs e)) ++ (codes "," ++ sanitize_playlist_text e.name))

unfoldable pub stream_line : Text → LineupEntry → Text
stream_line base e = base ++ (codes "/stream/" ++ e.channel_id)

unfoldable pub entry_lines : Text → List LineupEntry → List Text
entry_lines base [] = []
entry_lines base (e ∷ es) = extinf_line e ∷ stream_line base e ∷ entry_lines base es

unfoldable pub playlist_lines : Text → Text → List LineupEntry → List Text
playlist_lines base slug lineup =
    (codes "#EXTM3U url-tvg=\"" ++ (base ++ (codes "/r/" ++ (slug ++ codes "/epg.xml\""))))
    ∷ entry_lines base lineup
