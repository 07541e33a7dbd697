-- ===== src/Httpapi/Tests.antt =====
-- internal/httpapi/relays.go on a lineup of two channels, and on a name with quotes.
use tvr.Base.{
  true, List, [], ◌∷◌, none, some, Text, codes, trim_space, trim_left, trim_right, is_space,
  has_prefix, to_lower, text_eq, index_by, lookup, insert, delete, text_key, ok, ◌≡◌, refl, map,
  arith,
}
use tvr.Stream.Copy.{decimal}
use tvr.Epg.Documents.{public_tvg_id}
use tvr.M3u.{parse_attrs, attr_loop, one_attr, value_of}
use tvr.M3u.Parsing.{parse}
use tvr.Httpapi.{
  LineupEntry, playlist_lines, stream_line, sanitize_playlist_text, escape_quotes, escape_attr,
}
use tvr.Httpapi.Keys.{IsReadable}
use tvr.Httpapi.RoundTrip.{entry_of, parse-playlist_lines}

abbrev base : Text
base = codes "http://tv:80"

abbrev news : LineupEntry
news = record {
  channel_id = codes "n1";
  name = codes "News, 1";
  logo_url = codes "http://l/n.png";
  number = 12;
  tvg_id = codes "news";
  group_title = codes "Main";
  epg_source_id = some 3;
}

abbrev radio : LineupEntry
radio = record {
  channel_id = codes "r";
  name = codes "Radio";
  logo_url = [];
  number = 0;
  tvg_id = [];
  group_title = [];
  epg_source_id = none;
}

news-IsReadable : IsReadable base news
unfolding trim_space trim_left trim_right is_space has_prefix stream_line public_tvg_id decimal
news-IsReadable = record {
  named = refl;
  name_plain = (refl, refl, refl);
  id_plain = (refl, refl, refl);
  logo_plain = (refl, refl, refl);
  group_plain = (refl, refl, refl);
  number_fits = omega arith;
  url_full = refl;
  url_trimmed = refl;
  url_bare = refl;
}

radio-IsReadable : IsReadable base radio
unfolding trim_space trim_left trim_right is_space has_prefix stream_line public_tvg_id decimal
radio-IsReadable = record {
  named = refl;
  name_plain = (refl, refl, refl);
  id_plain = (refl, refl, refl);
  logo_plain = (refl, refl, refl);
  group_plain = (refl, refl, refl);
  number_fits = omega arith;
  url_full = refl;
  url_trimmed = refl;
  url_bare = refl;
}

parse-playlist_lines_example :
    (urls : List Text) × (parse (λ t. true) (playlist_lines base (codes "home") (news ∷ radio ∷ []))
      ≡ ok (record {
        epg_urls = urls;
        entries = map (entry_of base) (news ∷ radio ∷ []);
        warnings = [];
      }))
parse-playlist_lines_example =
    parse-playlist_lines (λ t. true) base (codes "home") (news ∷ radio ∷ [])
      (news-IsReadable, (radio-IsReadable, tt))

-- The attributes of a channel whose name has quotes: they are written with a backslash in front, which the parser
-- does not read, so the logo is not found.
abbrev quoted_name : Text
quoted_name = codes "tvg-name=\"A \\\"B\\\" C\" tvg-logo=\"http://l\""

logo_lost : lookup (codes "tvg-logo") (parse_attrs quoted_name) ≡ none
unfolding parse_attrs attr_loop one_attr value_of trim_left trim_right trim_space is_space index_by
    to_lower lookup insert delete text_eq
logo_lost = refl

escaped : escape_attr (codes "A \"B\" C") ≡ codes "A \\\"B\\\" C"
unfolding escape_attr escape_quotes sanitize_playlist_text
escaped = refl
