-- ===== src/M3u/Tests.antt =====
-- internal/core/m3u/parser.go on small playlists.
use tvr.Base.{
  true, [], ◌∷◌, codes, trim_space, trim_left, trim_right, is_space, has_prefix, to_lower, to_upper,
  text_eq, index_by, lookup, insert, delete, text_key, ok, ◌≡◌, refl,
}
use tvr.Stream.Copy.{decimal}
use tvr.M3u.{
  apply_vlc_opt, parse_extinf, split_extinf, cut_comma, parse_attrs, attr_loop, one_attr, value_of,
  entry_of_attrs, first_attr, atoi, digits_value,
}
use tvr.M3u.Parsing.{
  http_parts, epg_urls_of, extract_epg_urls, split_commas, flush, tag_line, parse_line, parse_lines,
  parse,
}

-- A header for a user agent, a number, a group of its own, and an entry without a URL.
basic :
    parse
      (λ t. true)
      (codes "#EXTM3U"
        ∷ codes "#EXTINF:-1 tvg-id=\"c1\" tvg-chno=7,CCTV-1"
        ∷ codes "#EXTVLCOPT:http-user-agent=UA"
        ∷ codes " #extgrp: News "
        ∷ codes "http://a/1.ts"
        ∷ codes "#EXTINF:-1,Lost"
        ∷ [])
    ≡ ok (record {
      epg_urls = [];
      entries =
          record {
            name = codes "CCTV-1";
            number = 7;
            tvg_id = codes "c1";
            group_title = codes "News";
            logo_url = [];
            url = codes "http://a/1.ts";
            headers = (codes "User-Agent", codes "UA") ∷ [];
          }
          ∷ [];
      warnings = codes "line 6: EXTINF without URL, skipped" ∷ [];
    })
unfolding parse parse_lines parse_line tag_line flush extract_epg_urls epg_urls_of http_parts
    split_commas apply_vlc_opt parse_extinf split_extinf cut_comma parse_attrs attr_loop one_attr
    value_of entry_of_attrs first_attr atoi digits_value trim_left trim_right trim_space is_space
    index_by to_lower to_upper has_prefix lookup insert delete text_eq decimal
basic = refl
