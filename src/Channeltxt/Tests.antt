-- ===== src/Channeltxt/Tests.antt =====
-- internal/core/channeltxt/parse.go on a list with a comment, a URL and a row behind a proxy.
use tvr.Base.{
  List, [], ◌∷◌, All, ◌≡◌, refl, Text, codes, trim_space, to_lower, has_prefix, index_by,
  last_index_by, index, ok,
}
use tvr.Upstream.Resolve.{valid_proxied_link}
use tvr.Channeltxt.{
  Entry, is_http_target, valid_host_port, split_target, cut_row, parse_row, parse_lines, parse,
}
use tvr.Channeltxt.Accepts.{IsRow, parse-IsRow}

abbrev channels : List Text
channels = codes "# news" ∷ codes "One, http://a/1" ∷ codes " Two,239.0.0.1:5000@lan" ∷ []

abbrev entries : List Entry
entries =
    record { name = codes "One"; url = codes "http://a/1"; proxy_name = [] }
    ∷ record { name = codes "Two"; url = codes "239.0.0.1:5000"; proxy_name = codes "lan" }
    ∷ []

channels-parse : parse channels ≡ ok entries
unfolding parse parse_lines parse_row cut_row split_target is_http_target valid_host_port
    valid_proxied_link trim_space to_lower has_prefix index_by last_index_by index
channels-parse = refl

parse-IsRow_example : All IsRow entries
parse-IsRow_example = parse-IsRow channels channels-parse
