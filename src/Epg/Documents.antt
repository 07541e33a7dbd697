-- ===== src/Epg/Documents.antt =====
-- internal/core/epg/service.go, relay_builder.go and public.go: a guide as data, the public ids, and the merge of guides.
-- A time is the text that the guide has, and an id of the database is a natural number.
use tvr.Base.{
  ℕ, Bool, ◌||◌, List, [], ◌∷◌, ◌++◌, Option, none, some, ◌==◌, if◌then◌else◌, Text, codes,
  is_empty, trim_space, Dict, lookup, insert, text_key, to_lower, has_prefix, text_eq,
}
use tvr.Stream.Copy.{decimal}

pub record TvText : Type 0 where
  pub lang : Text
  pub text : Text

pub record TvChannel : Type 0 where
  pub id : Text
  pub display_names : List TvText
  pub icons : List Text

pub record TvProgramme : Type 0 where
  pub start : Text
  pub stop : Text
  pub channel : Text
  pub titles : List TvText
  pub descs : List TvText
  pub cats : List TvText
  pub icons : List Text

pub record TvDocument : Type 0 where
  pub generator_info_name : Text
  pub channels : Dict Text TvChannel
  pub programmes : List TvProgramme

-- `PublicTvgID`: empty if either input is missing.
unfoldable pub public_tvg_id : ℕ → Text → Text
public_tvg_id source_id source_tvg_id =
    let tvg = trim_space source_tvg_id in
    if source_id == 0 || is_empty tvg
    then []
    else codes "epg" ++ (decimal 20 source_id ++ (codes "-" ++ tvg))

-- The two loops of `mergeDocument`; `rewrite` gives the public id of a channel that the relay wants.
abbrev pub merge_channel : Option Text → TvChannel → Dict Text TvChannel → Dict Text TvChannel
merge_channel none ch dst = dst
merge_channel (some public_id) ch dst = insert public_id (record ch { id = public_id }) dst

unfoldable pub merge_channels :
    Dict Text Text → Dict Text TvChannel → Dict Text TvChannel → Dict Text TvChannel
merge_channels rewrite [] dst = dst
merge_channels rewrite ((id, ch) ∷ rest) dst =
    merge_channels rewrite rest (merge_channel (lookup id rewrite) ch dst)

abbrev pub rename_programme : Option Text → TvProgramme → List TvProgramme
rename_programme none prog = []
rename_programme (some public_id) prog = record prog { channel = public_id } ∷ []

unfoldable pub merge_programmes : Dict Text Text → List TvProgramme → List TvProgramme
merge_programmes rewrite [] = []
merge_programmes rewrite (prog ∷ progs) =
    rename_programme (lookup prog.channel rewrite) prog ++ merge_programmes rewrite progs

unfoldable pub merge_document : Option TvDocument → Dict Text Text → TvDocument → TvDocument
merge_document none rewrite dst = dst
merge_document (some src) rewrite dst = record dst {
  channels = merge_channels rewrite src.channels dst.channels;
  programmes = dst.programmes ++ merge_programmes rewrite src.programmes;
}

-- `preferText`: the first English text, else the first that is not blank.
abbrev pub is_english : Text → Bool
is_english lang =
    text_eq lang (codes "en") || (has_prefix lang (codes "en-") || has_prefix lang (codes "en_"))

unfoldable pub first_english : List TvText → Text
first_english [] = []
first_english (it ∷ items) =
    let rest = first_english items in
    if is_empty (trim_space it.text)
    then rest
    else if is_english (to_lower (trim_space it.lang))
    then trim_space it.text
    else rest

unfoldable pub first_text : List TvText → Text
first_text [] = []
first_text (it ∷ items) =
    let rest = first_text items in
    if is_empty (trim_space it.text) then rest else trim_space it.text

unfoldable pub prefer_text : List TvText → Text
prefer_text items = if is_empty (first_english items) then first_text items else first_english items
