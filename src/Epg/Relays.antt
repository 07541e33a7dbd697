-- ===== src/Epg/Relays.antt =====
-- internal/core/epg/relay_builder.go and service.go, `processRelay`: the guide of a relay. What the database and the disk answer is
-- an argument, and `%q` is the text between quotes.
use tvr.Base.{
  ℕ, Bool, not, ◌||◌, List, [], ◌∷◌, ◌++◌, Option, none, some, ◌==◌, if◌then◌else◌, Text, codes,
  is_empty, Dict, lookup, insert, nat_eq, text_key, Result, ok, err,
}
use tvr.Stream.Copy.{decimal}
use tvr.Utils.Natsort.{Unicode}
use tvr.Epg.Documents.{TvDocument, public_tvg_id, merge_document}
use tvr.Epg.Service.{Service, GenerationFile, set_ok, set_error}
use tvr.Epg.Manifest.{eligible_source}
use tvr.Epg.Refresh.{Lookup, found, missing, lookup_failed, EpgSource}

-- A channel of a relay that is bound to a channel of a source.
pub record Mapping : Type 0 where
  pub relay_id : ℕ
  pub source_id : ℕ
  pub tvg_id : Text

abbrev pub rewrites_of : Option (Dict Text Text) → Dict Text Text
rewrites_of none = []
rewrites_of (some d) = d

-- The loop that fills `allowed`.
unfoldable pub allow : ℕ → List Mapping → Dict ℕ (Dict Text Text) → Dict ℕ (Dict Text Text)
allow relay_id [] allowed = allowed
allow relay_id (m ∷ ms) allowed =
    let public_id = public_tvg_id m.source_id m.tvg_id in
    allow relay_id ms (
      if not (m.relay_id == relay_id) || is_empty public_id
      then allowed
      else insert m.source_id (insert m.tvg_id public_id (rewrites_of (lookup m.source_id allowed)))
          allowed)

pub record RelayRow : Type 0 where
  pub slug : Text

-- One more guide in front of those of the rest.
abbrev pub with_doc :
    GenerationFile
    → Dict Text Text
    → Service × Result Text (List (TvDocument × Dict Text Text))
    → Service × Result Text (List (TvDocument × Dict Text Text))
with_doc g rewrite (s, err e) = (s, err e)
with_doc g rewrite (s, ok docs) = (s, ok ((g.doc, rewrite) ∷ docs))

-- The loop over the sources that are needed: the guides, or what is missing.
unfoldable pub load_docs :
    Unicode
    → Text
    → (ℕ → Lookup EpgSource)
    → (ℕ → Bool)
    → Dict ℕ (Dict Text Text)
    → Service
    → Service × Result Text (List (TvDocument × Dict Text Text))
load_docs u slug source_of readable [] s = (s, ok [])
load_docs u slug source_of readable ((id, rewrite) ∷ rest) s = elim (source_of id) [
  | missing ↦ (
    s,
    err (
        codes "relay "
        ++ (slug ++ (codes " incomplete: source " ++ (decimal 20 id ++ codes " unavailable")))),
  )
  | lookup_failed e ↦ (
    s,
    err (
        codes "relay "
        ++ (slug ++ (codes " incomplete: source " ++ (decimal 20 id ++ codes " unavailable")))),
  )
  | found src ↦
      let (s', eligible) = eligible_source u (readable id) id src.url s in
      elim eligible [
        | none ↦ (
          s',
          err (
              codes "relay "
              ++ (slug
                  ++ (codes " incomplete: source \"" ++ (src.name ++ codes "\" unavailable")))),
        )
        | some g ↦
            if not (readable id)
            then (
              s',
              err (
                  codes "relay "
                  ++ (slug
                      ++ (codes " incomplete: source \"" ++ (src.name ++ codes "\" unreadable")))),
            )
            else with_doc g rewrite (load_docs u slug source_of readable rest s')
      ]
]

unfoldable pub merge_all : List (TvDocument × Dict Text Text) → TvDocument → TvDocument
merge_all [] dst = dst
merge_all ((doc, rewrite) ∷ docs) dst = merge_all docs (merge_document (some doc) rewrite dst)

abbrev pub empty_document : TvDocument
empty_document = record { generator_info_name = codes "tvr"; channels = []; programmes = [] }

abbrev pub write_cache : Text → TvDocument → Service → Service
write_cache slug doc s = record s {
  files = record s.files { caches = insert slug doc s.files.caches };
}

pub record RelayAnswers : Type 0 where
  pub relay : Lookup RelayRow
  pub mappings : Result Text (List Mapping)
  pub source_of : ℕ → Lookup EpgSource
  -- Whether the guide of a source can be parsed.
  pub readable : ℕ → Bool
  pub cache_written : Result Text (Unit {0})
  pub now : ℕ

unfoldable pub build_relay :
    Unicode → ℕ → Text → List Mapping → RelayAnswers → Service → Service × Option Text
build_relay u id slug mappings a s =
    let (s', loaded) = load_docs u slug a.source_of a.readable (allow id mappings []) s in
    elim loaded [
      | err e ↦ (set_error e s', none)
      | ok docs ↦ elim a.cache_written [
        | err e ↦ (s', some e)
        | ok w ↦ (set_ok a.now (write_cache slug (merge_all docs empty_document) s'), none)
      ]
    ]

unfoldable pub process_relay : Unicode → ℕ → RelayAnswers → Service → Service × Option Text
process_relay u id a s = elim a.relay [
  | missing ↦ (s, none)
  | lookup_failed e ↦ (s, some e)
  | found relay ↦ elim a.mappings [
    | err e ↦ (s, some e)
    | ok mappings ↦ build_relay u id relay.slug mappings a s
  ]
]
