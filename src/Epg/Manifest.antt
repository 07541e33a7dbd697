-- ===== src/Epg/Manifest.antt =====
-- internal/core/epg/manifest.go, `eligibleSource`: the guide of a source, if it is the one of the URL that the database has. Whether the
-- XML of a file can be parsed is an argument; parsed, it is the document that was written. An index that is mended is not written back.
pub mod Backed
use tvr.Base.{
  ℕ, Bool, true, false, not, ◌&&◌, List, [], ◌∷◌, Option, none, some, ◌==◌, if◌then◌else◌, Text,
  text_eq, is_empty, trim_space, lookup, insert, nat_eq,
}
use tvr.Utils.Natsort.{Unicode}
use tvr.Epg.Service.{Service, SourceManifest, IndexTag, GenerationFile, Files}
use tvr.Epg.Order.{index_from_doc}

-- The generation that a manifest names, if its files are there.
unfoldable pub find_generation : ℕ → Text → List GenerationFile → Option GenerationFile
find_generation id gen [] = none
find_generation id gen (g ∷ gs) =
    let rest = find_generation id gen gs in
    if g.source == id && text_eq g.generation gen then some g else rest

abbrev pub tag_fits : Text → Text → Option IndexTag → Bool
tag_fits gen url none = false
tag_fits gen url (some tag) = text_eq tag.generation gen && text_eq (trim_space tag.source_url) url

-- The index made again from the XML, if that can be parsed.
abbrev pub index_from_xml : Unicode → Bool → Text → Text → GenerationFile → Option IndexTag
index_from_xml u readable gen url g =
    if readable
    then some (record { source_url = url; generation = gen; channels = index_from_doc u g.doc })
    else none

-- The index on the disk if it fits, else the one made from the XML.
abbrev pub index_on_disk : Unicode → Bool → Text → Text → GenerationFile → Option IndexTag
index_on_disk u readable gen url g = elim g.index [
  | none ↦ index_from_xml u readable gen url g
  | some idx ↦
      if tag_fits gen url (some idx)
      then some (record { source_url = url; generation = gen; channels = idx.channels })
      else index_from_xml u readable gen url g
]

abbrev pub manifest_fits : Text → SourceManifest → Bool
manifest_fits url m =
    let manifest_url = trim_space m.source_url in
    not (is_empty m.generation) && (not (is_empty manifest_url) && text_eq manifest_url url)

-- `eligibleSource`: the guide of a source, if the manifest is for the URL that the database has. The index in memory
-- is mended on the way.
unfoldable pub eligible_source :
    Unicode → Bool → ℕ → Text → Service → Service × Option GenerationFile
eligible_source u readable id db_url s =
    let url = trim_space db_url in
    elim (lookup id s.files.manifests) [
      | none ↦ (s, none)
      | some m ↦
          if not (manifest_fits url m)
          then (s, none)
          else elim (find_generation id m.generation s.files.generations) [
            | none ↦ (s, none)
            | some g ↦
                if tag_fits m.generation url (lookup id s.indexes)
                then (s, some g)
                else elim (index_on_disk u readable m.generation url g) [
                  | none ↦ (s, none)
                  | some tag ↦ (record s { indexes = insert id tag s.indexes }, some g)
                ]
          ]
    ]
