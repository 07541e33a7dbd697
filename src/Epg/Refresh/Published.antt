-- ===== src/Epg/Refresh/Published.antt =====
-- internal/core/epg/worker.go, `processSource`: what publishing leaves on the disk, and what a generation that is removed leaves.
use tvr.Base.{
  ℕ, true, ◌&&◌, List, [], ◌∷◌, none, some, ◌==◌, Text, text_eq, text_eq_iff, text_eq_self,
  trim_space, insert, nat_eq, ok, Result-cases, ◌≡◌, inl, inr, refl, sym, ap, ◌∙◌, Bool-cases,
  some_ne_none, arith,
}
use tvr.Utils.Natsort.{Unicode}
use tvr.Epg.Documents.{TvDocument}
use tvr.Epg.Service.{Service, SourceManifest, IndexTag, GenerationFile, Files, drop_generation}
use tvr.Epg.Order.{index_from_doc}
use tvr.Epg.Manifest.{find_generation}
use tvr.Epg.Requests.{serve_all, KeepsFiles, put_pending-KeepsFiles, serve_all-KeepsFiles}
use tvr.Epg.Queue.Keeps.{keeps_rebuild_relays}
use tvr.Epg.Refresh.{
  found, EpgSource, Answers, write_generation, remove_generation, publish_manifest, with_index,
  refreshed, same_url,
}

same_source : (id : ℕ) → (id == id) ≡ true
same_source id = ground arith

drop_generation-fresh :
    (id : ℕ) (gen : Text) (gs : List GenerationFile)
    → find_generation id gen gs ≡ none
    → drop_generation id gen gs ≡ gs
unfolding find_generation drop_generation
drop_generation-fresh id gen [] h = refl
drop_generation-fresh id gen (g ∷ gs) h =
    elim (Bool-cases (g.source == id && text_eq g.generation gen)) [
      | inl e ↦ absurd (some_ne_none (rw e at h))
      | inr e ↦ rw e (ap (◌∷◌ g) (drop_generation-fresh id gen gs (rw e at h)))
    ]

-- A generation that is written and removed again leaves no trace.
pub remove-write :
    (u : Unicode) (id : ℕ) (gen url : Text) (doc : TvDocument) (s t : Service)
    → find_generation id gen s.files.generations ≡ none
    → KeepsFiles (write_generation u id gen url doc s) t
    → KeepsFiles s (remove_generation id gen t)
unfolding write_generation remove_generation drop_generation
remove-write u id gen url doc s t fresh h =
    ap {A = Files} {B = Files}
      (λ f. record f { generations = drop_generation id gen f.generations }) h
    ∙ rw (same_source id, text_eq_self gen)
        (ap {A = List GenerationFile} {B = Files} (λ gs. record s.files { generations = gs })
          (drop_generation-fresh id gen s.files.generations fresh))

refreshed-KeepsFiles :
    (u : Unicode) (id : ℕ) (gen url : Text) (doc : TvDocument) (a : Answers) (s : Service)
    → KeepsFiles s (refreshed u id gen url doc a s).0
unfolding refreshed
refreshed-KeepsFiles u id gen url doc a s =
    let w : Service = with_index u id gen url doc s in
    let t = serve_all a.during_relays w in
    elim (Result-cases a.relays) [
      | inl (ids, e) ↦ rw e (
          keeps_rebuild_relays (λ x. x.files) put_pending-KeepsFiles ids t
          ∙ serve_all-KeepsFiles a.during_relays w)
      | inr (m, e) ↦ rw e (serve_all-KeepsFiles a.during_relays w)
    ]

-- What a refresh that is published leaves: one manifest and one generation more, of what was fetched, with an index,
-- for the URL that the database had when the files were there.
abbrev pub IsPublished : ℕ → Answers → Service → Service → Type 0
IsPublished id a s s' =
    (src : EpgSource) × (doc : TvDocument) × (m : SourceManifest) × (g : GenerationFile)
    × (idx : IndexTag) × (a.third ≡ found src)
    × (a.fetched ≡ ok doc)
    × (s'.files ≡ record {
      manifests = insert id m s.files.manifests;
      generations = g ∷ s.files.generations;
      caches = s.files.caches;
    })
    × (m.source_url ≡ trim_space src.url)
    × (m.generation ≡ a.generation)
    × (g.source ≡ id)
    × (g.generation ≡ a.generation)
    × (g.doc ≡ doc)
    × (g.index ≡ some idx)
    × (idx.source_url ≡ trim_space src.url)
    × (idx.generation ≡ a.generation)

pub refreshed-IsPublished :
    (u : Unicode) (id : ℕ) (url : Text) (src : EpgSource) (doc : TvDocument) (a : Answers)
    (s t : Service)
    → KeepsFiles (write_generation u id a.generation url doc s) t
    → a.third ≡ found src
    → a.fetched ≡ ok doc
    → same_url src.url url ≡ true
    → IsPublished id a s
        (refreshed u id a.generation url doc a
          (serve_all a.during_manifest (publish_manifest id a.generation url a.now t))).0
unfolding write_generation publish_manifest
refreshed-IsPublished u id url src doc a s t w h f same =
    let t' : Service = publish_manifest id a.generation url a.now t in
    let url_kept = sym ((text_eq_iff (trim_space src.url) (trim_space url)).0 same) in
    let idx : IndexTag = record {
      source_url = trim_space url;
      generation = a.generation;
      channels = index_from_doc u doc;
    } in
    (
      src,
      doc,
      record { generation = a.generation; source_url = trim_space url; fetched_at = a.now },
      record { source = id; generation = a.generation; doc = doc; index = some idx },
      idx,
      h,
      f,
      refreshed-KeepsFiles u id a.generation url doc a (serve_all a.during_manifest t')
          ∙ serve_all-KeepsFiles a.during_manifest t'
          ∙ ap {A = Files} {B = Files}
              (λ x. record x {
                manifests =
                    insert id
                      (record {
                        generation = a.generation;
                        source_url = trim_space url;
                        fetched_at = a.now;
                      })
                      x.manifests;
              })
              w,
      url_kept,
      refl,
      refl,
      refl,
      refl,
      refl,
      url_kept,
      refl,
    )
