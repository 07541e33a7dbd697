-- ===== src/Epg/Refresh/Current.antt =====
-- internal/core/epg/worker.go, `processSource`: what a refresh leaves on the disk, whatever is asked of the service meanwhile.
use tvr.Base.{
  ℕ, not, ◌||◌, ◌∷◌, none, ◌==◌, lookup, insert, delete, nat_eq, ok, Result-cases, ◌≡◌, ◌⊎◌, inl,
  inr, refl, sym, ap, ◌∙◌, subst, Bool-cases,
}
use tvr.Utils.Natsort.{Unicode}
use tvr.Epg.Documents.{TvDocument}
use tvr.Epg.Service.{Service, Files, current_source_rev, drop_source, delete_source_files}
use tvr.Epg.Manifest.{find_generation}
use tvr.Epg.Queue.{is_before}
use tvr.Epg.Requests.{serve_all, KeepsFiles, serve_all-KeepsFiles}
use tvr.Epg.Refresh.{
  missing, Lookup-cases, EpgSource, Answers, write_generation, publish_manifest, refreshed,
  same_url, publish, publish_checked, store_fetched, fetch_and_store, fetch_failed, process_source,
}
use tvr.Epg.Refresh.Published.{remove-write, IsPublished, refreshed-IsPublished}

publish_checked-outcome :
    (u : Unicode) (id : ℕ) (src2 : EpgSource) (doc : TvDocument) (a : Answers) (s t : Service)
    → find_generation id a.generation s.files.generations ≡ none
    → KeepsFiles (write_generation u id a.generation src2.url doc s) t
    → a.fetched ≡ ok doc
    → KeepsFiles s (publish_checked u id src2 doc a t).0
      ⊎ IsPublished id a s (publish_checked u id src2 doc a t).0
unfolding publish_checked refreshed
publish_checked-outcome u id src2 doc a s t fresh w f =
    let removed = remove-write u id a.generation src2.url doc s t fresh w in
    elim (Lookup-cases a.third) [
      | inr (inl h) ↦ rw h (inl removed)
      | inr (inr (m, h)) ↦ rw h (inl removed)
      | inl (src3, h) ↦ elim (Bool-cases (same_url src3.url src2.url)) [
        | inr q ↦ rw (h, q) (inl removed)
        | inl q ↦ elim (Result-cases a.manifest_written) [
          | inr (m, k) ↦ rw (h, q, k) (inl removed)
          | inl (x, k) ↦
              let done = refreshed-IsPublished u id src2.url src3 doc a s t w h f q in
              let t' = publish_manifest id a.generation src2.url a.now t in
              let same : (publish_checked u id src2 doc a t).0
                  ≡ (refreshed u id a.generation src2.url doc a
                      (serve_all a.during_manifest t')).0 =
                rw (h, q, k) refl in
              inr (subst (IsPublished id a s) (sym same) done)
        ]
      ]
    ]

publish-outcome :
    (u : Unicode) (id rev : ℕ) (src2 : EpgSource) (doc : TvDocument) (a : Answers) (s t : Service)
    → find_generation id a.generation s.files.generations ≡ none
    → KeepsFiles (write_generation u id a.generation src2.url doc s) t
    → a.fetched ≡ ok doc
    → KeepsFiles s (publish u id rev src2 doc a t).0
      ⊎ IsPublished id a s (publish u id rev src2 doc a t).0
unfolding publish
publish-outcome u id rev src2 doc a s t fresh w f =
    elim (Bool-cases (current_source_rev id t == rev)) [
      | inr e ↦ rw e (inl (remove-write u id a.generation src2.url doc s t fresh w))
      | inl e ↦ rw e (
          publish_checked-outcome u id src2 doc a s (serve_all a.during_third t) fresh
            (serve_all-KeepsFiles a.during_third t ∙ w) f)
    ]

store_fetched-outcome :
    (u : Unicode) (id rev : ℕ) (src : EpgSource) (doc : TvDocument) (a : Answers) (s : Service)
    → find_generation id a.generation s.files.generations ≡ none
    → a.fetched ≡ ok doc
    → KeepsFiles s (store_fetched u id rev src doc a s).0
      ⊎ IsPublished id a s (store_fetched u id rev src doc a s).0
unfolding store_fetched publish publish_checked
store_fetched-outcome u id rev src doc a s fresh f = elim (Lookup-cases a.second) [
  | inr (inl h) ↦ inl (rw h refl)
  | inr (inr (m, h)) ↦ inl (rw h refl)
  | inl (src2, h) ↦
      elim (Bool-cases (not (current_source_rev id s == rev) || not (same_url src2.url src.url))) [
        | inl e ↦ inl (rw (h, e) refl)
        | inr e ↦ elim (Result-cases a.written) [
          | inr (m, k) ↦ inl (rw (h, e, k) refl)
          | inl (x, k) ↦
              let w = write_generation u id a.generation src2.url doc s in
              let t = serve_all a.during_write w in
              let same : (store_fetched u id rev src doc a s).0
                  ≡ (publish u id rev src2 doc a t).0 =
                rw (h, e, k) refl in
              subst (λ x. KeepsFiles s x ⊎ IsPublished id a s x) (sym same)
                (publish-outcome u id rev src2 doc a s t fresh
                  (serve_all-KeepsFiles a.during_write w) f)
        ]
      ]
]

IsPublished-files :
    (id : ℕ) (a : Answers) (s t s' : Service)
    → KeepsFiles s t
    → IsPublished id a t s'
    → IsPublished id a s s'
IsPublished-files id a s t s' k (src, doc, m, g, idx, h, f, fs, su, mg, gs, gg, gd, gi, iu, ig) = (
  src,
  doc,
  m,
  g,
  idx,
  h,
  f,
  fs
      ∙ ap {A = Files} {B = Files}
          (λ x. record {
            manifests = insert id m x.manifests;
            generations = g ∷ x.generations;
            caches = x.caches;
          })
          k,
  su,
  mg,
  gs,
  gg,
  gd,
  gi,
  iu,
  ig,
)

fetch_and_store-outcome :
    (u : Unicode) (id rev : ℕ) (src : EpgSource) (a : Answers) (s : Service)
    → find_generation id a.generation s.files.generations ≡ none
    → KeepsFiles s (fetch_and_store u id rev src a s).0
      ⊎ IsPublished id a s (fetch_and_store u id rev src a s).0
unfolding fetch_and_store fetch_failed
fetch_and_store-outcome u id rev src a s fresh =
    let t = serve_all a.during_fetch s in
    let kept = serve_all-KeepsFiles a.during_fetch s in
    elim (Result-cases a.fetched) [
      | inr (m, e) ↦ inl (rw e kept)
      | inl (doc, e) ↦
          let same : (fetch_and_store u id rev src a s).0 ≡ (store_fetched u id rev src doc a t).0 =
            rw e refl in
          let fresh' = ap (λ x. find_generation id a.generation x.generations) kept ∙ fresh in
          subst (λ x. KeepsFiles s x ⊎ IsPublished id a s x) (sym same)
            elim (store_fetched-outcome u id rev src doc a t fresh' e) [
              | inl k ↦ inl (k ∙ kept)
              | inr p ↦
                  inr (IsPublished-files id a s t (store_fetched u id rev src doc a t).0 kept p)
            ]
    ]

deleted-files :
    (id : ℕ) (s t : Service)
    → KeepsFiles s t
    → (delete_source_files id t).files ≡ (delete_source_files id s).files
unfolding delete_source_files
deleted-files id s t k =
    ap {A = Files} {B = Files}
      (λ x. record x {
        manifests = delete id x.manifests;
        generations = drop_source id x.generations;
      })
      k

pub process_source-outcome :
    (u : Unicode) (id : ℕ) (a : Answers) (s : Service)
    → find_generation id a.generation s.files.generations ≡ none
    → KeepsFiles s (process_source u id a s).0
      ⊎ (((a.first ≡ missing)
            × ((process_source u id a s).0.files ≡ (delete_source_files id s).files))
          ⊎ IsPublished id a s (process_source u id a s).0)
unfolding process_source
process_source-outcome u id a s fresh =
    let t = serve_all a.during_first s in
    let kept = serve_all-KeepsFiles a.during_first s in
    elim (Lookup-cases a.first) [
      | inr (inl h) ↦ inr (inl (h, rw h (deleted-files id s t kept)))
      | inr (inr (m, h)) ↦ inl (rw h kept)
      | inl (src, h) ↦ elim (Bool-cases (is_before a.now (lookup id t.next_retry))) [
        | inl e ↦ inl (rw (h, e) kept)
        | inr e ↦ elim (Bool-cases a.cancelled) [
          | inl c ↦ inl (rw (h, e, c) kept)
          | inr c ↦
              let rev = current_source_rev id s in
              let same : (process_source u id a s).0 ≡ (fetch_and_store u id rev src a t).0 =
                rw (h, e, c) refl in
              let fresh' = ap (λ x. find_generation id a.generation x.generations) kept ∙ fresh in
              elim (fetch_and_store-outcome u id rev src a t fresh') [
                | inl k ↦ inl (subst (KeepsFiles s) (sym same) (k ∙ kept))
                | inr p ↦ inr (
                    inr (
                      subst (IsPublished id a s) (sym same)
                        (IsPublished-files id a s t (fetch_and_store u id rev src a t).0 kept p)))
              ]
        ]
      ]
    ]
