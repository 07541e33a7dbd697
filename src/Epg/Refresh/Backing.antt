-- ===== src/Epg/Refresh/Backing.antt =====
-- internal/core/epg/worker.go and manifest.go: every manifest names files that are there, and what a refresh publishes is what is served.
use tvr.Base.{
  ℕ, Bool, true, false, ◌&&◌, ◌∷◌, none, some, ◌==◌, ==_iff, text_eq, text_eq_self, is_empty,
  trim_space, trim_space_idem, lookup, insert, lookup-insert, lookup-delete, lookup-insert_self,
  nat_eq, ok, ◌≡◌, ◌⊎◌, inl, inr, refl, sym, ap, ◌∙◌, subst, Bool-cases, some_inj, some_ne_none,
}
use tvr.Utils.Natsort.{Unicode}
use tvr.Epg.Service.{Service, SourceManifest, GenerationFile, Files, delete_source_files}
use tvr.Epg.Manifest.{find_generation, eligible_source}
use tvr.Epg.Manifest.Backed.{eligible_source-serves, find_generation-drop_source}
use tvr.Epg.Requests.{KeepsFiles}
use tvr.Epg.Refresh.{missing, found, EpgSource, Answers, process_source}
use tvr.Epg.Refresh.Current.{process_source-outcome}
use tvr.Epg.Refresh.Published.{IsPublished}

-- The files of every manifest are there.
abbrev pub IsBacked : Files → Type 0
IsBacked files =
    (id : ℕ) (m : SourceManifest)
    → lookup id files.manifests ≡ some m
    → (g : GenerationFile) × (find_generation id m.generation files.generations ≡ some g)

found_inj : {A : Type 0} {x y : A} → found x ≡ found y → x ≡ y
found_inj h = cc

delete_source_files-IsBacked :
    (id : ℕ) (s : Service) → IsBacked s.files → IsBacked (delete_source_files id s).files
unfolding delete_source_files
delete_source_files-IsBacked id s b j m h = elim (Bool-cases (id == j)) [
  | inl e ↦ absurd (some_ne_none (sym h ∙ (lookup-delete id j s.files.manifests ∙ rw e refl)))
  | inr e ↦
      let (g, q) = b j m (sym (lookup-delete id j s.files.manifests ∙ rw e refl) ∙ h) in
      (g, find_generation-drop_source j id m.generation s.files.generations e ∙ q)
]

publish-IsBacked :
    (id : ℕ) (m : SourceManifest) (g : GenerationFile) (files : Files)
    → g.source ≡ id
    → g.generation ≡ m.generation
    → IsBacked files
    → IsBacked (record files {
      manifests = insert id m files.manifests;
      generations = g ∷ files.generations;
    })
unfolding find_generation
publish-IsBacked id m g files gs gg b j m' h = elim (Bool-cases (id == j)) [
  | inl e ↦
      let same : m ≡ m' = some_inj (sym (lookup-insert id j m files.manifests ∙ rw e refl) ∙ h) in
      let here : (g.source == j && text_eq g.generation m'.generation) ≡ true =
        subst (λ x. (x == j && text_eq g.generation m'.generation) ≡ true) (sym gs)
          (rw e (
            subst (λ x. text_eq g.generation x ≡ true) (gg ∙ ap (λ x. x.generation) same)
              (text_eq_self g.generation))) in
      (g, rw here refl)
  | inr e ↦
      let (g', q) = b j m' (sym (lookup-insert id j m files.manifests ∙ rw e refl) ∙ h) in
      let other : (g.source == j && text_eq g.generation m'.generation) ≡ false =
        subst (λ x. (x == j && text_eq g.generation m'.generation) ≡ false) (sym gs) (rw e refl) in
      (g', rw other q)
]

-- A refresh, with whatever is asked of the service while it runs, keeps the files so that every manifest names a generation whose files are
-- there, if its generation has no file yet.
pub process_source-IsBacked :
    (u : Unicode) (id : ℕ) (a : Answers) (s : Service)
    → find_generation id a.generation s.files.generations ≡ none
    → IsBacked s.files
    → IsBacked (process_source u id a s).0.files
process_source-IsBacked u id a s fresh b = elim (process_source-outcome u id a s fresh) [
  | inl k ↦ subst IsBacked (sym k) b
  | inr (inl (h, e)) ↦ subst IsBacked (sym e) (delete_source_files-IsBacked id s b)
  | inr (inr (src, doc, m, g, idx, h, f, fs, su, mg, gs, gg, gd, gi, iu, ig)) ↦
      subst IsBacked (sym fs) (publish-IsBacked id m g s.files gs (gg ∙ sym mg) b)
]

published-serves :
    (u : Unicode) (readable : Bool) (id : ℕ) (a : Answers) (s s' : Service)
    → is_empty a.generation ≡ false
    → IsPublished id a s s'
    → (src : EpgSource) × (g : GenerationFile) × (a.third ≡ found src)
      × (a.fetched ≡ ok g.doc)
      × (is_empty (trim_space src.url) ≡ false
          → (eligible_source u readable id src.url s').1 ≡ some g)
unfolding find_generation
published-serves u readable id a s s' n
      (src, doc, m, g, idx, h, f, fs, su, mg, gs, gg, gd, gi, iu, ig) =
    let url = trim_space src.url in
    let here : (g.source == id && text_eq g.generation m.generation) ≡ true =
      rw (gs, (==_iff id id).1 refl)
        (subst (λ x. text_eq g.generation x ≡ true) (gg ∙ sym mg) (text_eq_self g.generation)) in
    let listed : find_generation id m.generation s'.files.generations ≡ some g =
      ap (λ x. find_generation id m.generation x.generations) fs ∙ rw here refl in
    let trimmed = trim_space_idem src.url in
    (
      src,
      g,
      h,
      f ∙ ap ok (sym gd),
      λ full.
          eligible_source-serves u readable id src.url s' m g idx
            (ap (λ x. lookup id x.manifests) fs ∙ lookup-insert_self id m s.files.manifests)
            (rw (mg, n, su, trimmed, full, text_eq_self url) refl) listed gi
            (rw (ig, mg, iu, trimmed, text_eq_self a.generation, text_eq_self url) refl),
    )

-- After a refresh either the files are as they were, or the source is gone from the database, or the guide that is served for
-- the URL that the database had last is the one that was fetched, whatever is asked of the service meanwhile. The
-- generation has a name and no file yet, and the URL is not blank.
pub process_source-serves :
    (u : Unicode) (readable : Bool) (id : ℕ) (a : Answers) (s : Service) (last : EpgSource)
    → find_generation id a.generation s.files.generations ≡ none
    → is_empty a.generation ≡ false
    → a.third ≡ found last
    → is_empty (trim_space last.url) ≡ false
    → KeepsFiles s (process_source u id a s).0
      ⊎ ((a.first ≡ missing)
          ⊎ ((g : GenerationFile) × ((eligible_source u readable id last.url
                  (process_source u id a s).0).1
                ≡ some g)
              × (a.fetched ≡ ok g.doc)))
process_source-serves u readable id a s last fresh n third full =
    elim (process_source-outcome u id a s fresh) [
      | inl k ↦ inl k
      | inr (inl (h, e)) ↦ inr (inl h)
      | inr (inr p) ↦
          let s' = (process_source u id a s).0 in
          let (src, g, h, f, served) = published-serves u readable id a s s' n p in
          let same : src ≡ last = found_inj (sym h ∙ third) in
          inr (
            inr (
              g,
              subst
                  (λ x.
                    is_empty (trim_space x.url) ≡ false
                    → (eligible_source u readable id x.url s').1 ≡ some g)
                  same served full,
              f,
            ))
    ]
