-- ===== src/Epg/Manifest/Backed.antt =====
-- internal/core/epg/manifest.go: the guide that a manifest stands for.
use tvr.Base.{
  ℕ, Bool, true, false, ◌&&◌, List, [], ◌∷◌, none, some, ◌==◌, Text, text_eq, text_eq_iff,
  trim_space, Dict, lookup, insert, nat_eq, ◌≡◌, ◌⊎◌, inl, inr, refl, ap, ◌∙◌, Bool-cases,
  Option-cases, arith,
}
use tvr.Utils.Natsort.{Unicode}
use tvr.Epg.Service.{
  Service, SourceManifest, IndexTag, GenerationFile, Files, drop_generation, drop_source,
}
use tvr.Epg.Manifest.{find_generation, eligible_source, manifest_fits, tag_fits, index_on_disk}

pub find_generation-drop_source :
    (j id : ℕ) (gen : Text) (gs : List GenerationFile)
    → (id == j) ≡ false
    → find_generation j gen (drop_source id gs) ≡ find_generation j gen gs
unfolding find_generation drop_source
find_generation-drop_source j id gen [] n = refl
find_generation-drop_source j id gen (g ∷ gs) n = elim (Bool-cases (g.source == id)) [
  | inl e ↦
      let other : (g.source == j) ≡ false = ground arith in
      rw (e, other) (find_generation-drop_source j id gen gs n)
  | inr e ↦ rw (e, find_generation-drop_source j id gen gs n) refl
]

differs :
    (j id : ℕ) (gen old : Text) (g : GenerationFile)
    → ((id == j) && text_eq gen old) ≡ false
    → ((g.source == id) && text_eq g.generation gen) ≡ true
    → ((g.source == j) && text_eq g.generation old) ≡ false
differs j id gen old g n e =
    ground (arith, text_eq_iff g.generation gen, text_eq_iff g.generation old, text_eq_iff gen old)

-- Files of another source or another generation are not found any less.
pub find_generation-drop_generation :
    (j id : ℕ) (gen old : Text) (gs : List GenerationFile)
    → ((id == j) && text_eq gen old) ≡ false
    → find_generation j old (drop_generation id gen gs) ≡ find_generation j old gs
unfolding find_generation drop_generation
find_generation-drop_generation j id gen old [] n = refl
find_generation-drop_generation j id gen old (g ∷ gs) n =
    elim (Bool-cases ((g.source == id) && text_eq g.generation gen)) [
      | inl e ↦
          rw (e, differs j id gen old g n e) (find_generation-drop_generation j id gen old gs n)
      | inr e ↦ rw (e, find_generation-drop_generation j id gen old gs n) refl
    ]

-- The guide that the files of a source stand for, if the database has the URL.
abbrev pub IsServed : ℕ → Text → Files → GenerationFile → Type 0
IsServed id url files g =
    (m : SourceManifest) × (lookup id files.manifests ≡ some m)
    × (manifest_fits (trim_space url) m ≡ true)
    × (find_generation id m.generation files.generations ≡ some g)

pub eligible_source-cases :
    (u : Unicode) (readable : Bool) (id : ℕ) (url : Text) (s : Service)
    → (eligible_source u readable id url s ≡ (s, none))
      ⊎ ((g : GenerationFile) × (i : Dict ℕ IndexTag) × (eligible_source u readable id url s
            ≡ (record s { indexes = i }, some g))
          × IsServed id url s.files g)
unfolding eligible_source
eligible_source-cases u readable id url s = elim (Option-cases (lookup id s.files.manifests)) [
  | inl e ↦ inl (rw (e, eligible_source) refl)
  | inr (m, e) ↦ elim (Bool-cases (manifest_fits (trim_space url) m)) [
    | inr f ↦ inl (rw (e, f, eligible_source) refl)
    | inl f ↦ elim (Option-cases (find_generation id m.generation s.files.generations)) [
      | inl q ↦ inl (rw (e, f, q, eligible_source) refl)
      | inr (g, q) ↦
          elim (Bool-cases (tag_fits m.generation (trim_space url) (lookup id s.indexes))) [
            | inl t ↦ inr (g, s.indexes, rw (e, f, q, t, eligible_source) refl, (m, e, f, q))
            | inr t ↦
                elim (Option-cases (index_on_disk u readable m.generation (trim_space url) g)) [
                  | inl d ↦ inl (rw (e, f, q, t, d, eligible_source) refl)
                  | inr (tag, d) ↦ inr (
                    g,
                    insert id tag s.indexes,
                    rw (e, f, q, t, d, eligible_source) refl,
                    (m, e, f, q),
                  )
                ]
          ]
    ]
  ]
]

-- A guide with an index on the disk that fits is served, whatever index is in memory.
pub eligible_source-serves :
    (u : Unicode) (readable : Bool) (id : ℕ) (url : Text) (s : Service) (m : SourceManifest)
    (g : GenerationFile) (idx : IndexTag)
    → lookup id s.files.manifests ≡ some m
    → manifest_fits (trim_space url) m ≡ true
    → find_generation id m.generation s.files.generations ≡ some g
    → g.index ≡ some idx
    → tag_fits m.generation (trim_space url) (some idx) ≡ true
    → (eligible_source u readable id url s).1 ≡ some g
unfolding eligible_source
eligible_source-serves u readable id url s m g idx e f q i t =
    elim (Bool-cases (tag_fits m.generation (trim_space url) (lookup id s.indexes))) [
      | inl l ↦ rw (e, f, q, l, eligible_source) refl
      | inr l ↦
          let (tag, d) : (tag : IndexTag) × (index_on_disk u readable m.generation (trim_space url)
                  g
                ≡ some tag) =
            (
              record {
                source_url = trim_space url;
                generation = m.generation;
                channels = idx.channels;
              },
              rw (i, t) refl,
            ) in
          rw (e, f, q, l, d, eligible_source) refl
    ]

-- Nothing but the indexes is touched.
pub eligible_source-keeps :
    (u : Unicode) (readable : Bool) (id : ℕ) (url : Text) (s : Service) {F : Type 0}
    (f : Service → F)
    → ((i : Dict ℕ IndexTag) → f (record s { indexes = i }) ≡ f s)
    → f (eligible_source u readable id url s).0 ≡ f s
eligible_source-keeps u readable id url s f same =
    elim (eligible_source-cases u readable id url s) [
      | inl e ↦ ap (λ x. f x.0) e
      | inr (g, i, e, srv) ↦ ap (λ x. f x.0) e ∙ same i
    ]
