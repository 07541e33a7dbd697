-- ===== src/Epg/Refresh/Stale.antt =====
-- internal/core/epg/worker.go, `processSource`: the revision keeps out what was asked for before an invalidation.
use tvr.Base.{
  ℕ, suc, ◌+◌, ◌^◌, ◌<◌, Bool, false, not, ◌||◌, List, [], ◌∷◌, none, ◌==◌, ==_iff, if◌then◌else◌,
  Text, lookup, lookup-insert, nat_eq, Result-cases, ◌≡◌, ◌⊎◌, inl, inr, refl, sym, ap, ◌∙◌, subst,
  Bool-cases, arith, is_empty, trim_space, ltb,
}
use tvr.Utils.Natsort.{Unicode}
use tvr.Epg.Documents.{TvDocument}
use tvr.Epg.Service.{Service, rev_of, current_source_rev}
use tvr.Epg.Manifest.{find_generation}
use tvr.Epg.Manifest.Backed.{eligible_source-keeps}
use tvr.Epg.Queue.{
  Kind, source_work, relay_work, delete_work, put_pending, acquire_admission, release_admission,
  close_admission, enqueue_refresh_source, enqueue_relay_cleanup, enqueue_delete_source_files,
  invalidate_source, is_before,
}
use tvr.Epg.Queue.Keeps.{
  keeps_locked, keeps_refresh_enabled, keeps_refresh_due, keeps_rebuild_relays,
}
use tvr.Epg.Requests.{
  Request, acquires, releases, closes, refreshes, refreshes_enabled, refreshes_due, rebuilds,
  cleans, deletes_files, invalidates, looks_up, serve, serve_all, KeepsFiles, serve_all-KeepsFiles,
}
use tvr.Epg.Refresh.{
  missing, Lookup-cases, EpgSource, Answers, write_generation, same_url, publish, store_fetched,
  fetch_and_store, fetch_failed, process_source,
}
use tvr.Epg.Refresh.Published.{remove-write}

-- Whether a request makes what is fetched for the source out of date.
abbrev pub outdates : ℕ → Request → Bool
outdates id (deletes_files j) = j == id
outdates id (invalidates j) = j == id
outdates id _ = false

abbrev pub outdated : ℕ → List Request → ℕ
outdated id [] = 0
outdated id (r ∷ rs) = if outdates id r then suc (outdated id rs) else outdated id rs

abbrev KeepsRevs : Service → Service → Type 0
KeepsRevs s s' = s'.source_rev ≡ s.source_rev

put_pending-KeepsRevs : (kind : Kind) (id : ℕ) (s : Service) → KeepsRevs s (put_pending kind id s)
unfolding put_pending
put_pending-KeepsRevs source_work id s = refl
put_pending-KeepsRevs relay_work id s = refl
put_pending-KeepsRevs delete_work id s = refl

enqueue_relay_cleanup-KeepsRevs :
    (id : ℕ) (slug : Text) (s : Service) → KeepsRevs s (enqueue_relay_cleanup id slug s).0
unfolding enqueue_relay_cleanup
enqueue_relay_cleanup-KeepsRevs id slug s =
    elim (Bool-cases (id == 0 || is_empty (trim_space slug))) [
      | inl e ↦ rw e refl
      | inr e ↦ rw e refl
    ]

-- The revision behind one request, as long as it does not wrap around.
abbrev Moves : ℕ → Bool → Service → Service → Type 0
Moves id raised s s' =
    current_source_rev id s'
    ≡ (if raised then suc (current_source_rev id s) else current_source_rev id s)

same-Moves : (id : ℕ) (s s' : Service) → KeepsRevs s s' → Moves id false s s'
unfolding current_source_rev
same-Moves id s s' k = ap (λ d. rev_of (lookup id d)) k

invalidate_source-Moves :
    (id j : ℕ) (s : Service)
    → current_source_rev id s + 1 < 2 ^ 64
    → Moves id (j == id) s (invalidate_source j s)
unfolding current_source_rev invalidate_source
invalidate_source-Moves id j s h = elim (Bool-cases (j == id)) [
  | inr e ↦ ap rev_of (lookup-insert j id _ s.source_rev) ∙ rw e refl
  | inl e ↦
      let at_id : rev_of (lookup j s.source_rev) ≡ rev_of (lookup id s.source_rev) =
        ap (λ k. rev_of (lookup k s.source_rev)) ((==_iff j id).0 e) in
      ap rev_of (lookup-insert j id _ s.source_rev) ∙ rw e (omega (arith, at_id, h))
]

acquires-KeepsRevs : (s : Service) → KeepsRevs s (serve acquires s)
unfolding serve acquire_admission
acquires-KeepsRevs s = elim (Bool-cases s.admit_open) [ inl e ↦ rw e refl | inr e ↦ rw e refl ]

releases-KeepsRevs : (s : Service) → KeepsRevs s (serve releases s)
unfolding serve release_admission
releases-KeepsRevs s = elim (Bool-cases (ltb 0 s.admit_held)) [
  | inl e ↦ rw e refl
  | inr e ↦ rw e refl
]

serve-Moves :
    (id : ℕ) (r : Request) (s : Service)
    → current_source_rev id s + 1 < 2 ^ 64
    → Moves id (outdates id r) s (serve r s)
unfolding serve close_admission enqueue_refresh_source enqueue_delete_source_files
serve-Moves id acquires s h = same-Moves id s _ (acquires-KeepsRevs s)
serve-Moves id releases s h = same-Moves id s _ (releases-KeepsRevs s)
serve-Moves id closes s h = same-Moves id s _ refl
serve-Moves id (refreshes j) s h =
    same-Moves id s _ (keeps_locked (λ x. x.source_rev) put_pending-KeepsRevs source_work j s)
serve-Moves id (refreshes_enabled ids) s h =
    same-Moves id s _ (keeps_refresh_enabled (λ x. x.source_rev) put_pending-KeepsRevs ids s)
serve-Moves id (refreshes_due now srcs) s h =
    same-Moves id s _ (keeps_refresh_due (λ x. x.source_rev) put_pending-KeepsRevs now srcs s)
serve-Moves id (rebuilds ids) s h =
    same-Moves id s _ (keeps_rebuild_relays (λ x. x.source_rev) put_pending-KeepsRevs ids s)
serve-Moves id (cleans j slug) s h = same-Moves id s _ (enqueue_relay_cleanup-KeepsRevs j slug s)
serve-Moves id (deletes_files j) s h =
    let t : Service = invalidate_source j s in
    same-Moves id t _ (keeps_locked (λ x. x.source_rev) put_pending-KeepsRevs delete_work j t)
    ∙ invalidate_source-Moves id j s h
serve-Moves id (invalidates j) s h = invalidate_source-Moves id j s h
serve-Moves id (looks_up u readable j url) s h =
    same-Moves id s _ (eligible_source-keeps u readable j url s (λ x. x.source_rev) (λ i. refl))

serve_all-outdated :
    (id : ℕ) (rs : List Request) (s : Service)
    → current_source_rev id s + outdated id rs + 1 < 2 ^ 64
    → current_source_rev id (serve_all rs s) ≡ current_source_rev id s + outdated id rs
unfolding serve_all
serve_all-outdated id [] s h = omega arith
serve_all-outdated id (r ∷ rs) s h =
    let m = serve-Moves id r s (omega (arith, h)) in
    let rest = serve_all-outdated id rs (serve r s) in
    elim (Bool-cases (outdates id r)) [
      | inl e ↦
          let m' : current_source_rev id (serve r s) ≡ suc (current_source_rev id s) = rw e at m in
          let h' : current_source_rev id s + suc (outdated id rs) + 1 < 2 ^ 64 = rw e at h in
          rw e (rest (omega (arith, m', h')) ∙ omega (arith, m'))
      | inr e ↦
          let m' : current_source_rev id (serve r s) ≡ current_source_rev id s = rw e at m in
          let h' : current_source_rev id s + outdated id rs + 1 < 2 ^ 64 = rw e at h in
          rw e (rest (omega (arith, m', h')) ∙ omega (arith, m'))
    ]

-- The files are written, but the revision is another.
store_fetched-stale :
    (u : Unicode) (id rev : ℕ) (src : EpgSource) (doc : TvDocument) (a : Answers) (s : Service)
    → find_generation id a.generation s.files.generations ≡ none
    → ((url : Text)
        → (current_source_rev id
              (serve_all a.during_write (write_generation u id a.generation url doc s))
            == rev)
          ≡ false)
    → KeepsFiles s (store_fetched u id rev src doc a s).0
unfolding store_fetched publish
store_fetched-stale u id rev src doc a s fresh h = elim (Lookup-cases a.second) [
  | inr (inl e) ↦ rw e refl
  | inr (inr (m, e)) ↦ rw e refl
  | inl (src2, e) ↦
      elim (Bool-cases (not (current_source_rev id s == rev) || not (same_url src2.url src.url))) [
        | inl f ↦ rw (e, f) refl
        | inr f ↦ elim (Result-cases a.written) [
          | inr (m, k) ↦ rw (e, f, k) refl
          | inl (x, k) ↦
              let w = write_generation u id a.generation src2.url doc s in
              let removed =
                remove-write u id a.generation src2.url doc s (serve_all a.during_write w) fresh
                  (serve_all-KeepsFiles a.during_write w) in
              rw (e, f, k) (rw (h src2.url) removed)
        ]
      ]
]

write_generation-rev :
    (u : Unicode) (id : ℕ) (gen url : Text) (doc : TvDocument) (s : Service)
    → current_source_rev id (write_generation u id gen url doc s) ≡ current_source_rev id s
unfolding write_generation current_source_rev
write_generation-rev u id gen url doc s = refl

fetch_and_store-stale :
    (u : Unicode) (id rev : ℕ) (src : EpgSource) (a : Answers) (s : Service)
    → find_generation id a.generation s.files.generations ≡ none
    → rev < current_source_rev id s + (outdated id a.during_fetch + outdated id a.during_write)
    → current_source_rev id s + (outdated id a.during_fetch + outdated id a.during_write) + 1
      < 2 ^ 64
    → KeepsFiles s (fetch_and_store u id rev src a s).0
unfolding fetch_and_store fetch_failed
fetch_and_store-stale u id rev src a s fresh raised fits =
    let t = serve_all a.during_fetch s in
    let kept = serve_all-KeepsFiles a.during_fetch s in
    let rt = serve_all-outdated id a.during_fetch s (omega (arith, fits)) in
    elim (Result-cases a.fetched) [
      | inr (m, e) ↦ rw e kept
      | inl (doc, e) ↦
          let fresh' = ap (λ x. find_generation id a.generation x.generations) kept ∙ fresh in
          let other : (url : Text)
              → (current_source_rev id
                    (serve_all a.during_write (write_generation u id a.generation url doc t))
                  == rev)
                ≡ false =
            λ url.
              let rw' = write_generation-rev u id a.generation url doc t in
              let last =
                serve_all-outdated id a.during_write (write_generation u id a.generation url doc t)
                  (omega (arith, rw', rt, fits)) in
              ground (arith, last, rw', rt, raised) in
          let same : (fetch_and_store u id rev src a s).0 ≡ (store_fetched u id rev src doc a t).0 =
            rw e refl in
          subst (KeepsFiles s) (sym same)
            (store_fetched-stale u id rev src doc a t fresh' other ∙ kept)
    ]

-- Where the source is invalidated or deleted while it is looked up, while it is fetched or while its files are written, a refresh
-- leaves the files as they were, unless the source is gone from the database. The generation has no file yet, and the
-- revision does not wrap around.
pub process_source-outdated :
    (u : Unicode) (id : ℕ) (a : Answers) (s : Service)
    → find_generation id a.generation s.files.generations ≡ none
    → 0 < outdated id a.during_first + (outdated id a.during_fetch + outdated id a.during_write)
    → current_source_rev id s
        + (outdated id a.during_first + (outdated id a.during_fetch + outdated id a.during_write))
        + 1
      < 2 ^ 64
    → KeepsFiles s (process_source u id a s).0 ⊎ (a.first ≡ missing)
unfolding process_source
process_source-outdated u id a s fresh some' fits =
    let t = serve_all a.during_first s in
    let kept = serve_all-KeepsFiles a.during_first s in
    let rt = serve_all-outdated id a.during_first s (omega (arith, fits)) in
    elim (Lookup-cases a.first) [
      | inr (inl h) ↦ inr h
      | inr (inr (m, h)) ↦ inl (rw h kept)
      | inl (src, h) ↦ elim (Bool-cases (is_before a.now (lookup id t.next_retry))) [
        | inl e ↦ inl (rw (h, e) kept)
        | inr e ↦ elim (Bool-cases a.cancelled) [
          | inl c ↦ inl (rw (h, e, c) kept)
          | inr c ↦
              let rev = current_source_rev id s in
              let fresh' = ap (λ x. find_generation id a.generation x.generations) kept ∙ fresh in
              let done =
                fetch_and_store-stale u id rev src a t fresh' (omega (arith, rt, some'))
                  (omega (arith, rt, fits)) in
              let same : (process_source u id a s).0 ≡ (fetch_and_store u id rev src a t).0 =
                rw (h, e, c) refl in
              inl (subst (KeepsFiles s) (sym same) (done ∙ kept))
        ]
      ]
    ]
