-- ===== src/Workflows/Queued.antt =====
-- internal/core/workflows/workflows.go, `ApplyDerivedWork`: that all of the work is queued.
use tvr.Base.{
  ℕ, Bool, true, false, ◌==◌, ==_iff, List, [], ◌∷◌, All, Option, none, some, Text, is_empty,
  trim_space, text_eq, Dict, lookup, insert, lookup-insert, lookup-insert_self, lookup-delete,
  lookup-delete_self, delete, nat_eq, text_key, Result, ok, err, Result-cases, ◌≡◌, refl, sym, ap,
  subst, ◌∙◌, inl, inr, Bool-cases,
}
use tvr.Epg.Service.{Service, IndexTag}
use tvr.Epg.Queue.{
  Kind, source_work, relay_work, delete_work, is_shut, pending_of, enqueue_locked, slugs_of,
  enqueue_refresh_source, enqueue_refresh_due, enqueue_rebuild_relays, enqueue_relay_cleanup,
  enqueue_delete_source_files, invalidate_source, DueSource,
}
use tvr.Workflows.{
  RelaySlugCleanup, DerivedWork, Failure, store_failed, Due, note_all, invalidate_all, wake_due_now,
  rebuild_now, apply_derived_work,
}
use tvr.Workflows.Grows.{
  IsListed, IsPending, Grows, Grows-refl, Grows-trans, Queues, enqueue_locked-Queues, note-none,
  All-stays, note_all-Queues, IsRebuilt, enqueue_rebuild_relays-Queues, enqueue_refresh_due-Queues,
  IsWoken, IsWoken-stays,
}

invalidate_source-pending :
    (kind : Kind) (id : ℕ) (s : Service)
    → pending_of kind (invalidate_source id s) ≡ pending_of kind s
unfolding invalidate_source
invalidate_source-pending source_work id s = refl
invalidate_source-pending relay_work id s = refl
invalidate_source-pending delete_work id s = refl

unindexed_delete :
    (id j : ℕ) (d : Dict ℕ IndexTag) → lookup j d ≡ none → lookup j (delete id d) ≡ none
unindexed_delete id j d h = elim (Bool-cases (id == j)) [
  | inl e ↦ lookup-delete id j d ∙ rw e refl
  | inr e ↦ lookup-delete id j d ∙ rw (e, h) refl
]

invalidate_source-Grows : (id : ℕ) (s : Service) → Grows s (invalidate_source id s)
unfolding invalidate_source
invalidate_source-Grows id s = record {
  pending = λ kind j h. ap (lookup j) (invalidate_source-pending kind id s) ∙ h;
  listed = λ j t h. h;
  shut = refl;
  retries = refl;
  unindexed = λ j h. unindexed_delete id j s.indexes h;
}

invalidate_all-Grows : (ids : List ℕ) (s : Service) → Grows s (invalidate_all ids s)
invalidate_all-Grows [] s = Grows-refl s
invalidate_all-Grows (id ∷ ids) s =
    let s' = invalidate_source id s in
    Grows-trans s s' (invalidate_all ids s') (invalidate_source-Grows id s)
      (invalidate_all-Grows ids s')

-- The index in memory is gone.
abbrev pub IsInvalidated : ℕ → Service → Type 0
IsInvalidated id s = lookup id s.indexes ≡ none

invalidate_source-IsInvalidated : (id : ℕ) (s : Service) → IsInvalidated id (invalidate_source id s)
unfolding invalidate_source
invalidate_source-IsInvalidated id s = lookup-delete_self id s.indexes

invalidate_all-IsInvalidated :
    (ids : List ℕ) (s : Service) → All (λ id. IsInvalidated id (invalidate_all ids s)) ids
invalidate_all-IsInvalidated [] s = tt
invalidate_all-IsInvalidated (id ∷ ids) s =
    let s' = invalidate_source id s in
    (
      (invalidate_all-Grows ids s').unindexed id (invalidate_source-IsInvalidated id s),
      invalidate_all-IsInvalidated ids s',
    )

enqueue_delete_source_files-Queues :
    (id : ℕ) → Queues (enqueue_delete_source_files id) (IsPending delete_work id)
unfolding enqueue_delete_source_files
enqueue_delete_source_files-Queues id s h =
    let s' = invalidate_source id s in
    let g' = invalidate_source-Grows id s in
    let (g, n, p) = enqueue_locked-Queues delete_work id s' (g'.shut ∙ h) in
    (Grows-trans s s' (enqueue_locked delete_work id s').0 g' g, n, p)

enqueue_refresh_source-Queues :
    (id : ℕ) → Queues (enqueue_refresh_source id) (IsPending source_work id)
unfolding enqueue_refresh_source
enqueue_refresh_source-Queues id = enqueue_locked-Queues source_work id

-- The slug is on the list, if the relay and the slug are not blank.
abbrev pub IsCleaned : RelaySlugCleanup → Service → Type 0
IsCleaned c s =
    (c.relay_id == 0) ≡ false
    → is_empty (trim_space c.old_slug) ≡ false
    → IsListed c.relay_id (trim_space c.old_slug) s

lookup-insert_slug :
    (k t : Text) (d : Dict Text (Unit {0}))
    → lookup t d ≡ some tt
    → lookup t (insert k tt d) ≡ some tt
lookup-insert_slug k t d h = elim (Bool-cases (text_eq k t)) [
  | inl e ↦ lookup-insert k t tt d ∙ rw e refl
  | inr e ↦ lookup-insert k t tt d ∙ rw (e, h) refl
]

abbrev with_slug : ℕ → Text → Service → Service
with_slug id slug s = record s {
  cleanups =
      insert id
        (record { slugs = insert slug tt (slugs_of (lookup id s.cleanups)); retry_after = none })
        s.cleanups;
  wake = true;
}

with_slug-IsListed :
    (id j : ℕ) (slug t : Text) (s : Service) → IsListed j t s → IsListed j t (with_slug id slug s)
with_slug-IsListed id j slug t s (c, p, q) = elim (Bool-cases (id == j)) [
  | inl e ↦ (
    record { slugs = insert slug tt (slugs_of (lookup id s.cleanups)); retry_after = none },
    lookup-insert id j _ s.cleanups ∙ rw e refl,
    lookup-insert_slug slug t (slugs_of (lookup id s.cleanups)) (
        ap (λ x. lookup t (slugs_of (lookup x s.cleanups))) ((==_iff id j).0 e)
        ∙ ap (λ x. lookup t (slugs_of x)) p
        ∙ q),
  )
  | inr e ↦ (c, lookup-insert id j _ s.cleanups ∙ rw (e, p) refl, q)
]

with_slug-pending :
    (kind : Kind) (id : ℕ) (slug : Text) (s : Service)
    → pending_of kind (with_slug id slug s) ≡ pending_of kind s
with_slug-pending source_work id slug s = refl
with_slug-pending relay_work id slug s = refl
with_slug-pending delete_work id slug s = refl

with_slug-Grows : (id : ℕ) (slug : Text) (s : Service) → Grows s (with_slug id slug s)
with_slug-Grows id slug s = record {
  pending = λ kind j h. ap (lookup j) (with_slug-pending kind id slug s) ∙ h;
  listed = λ j t h. with_slug-IsListed id j slug t s h;
  shut = refl;
  retries = refl;
  unindexed = λ j h. h;
}

enqueue_relay_cleanup-Queues :
    (c : RelaySlugCleanup) → Queues (enqueue_relay_cleanup c.relay_id c.old_slug) (IsCleaned c)
unfolding enqueue_relay_cleanup
enqueue_relay_cleanup-Queues c s h =
    let t = trim_space c.old_slug in
    elim (Bool-cases (c.relay_id == 0)) [
      | inl e ↦ rw e (Grows-refl s, refl, λ w. cc)
      | inr e ↦ elim (Bool-cases (is_empty t)) [
        | inl f ↦ rw (e, f) (Grows-refl s, refl, λ w v. cc)
        | inr f ↦
            rw (e, f, h)
              (
                with_slug-Grows c.relay_id t s,
                refl,
                λ w v. (
                  record {
                    slugs = insert t tt (slugs_of (lookup c.relay_id s.cleanups));
                    retry_after = none;
                  },
                  lookup-insert_self c.relay_id _ s.cleanups,
                  lookup-insert_self t tt (slugs_of (lookup c.relay_id s.cleanups)),
                ),
              )
      ]
    ]

-- Where the work wakes the scheduler and the database answers, each source that is due is pending.
abbrev pub AreWoken : Bool → Due → Service → Type 0
AreWoken false due s = Unit
AreWoken true due s = elim due.sources [
  | err e ↦ Unit
  | ok srcs ↦ All (λ src. IsWoken due.now src s) srcs
]

-- All of the work is queued.
abbrev pub IsQueued : Due → DerivedWork → Service → Type 0
IsQueued due work s =
    All (λ id. IsPending delete_work id s) work.delete_source_files
    × All (λ id. IsPending source_work id s) work.refresh_sources
    × All (λ id. IsRebuilt id s) work.rebuild_relays
    × All (λ c. IsCleaned c s) work.cleanup_relay_slugs
    × AreWoken work.wake_due due s
    × All (λ id. IsInvalidated id s) work.invalidate_sources

AreWoken-stays :
    (b : Bool) (due : Due) (s s' : Service) → Grows s s' → AreWoken b due s → AreWoken b due s'
AreWoken-stays false due s s' g p = tt
AreWoken-stays true due s s' g p = elim (Result-cases due.sources) [
  | inr (e, q) ↦ rw q tt
  | inl (srcs, q) ↦ rw q (
      All-stays (λ src t. IsWoken due.now src t)
        (λ src t t' h w. IsWoken-stays due.now src t t' h w) srcs s s' g (rw q at p))
]

-- What the scheduler's part of the work answers.
abbrev pub due_failure : Bool → Result Text (List DueSource) → Option Failure
due_failure false r = none
due_failure true (ok srcs) = none
due_failure true (err e) = some (store_failed e)

wake_due_now-Grows :
    (b : Bool) (due : Due) (s : Service) (f : Option Failure)
    → f ≡ none
    → is_shut s ≡ false
    → Grows s (wake_due_now b due (s, f)).0
      × ((wake_due_now b due (s, f)).1 ≡ due_failure b due.sources)
      × AreWoken b due (wake_due_now b due (s, f)).0
wake_due_now-Grows false due s f e h = (Grows-refl s, e, tt)
wake_due_now-Grows true due s f e h = elim (Result-cases due.sources) [
  | inr (m, q) ↦ rw (e, q) (Grows-refl s, refl, tt)
  | inl (srcs, q) ↦
      let (g, n, p) = enqueue_refresh_due-Queues due.now srcs s h in
      let s' = (enqueue_refresh_due due.now srcs s).0 in
      let noted = note-none none s' (enqueue_refresh_due due.now srcs s).1 n in
      rw (e, q)
        (subst (λ x. Grows s x.0 × (x.1 ≡ none) × All (λ src. IsWoken due.now src x.0) srcs)
          (sym noted) (g, refl, p))
]

rebuild_now-Grows :
    (ids : List ℕ) (s : Service) (f : Option Failure)
    → is_shut s ≡ false
    → Grows s (rebuild_now ids (s, f)).0
      × ((rebuild_now ids (s, f)).1 ≡ f)
      × All (λ id. IsRebuilt id (rebuild_now ids (s, f)).0) ids
rebuild_now-Grows [] s f h = (Grows-refl s, refl, tt)
rebuild_now-Grows (id ∷ ids) s f h =
    let (g, n, p) = enqueue_rebuild_relays-Queues (id ∷ ids) s h in
    let s' = (enqueue_rebuild_relays (id ∷ ids) s).0 in
    let noted = note-none f s' (enqueue_rebuild_relays (id ∷ ids) s).1 n in
    subst (λ x. Grows s x.0 × (x.1 ≡ f) × All (λ j. IsRebuilt j x.0) (id ∷ ids)) (sym noted)
      (g, refl, p)

-- Where the worker is not shut, nothing of the derived work is refused: the only failure is that of the database for the
-- sources that are due. At the end all of the work, whatever its lists, is queued, also the sources that are due if the work
-- wakes the scheduler and the database answers, and the sources to invalidate have no index in memory.
pub apply_derived_work-IsQueued :
    (due : Due) (work : DerivedWork) (s : Service)
    → is_shut s ≡ false
    → ((apply_derived_work due work s).1 ≡ due_failure work.wake_due due.sources)
      × IsQueued due work (apply_derived_work due work s).0
unfolding apply_derived_work
apply_derived_work-IsQueued due work s h =
    let s0 = invalidate_all work.invalidate_sources s in
    let g0 = invalidate_all-Grows work.invalidate_sources s in
    let p0 = invalidate_all-IsInvalidated work.invalidate_sources s in
    let h0 = g0.shut ∙ h in
    let n1 = note_all enqueue_delete_source_files work.delete_source_files (s0, none) in
    let (g1, e1, p1) =
      note_all-Queues (IsPending delete_work) (λ x t t' g q. g.pending delete_work x q)
        enqueue_delete_source_files work.delete_source_files s0 none
        enqueue_delete_source_files-Queues h0 in
    let h1 = g1.shut ∙ h0 in
    let n2 = note_all enqueue_refresh_source work.refresh_sources n1 in
    let (g2, e2, p2) =
      note_all-Queues (IsPending source_work) (λ x t t' g q. g.pending source_work x q)
        enqueue_refresh_source work.refresh_sources n1.0 n1.1 enqueue_refresh_source-Queues h1 in
    let h2 = g2.shut ∙ h1 in
    let n3 = wake_due_now work.wake_due due n2 in
    let (g3, e3, p3) = wake_due_now-Grows work.wake_due due n2.0 n2.1 (e2 ∙ e1) h2 in
    let h3 = g3.shut ∙ h2 in
    let n4 = rebuild_now work.rebuild_relays n3 in
    let (g4, e4, p4) = rebuild_now-Grows work.rebuild_relays n3.0 n3.1 h3 in
    let h4 = g4.shut ∙ h3 in
    let clean = λ (c : RelaySlugCleanup). enqueue_relay_cleanup c.relay_id c.old_slug in
    let n5 = note_all clean work.cleanup_relay_slugs n4 in
    let (g5, e5, p5) =
      note_all-Queues IsCleaned
        (λ c t t' g q w v. g.listed c.relay_id (trim_space c.old_slug) (q w v)) clean
        work.cleanup_relay_slugs n4.0 n4.1 enqueue_relay_cleanup-Queues h4 in
    let g35 = Grows-trans n3.0 n4.0 n5.0 g4 g5 in
    let g25 = Grows-trans n2.0 n3.0 n5.0 g3 g35 in
    let g15 = Grows-trans n1.0 n2.0 n5.0 g2 g25 in
    let g05 = Grows-trans s0 n1.0 n5.0 g1 g15 in
    (
      e5 ∙ (e4 ∙ e3),
      (
        All-stays (IsPending delete_work) (λ x t t' g q. g.pending delete_work x q)
            work.delete_source_files n1.0 n5.0 g15 p1,
        All-stays (IsPending source_work) (λ x t t' g q. g.pending source_work x q)
            work.refresh_sources n2.0 n5.0 g25 p2,
        All-stays IsRebuilt (λ x t t' g q w. g.pending relay_work x (q w)) work.rebuild_relays n4.0
            n5.0 g5 p4,
        p5,
        AreWoken-stays work.wake_due due n3.0 n5.0 g35 p3,
        All-stays IsInvalidated (λ x t t' g q. g.unindexed x q) work.invalidate_sources s0 n5.0 g05
            p0,
      ),
    )
