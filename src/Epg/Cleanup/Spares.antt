-- ===== src/Epg/Cleanup/Spares.antt =====
-- internal/core/epg/worker.go, `processCleanup`: which caches stay, and that no slug is forgotten.
use tvr.Base.{
  ℕ, ◌+◌, [], some, ◌==◌, Text, Dict, lookup, text_key, nat_eq, ◌≡◌, ◌≢◌, ◌⊎◌, inl, inr, refl, ap,
  ◌∙◌, Bool-cases,
}
use tvr.Epg.Documents.{TvDocument}
use tvr.Epg.Service.{Service, RelayCleanup, is_nil}
use tvr.Epg.Queue.{defer_cleanup, second}
use tvr.Epg.Refresh.{found, Lookup-cases}
use tvr.Epg.Relays.{RelayRow}
use tvr.Epg.Cleanup.{
  CleanupAnswers, removes_it, verdict, clean_slugs, clean_relay, process_cleanup, with_caches,
}
use tvr.Epg.Cleanup.Slugs.{verdict-found, verdict-own, clean_slugs-keeps}

-- The slug is on the list of the relay again, for a second later.
abbrev pub IsListed : ℕ → ℕ → Text → Service → Type 0
IsListed now id t s =
    (c : RelayCleanup) × (lookup id s.cleanups ≡ some c)
    × (lookup t c.slugs ≡ some tt)
    × (c.retry_after ≡ some (now + second))

defer_cleanup-files :
    (now id : ℕ) (slugs : Dict Text (Unit {0})) (s : Service)
    → (defer_cleanup now id slugs s).files ≡ s.files
unfolding defer_cleanup
defer_cleanup-files now id slugs s = elim (Bool-cases (id == 0)) [
  | inl e ↦ rw e refl
  | inr e ↦ elim (Bool-cases (is_nil slugs)) [ inl f ↦ rw (e, f) refl | inr f ↦ rw (e, f) refl ]
]

clean_relay-caches :
    (id : ℕ) (a : CleanupAnswers) (slugs : Dict Text (Unit {0})) (s : Service)
    → (clean_relay id a slugs s).files.caches ≡ (clean_slugs a slugs (s.files.caches, [])).0
unfolding clean_relay
clean_relay-caches id a slugs s =
    let st = clean_slugs a slugs (s.files.caches, []) in
    elim (Bool-cases (is_nil st.1)) [
      | inl e ↦ rw e refl
      | inr e ↦ rw e (ap (λ f. f.caches) (defer_cleanup-files a.now id st.1 (with_caches st.0 s)))
    ]

-- A cache whose slug some relay has, or that the relay of the request has itself, is as it was when the cleanup ends,
-- whatever slugs are listed and whatever the lookups and the disk answer.
pub process_cleanup-keeps_owned :
    (id : ℕ) (a : CleanupAnswers) (slugs : Dict Text (Unit {0})) (s : Service) (t : Text)
    (r : RelayRow)
    → ((a.by_slug t ≡ found r) ⊎ ((a.relay ≡ found r) × (r.slug ≡ t)))
    → lookup t (process_cleanup id a slugs s).files.caches ≡ lookup t s.files.caches
unfolding process_cleanup
process_cleanup-keeps_owned id a slugs s t r own =
    let stays : (c : Dict Text TvDocument) → verdict a t c ≢ removes_it = λ c. elim own [
      | inl h ↦ λ q. cc (verdict-found a t c r h)
      | inr h ↦ verdict-own a t c r h.0 h.1
    ] in
    let cleaned : lookup t (clean_relay id a slugs s).files.caches ≡ lookup t s.files.caches =
      ap (lookup t) (clean_relay-caches id a slugs s)
      ∙ clean_slugs-keeps a t slugs (s.files.caches, []) stays in
    elim (Bool-cases (is_nil slugs)) [
      | inl e ↦ rw e refl
      | inr e ↦ elim (Lookup-cases a.relay) [
        | inl (r', f) ↦ rw (e, f) cleaned
        | inr (inl f) ↦ rw (e, f) cleaned
        | inr (inr (m, f)) ↦
            rw (e, f) (ap (λ x. lookup t x.caches) (defer_cleanup-files a.now id slugs s))
      ]
    ]
