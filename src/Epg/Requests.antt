-- ===== src/Epg/Requests.antt =====
-- internal/core/epg/worker.go and service.go: what other goroutines ask of the service while the worker is at work. Only the worker
-- touches the files.
use tvr.Base.{
  ℕ, Bool, ◌||◌, ◌==◌, ltb, List, [], ◌∷◌, Option, none, some, Text, is_empty, trim_space, nat_eq,
  ◌≡◌, refl, ◌∙◌, inl, inr, Bool-cases,
}
use tvr.Utils.Natsort.{Unicode}
use tvr.Epg.Service.{Service}
use tvr.Epg.Manifest.{eligible_source}
use tvr.Epg.Manifest.Backed.{eligible_source-keeps}
use tvr.Epg.Queue.Keeps.{
  keeps_locked, keeps_refresh_enabled, keeps_refresh_due, keeps_rebuild_relays,
}
use tvr.Epg.Queue.{
  Kind, source_work, relay_work, delete_work, put_pending, DueSource, acquire_admission,
  release_admission, close_admission, enqueue_refresh_source, enqueue_refresh_enabled,
  enqueue_refresh_due, enqueue_rebuild_relays, enqueue_relay_cleanup, enqueue_delete_source_files,
  invalidate_source,
}

pub data Request : Type 0 where
  acquires releases closes : Request
  refreshes : ℕ → Request
  refreshes_enabled : List ℕ → Request
  refreshes_due : ℕ → List DueSource → Request
  rebuilds : List ℕ → Request
  cleans : ℕ → Text → Request
  deletes_files : ℕ → Request
  invalidates : ℕ → Request
  looks_up : Unicode → Bool → ℕ → Text → Request

abbrev pub or_same : Service → Option Service → Service
or_same s none = s
or_same s (some s') = s'

unfoldable pub serve : Request → Service → Service
serve acquires s = or_same s (acquire_admission s)
serve releases s = release_admission s
serve closes s = close_admission s
serve (refreshes id) s = (enqueue_refresh_source id s).0
serve (refreshes_enabled ids) s = (enqueue_refresh_enabled ids s).0
serve (refreshes_due now srcs) s = (enqueue_refresh_due now srcs s).0
serve (rebuilds ids) s = (enqueue_rebuild_relays ids s).0
serve (cleans id slug) s = (enqueue_relay_cleanup id slug s).0
serve (deletes_files id) s = (enqueue_delete_source_files id s).0
serve (invalidates id) s = invalidate_source id s
serve (looks_up u readable id url) s = (eligible_source u readable id url s).0

unfoldable pub serve_all : List Request → Service → Service
serve_all [] s = s
serve_all (r ∷ rs) s = serve_all rs (serve r s)

-- What no request does: touch the files.
abbrev pub KeepsFiles : Service → Service → Type 0
KeepsFiles s s' = s'.files ≡ s.files

pub put_pending-KeepsFiles :
    (kind : Kind) (id : ℕ) (s : Service) → KeepsFiles s (put_pending kind id s)
unfolding put_pending
put_pending-KeepsFiles source_work id s = refl
put_pending-KeepsFiles relay_work id s = refl
put_pending-KeepsFiles delete_work id s = refl

enqueue_relay_cleanup-KeepsFiles :
    (id : ℕ) (slug : Text) (s : Service) → KeepsFiles s (enqueue_relay_cleanup id slug s).0
unfolding enqueue_relay_cleanup
enqueue_relay_cleanup-KeepsFiles id slug s =
    elim (Bool-cases (id == 0 || is_empty (trim_space slug))) [
      | inl e ↦ rw e refl
      | inr e ↦ rw e refl
    ]

serve-KeepsFiles : (r : Request) (s : Service) → KeepsFiles s (serve r s)
unfolding serve acquire_admission release_admission close_admission enqueue_refresh_source
    invalidate_source enqueue_delete_source_files
serve-KeepsFiles acquires s = elim (Bool-cases s.admit_open) [
  | inl e ↦ rw e refl
  | inr e ↦ rw e refl
]
serve-KeepsFiles releases s = elim (Bool-cases (ltb 0 s.admit_held)) [
  | inl e ↦ rw e refl
  | inr e ↦ rw e refl
]
serve-KeepsFiles closes s = refl
serve-KeepsFiles (refreshes id) s =
    keeps_locked (λ x. x.files) put_pending-KeepsFiles source_work id s
serve-KeepsFiles (refreshes_enabled ids) s =
    keeps_refresh_enabled (λ x. x.files) put_pending-KeepsFiles ids s
serve-KeepsFiles (refreshes_due now srcs) s =
    keeps_refresh_due (λ x. x.files) put_pending-KeepsFiles now srcs s
serve-KeepsFiles (rebuilds ids) s = keeps_rebuild_relays (λ x. x.files) put_pending-KeepsFiles ids s
serve-KeepsFiles (cleans id slug) s = enqueue_relay_cleanup-KeepsFiles id slug s
serve-KeepsFiles (deletes_files id) s =
    keeps_locked (λ x. x.files) put_pending-KeepsFiles delete_work id (invalidate_source id s)
serve-KeepsFiles (invalidates id) s = refl
serve-KeepsFiles (looks_up u readable id url) s =
    eligible_source-keeps u readable id url s (λ x. x.files) (λ i. refl)

pub serve_all-KeepsFiles : (rs : List Request) (s : Service) → KeepsFiles s (serve_all rs s)
unfolding serve_all
serve_all-KeepsFiles [] s = refl
serve_all-KeepsFiles (r ∷ rs) s = serve_all-KeepsFiles rs (serve r s) ∙ serve-KeepsFiles r s
