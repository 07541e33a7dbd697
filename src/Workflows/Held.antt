-- ===== src/Workflows/Held.antt =====
-- internal/core/epg/worker.go: an admission that is held keeps the worker from refusing work, whatever others ask of it.
use tvr.Base.{
  ℕ, ◌≤◌, false, ◌||◌, ◌==◌, ltb, List, [], ◌∷◌, Text, is_empty, trim_space, ◌≡◌, refl, inl, inr,
  Bool-cases, arith,
}
use tvr.Epg.Service.{Service}
use tvr.Epg.Manifest.Backed.{eligible_source-keeps}
use tvr.Epg.Queue.{
  Kind, source_work, relay_work, delete_work, is_shut, put_pending, acquire_admission,
  release_admission, close_admission, enqueue_refresh_source, enqueue_relay_cleanup,
  enqueue_delete_source_files, invalidate_source,
}
use tvr.Epg.Queue.Keeps.{
  keeps_locked, keeps_refresh_enabled, keeps_refresh_due, keeps_rebuild_relays,
}
use tvr.Epg.Requests.{
  Request, acquires, releases, closes, refreshes, refreshes_enabled, refreshes_due, rebuilds,
  cleans, deletes_files, invalidates, looks_up, serve, serve_all,
}

-- An admission is released only by one that has it: where one is released, another is held as well.
abbrev pub IsOfAnother : Request → Service → Type 0
IsOfAnother acquires s = Unit
IsOfAnother releases s = 2 ≤ s.admit_held
IsOfAnother closes s = Unit
IsOfAnother (refreshes id) s = Unit
IsOfAnother (refreshes_enabled ids) s = Unit
IsOfAnother (refreshes_due now srcs) s = Unit
IsOfAnother (rebuilds ids) s = Unit
IsOfAnother (cleans id slug) s = Unit
IsOfAnother (deletes_files id) s = Unit
IsOfAnother (invalidates id) s = Unit
IsOfAnother (looks_up u readable id url) s = Unit

abbrev pub AreOfOthers : List Request → Service → Type 0
AreOfOthers [] s = Unit
AreOfOthers (r ∷ rs) s = IsOfAnother r s × AreOfOthers rs (serve r s)

put_pending-held :
    (kind : Kind) (id : ℕ) (s : Service) → (put_pending kind id s).admit_held ≡ s.admit_held
unfolding put_pending
put_pending-held source_work id s = refl
put_pending-held relay_work id s = refl
put_pending-held delete_work id s = refl

enqueue_relay_cleanup-held :
    (id : ℕ) (slug : Text) (s : Service)
    → (enqueue_relay_cleanup id slug s).0.admit_held ≡ s.admit_held
unfolding enqueue_relay_cleanup
enqueue_relay_cleanup-held id slug s = elim (Bool-cases (id == 0 || is_empty (trim_space slug))) [
  | inl e ↦ rw e refl
  | inr e ↦ rw e refl
]

held_eq : (m n : ℕ) → m ≡ n → 1 ≤ n → 1 ≤ m
held_eq m n e h = ground arith

serve-held :
    (r : Request) (s : Service) → IsOfAnother r s → 1 ≤ s.admit_held → 1 ≤ (serve r s).admit_held
unfolding serve acquire_admission release_admission close_admission enqueue_refresh_source
    invalidate_source enqueue_delete_source_files
serve-held acquires s w h = elim (Bool-cases s.admit_open) [
  | inl e ↦ rw e (ground arith)
  | inr e ↦ rw e h
]
serve-held releases s w h = elim (Bool-cases (ltb 0 s.admit_held)) [
  | inl e ↦ rw e (ground arith)
  | inr e ↦ rw e h
]
serve-held closes s w h = h
serve-held (refreshes id) s w h =
    held_eq _ s.admit_held (keeps_locked (λ x. x.admit_held) put_pending-held source_work id s) h
serve-held (refreshes_enabled ids) s w h =
    held_eq _ s.admit_held (keeps_refresh_enabled (λ x. x.admit_held) put_pending-held ids s) h
serve-held (refreshes_due now srcs) s w h =
    held_eq _ s.admit_held (keeps_refresh_due (λ x. x.admit_held) put_pending-held now srcs s) h
serve-held (rebuilds ids) s w h =
    held_eq _ s.admit_held (keeps_rebuild_relays (λ x. x.admit_held) put_pending-held ids s) h
serve-held (cleans id slug) s w h = held_eq _ s.admit_held (enqueue_relay_cleanup-held id slug s) h
serve-held (deletes_files id) s w h =
    held_eq _ s.admit_held
      (keeps_locked (λ x. x.admit_held) put_pending-held delete_work id (invalidate_source id s)) h
serve-held (invalidates id) s w h = h
serve-held (looks_up u readable id url) s w h =
    held_eq _ s.admit_held
      (eligible_source-keeps u readable id url s (λ x. x.admit_held) (λ i. refl)) h

serve_all-held :
    (rs : List Request) (s : Service)
    → AreOfOthers rs s
    → 1 ≤ s.admit_held
    → 1 ≤ (serve_all rs s).admit_held
unfolding serve_all
serve_all-held [] s w h = h
serve_all-held (r ∷ rs) s w h = serve_all-held rs (serve r s) w.1 (serve-held r s w.0 h)

held-is_shut : (s : Service) → 1 ≤ s.admit_held → is_shut s ≡ false
held-is_shut s h = ground arith

-- While an admission is held and others release only their own, the worker is not shut, even if it is closed meanwhile.
pub serve_all-is_shut :
    (rs : List Request) (s : Service)
    → AreOfOthers rs s
    → 1 ≤ s.admit_held
    → is_shut (serve_all rs s) ≡ false
serve_all-is_shut rs s w h = held-is_shut (serve_all rs s) (serve_all-held rs s w h)
