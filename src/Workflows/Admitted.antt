-- ===== src/Workflows/Admitted.antt =====
-- internal/core/workflows/workflows.go, `withAdmission`: a mutation whose admission is granted has its work queued, though the worker
-- be closed meanwhile; and no source, relay or deletion becomes
-- pending in a worker that is shut.
use tvr.Base.{
  ℕ, Bool, true, false, not, ◌||◌, ◌==◌, ltb, List, [], ◌∷◌, Text, is_empty, trim_space, lookup,
  nat_eq, ◌≡◌, refl, sym, ap, subst, ◌∙◌, inl, inr, Bool-cases, arith,
}
use tvr.Epg.Service.{Service}
use tvr.Utils.Natsort.{Unicode}
use tvr.Epg.Manifest.{eligible_source}
use tvr.Epg.Manifest.Backed.{eligible_source-keeps}
use tvr.Epg.Queue.{
  Kind, source_work, relay_work, delete_work, is_shut, enqueue_locked, acquire_admission,
  release_admission, close_admission, enqueue_refresh_source, enqueue_refresh_enabled,
  enqueue_refresh_due, enqueue_rebuild_relays, enqueue_relay_cleanup, enqueue_delete_source_files,
  invalidate_source, pending_of, DueSource, is_due, is_before,
}
use tvr.Epg.Requests.{
  Request, acquires, releases, closes, refreshes, refreshes_enabled, refreshes_due, rebuilds,
  cleans, deletes_files, invalidates, looks_up, serve, serve_all,
}

-- Nothing more is pending, and it is still shut.
abbrev pub StaysShut : Service → Service → Type 0
StaysShut s s' = ((kind : Kind) → pending_of kind s' ≡ pending_of kind s) × (is_shut s' ≡ is_shut s)

locked-shut :
    (kind : Kind) (id : ℕ) (s : Service) → is_shut s ≡ true → (enqueue_locked kind id s).0 ≡ s
unfolding enqueue_locked
locked-shut kind id s h = rw h refl

enabled-shut :
    (ids : List ℕ) (s : Service) → is_shut s ≡ true → (enqueue_refresh_enabled ids s).0 ≡ s
unfolding enqueue_refresh_enabled enqueue_locked
enabled-shut [] s h = refl
enabled-shut (id ∷ ids) s h = rw h refl

due-shut :
    (now : ℕ) (srcs : List DueSource) (s : Service)
    → is_shut s ≡ true
    → (enqueue_refresh_due now srcs s).0 ≡ s
unfolding enqueue_refresh_due enqueue_locked
due-shut now [] s h = refl
due-shut now (src ∷ srcs) s h =
    elim (Bool-cases (not (is_due now src) || is_before now (lookup src.id s.next_retry))) [
      | inl e ↦ rw e (due-shut now srcs s h)
      | inr e ↦ rw (e, h) refl
    ]

relays-shut : (ids : List ℕ) (s : Service) → is_shut s ≡ true → (enqueue_rebuild_relays ids s).0 ≡ s
unfolding enqueue_rebuild_relays enqueue_locked
relays-shut [] s h = refl
relays-shut (id ∷ ids) s h = elim (Bool-cases (id == 0)) [
  | inl e ↦ rw e (relays-shut ids s h)
  | inr e ↦ rw (e, h) refl
]

same-StaysShut : (s s' : Service) → s' ≡ s → StaysShut s s'
same-StaysShut s s' e = (λ kind. ap (pending_of kind) e, ap is_shut e)

-- Only fields that are not of the queues, nor of the admission, differ.
fields-StaysShut :
    (s s' : Service)
    → s'.pending_sources ≡ s.pending_sources
    → s'.pending_relays ≡ s.pending_relays
    → s'.pending_delete_sources ≡ s.pending_delete_sources
    → is_shut s' ≡ is_shut s
    → StaysShut s s'
fields-StaysShut s s' a b c d = (pendings, d)
  where
    pendings : (kind : Kind) → pending_of kind s' ≡ pending_of kind s
    pendings source_work = a
    pendings relay_work = b
    pendings delete_work = c

cleanup-StaysShut :
    (id : ℕ) (slug : Text) (s : Service) → StaysShut s (enqueue_relay_cleanup id slug s).0
unfolding enqueue_relay_cleanup
cleanup-StaysShut id slug s = elim (Bool-cases (id == 0 || is_empty (trim_space slug))) [
  | inl e ↦ rw e (same-StaysShut s s refl)
  | inr e ↦ rw e (fields-StaysShut s _ refl refl refl refl)
]

shut-closed : (s : Service) → is_shut s ≡ true → (s.admit_open ≡ false) × (s.admit_held ≡ 0)
shut-closed s h = ground arith

acquire-shut : (s : Service) → is_shut s ≡ true → serve acquires s ≡ s
unfolding serve acquire_admission
acquire-shut s h = simp (shut-closed s h).0

release-shut : (s : Service) → is_shut s ≡ true → serve releases s ≡ s
unfolding serve release_admission
release-shut s h = elim (Bool-cases (ltb 0 s.admit_held)) [
  | inl e ↦ ground (arith, shut-closed s h)
  | inr e ↦ simp e
]

close-StaysShut : (s : Service) → is_shut s ≡ true → StaysShut s (close_admission s)
unfolding close_admission
close-StaysShut s h =
    fields-StaysShut s _ refl refl refl
      (subst (λ n. (n == 0) ≡ true) (sym (shut-closed s h).1) refl ∙ sym h)

delete-StaysShut :
    (id : ℕ) (s : Service) → is_shut s ≡ true → StaysShut s (enqueue_delete_source_files id s).0
unfolding enqueue_delete_source_files invalidate_source
delete-StaysShut id s h =
    subst (StaysShut s) (sym (locked-shut delete_work id (invalidate_source id s) h))
      (fields-StaysShut s (invalidate_source id s) refl refl refl refl)

lookup-StaysShut :
    (u : Unicode) (readable : Bool) (id : ℕ) (url : Text) (s : Service)
    → StaysShut s (eligible_source u readable id url s).0
lookup-StaysShut u readable id url s =
    fields-StaysShut s (eligible_source u readable id url s).0
      (eligible_source-keeps u readable id url s (λ x. x.pending_sources) (λ i. refl))
      (eligible_source-keeps u readable id url s (λ x. x.pending_relays) (λ i. refl))
      (eligible_source-keeps u readable id url s (λ x. x.pending_delete_sources) (λ i. refl))
      (eligible_source-keeps u readable id url s is_shut (λ i. refl))

serve-StaysShut : (r : Request) (s : Service) → is_shut s ≡ true → StaysShut s (serve r s)
unfolding serve enqueue_refresh_source invalidate_source
serve-StaysShut acquires s h = same-StaysShut s _ (acquire-shut s h)
serve-StaysShut releases s h = same-StaysShut s _ (release-shut s h)
serve-StaysShut closes s h = close-StaysShut s h
serve-StaysShut (refreshes id) s h = same-StaysShut s _ (locked-shut source_work id s h)
serve-StaysShut (refreshes_enabled ids) s h = same-StaysShut s _ (enabled-shut ids s h)
serve-StaysShut (refreshes_due now srcs) s h = same-StaysShut s _ (due-shut now srcs s h)
serve-StaysShut (rebuilds ids) s h = same-StaysShut s _ (relays-shut ids s h)
serve-StaysShut (cleans id slug) s h = cleanup-StaysShut id slug s
serve-StaysShut (deletes_files id) s h = delete-StaysShut id s h
serve-StaysShut (invalidates id) s h = fields-StaysShut s _ refl refl refl refl
serve-StaysShut (looks_up u readable id url) s h = lookup-StaysShut u readable id url s

-- Once the worker is shut, that is closed with no admission held, it stays so, and whatever is asked of it no source, relay or
-- deletion becomes pending.
pub serve_all-StaysShut :
    (rs : List Request) (s : Service) → is_shut s ≡ true → StaysShut s (serve_all rs s)
unfolding serve_all
serve_all-StaysShut [] s h = same-StaysShut s s refl
serve_all-StaysShut (r ∷ rs) s h =
    let (p, q) = serve-StaysShut r s h in
    let (p', q') = serve_all-StaysShut rs (serve r s) (q ∙ h) in (λ kind. p' kind ∙ p kind, q' ∙ q)
