-- ===== src/Epg/Queue/Keeps.antt =====
-- internal/core/epg/worker.go: what a request to enqueue work leaves alone.
use tvr.Base.{
  ℕ, Bool, true, false, not, ◌||◌, ◌==◌, List, [], ◌∷◌, Option, none, some, lookup, nat_eq,
  if◌then◌else◌, ◌≡◌, refl, ◌∙◌, inl, inr, Bool-cases,
}
use tvr.Epg.Service.{Service}
use tvr.Epg.Queue.{
  Kind, source_work, relay_work, WorkError, is_shut, put_pending, enqueue_locked, and_then, is_due,
  is_before, DueSource, enqueue_refresh_enabled, enqueue_refresh_due, enqueue_rebuild_relays,
}

-- Whatever `put_pending` leaves alone.
module _ {F : Type 0} (f : Service → F)
    (put : (kind : Kind) (id : ℕ) (s : Service) → f (put_pending kind id s) ≡ f s) where
  pub keeps_locked : (kind : Kind) (id : ℕ) (s : Service) → f (enqueue_locked kind id s).0 ≡ f s
  unfolding enqueue_locked
  keeps_locked kind id s = elim (Bool-cases (is_shut s)) [
    | inl e ↦ rw e refl
    | inr e ↦ rw e (put kind id s)
  ]

  keeps_and_then :
      (s : Service) (r : Service × Option WorkError) (go : Service → Service × Option WorkError)
      → f r.0 ≡ f s
      → ((t : Service) → f (go t).0 ≡ f t)
      → f (and_then r go).0 ≡ f s
  keeps_and_then s (s', none) go h k = k s' ∙ h
  keeps_and_then s (s', some e) go h k = h

  keeps_or_locked :
      (b : Bool) (kind : Kind) (id : ℕ) (s : Service)
      → f (if b then (s, none) else enqueue_locked kind id s).0 ≡ f s
  keeps_or_locked true kind id s = refl
  keeps_or_locked false kind id s = keeps_locked kind id s

  pub keeps_refresh_enabled :
      (ids : List ℕ) (s : Service) → f (enqueue_refresh_enabled ids s).0 ≡ f s
  unfolding enqueue_refresh_enabled
  keeps_refresh_enabled [] s = refl
  keeps_refresh_enabled (id ∷ ids) s =
      keeps_and_then s (enqueue_locked source_work id s) (λ t. enqueue_refresh_enabled ids t)
        (keeps_locked source_work id s) (keeps_refresh_enabled ids)

  pub keeps_refresh_due :
      (now : ℕ) (srcs : List DueSource) (s : Service) → f (enqueue_refresh_due now srcs s).0 ≡ f s
  unfolding enqueue_refresh_due
  keeps_refresh_due now [] s = refl
  keeps_refresh_due now (src ∷ srcs) s =
      let skip = not (is_due now src) || is_before now (lookup src.id s.next_retry) in
      keeps_and_then s (if skip then (s, none) else enqueue_locked source_work src.id s)
        (λ t. enqueue_refresh_due now srcs t) (keeps_or_locked skip source_work src.id s)
        (keeps_refresh_due now srcs)

  pub keeps_rebuild_relays : (ids : List ℕ) (s : Service) → f (enqueue_rebuild_relays ids s).0 ≡ f s
  unfolding enqueue_rebuild_relays
  keeps_rebuild_relays [] s = refl
  keeps_rebuild_relays (id ∷ ids) s =
      keeps_and_then s (if id == 0 then (s, none) else enqueue_locked relay_work id s)
        (λ t. enqueue_rebuild_relays ids t) (keeps_or_locked (id == 0) relay_work id s)
        (keeps_rebuild_relays ids)
