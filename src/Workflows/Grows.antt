-- ===== src/Workflows/Grows.antt =====
-- internal/core/epg/worker.go: what is queued stays queued, and a request that is accepted is queued.
use tvr.Base.{
  ℕ, true, false, not, ◌||◌, ◌==◌, List, [], ◌∷◌, All, Option, none, some, Text, Dict, lookup,
  insert, lookup-insert, lookup-insert_self, nat_eq, text_key, if◌then◌else◌, ◌≡◌, refl, sym, ap,
  subst, ◌∙◌, inl, inr, Bool-cases, arith,
}
use tvr.Epg.Service.{Service, RelayCleanup}
use tvr.Epg.Queue.{
  Kind, source_work, relay_work, delete_work, WorkError, is_shut, put_pending, pending_of,
  enqueue_locked, and_then, enqueue_refresh_due, enqueue_rebuild_relays, DueSource, is_due,
  is_before,
}
use tvr.Workflows.{Failure, note, note_all}

-- The slug is on the list of the relay.
abbrev pub IsListed : ℕ → Text → Service → Type 0
IsListed id t s =
    (c : RelayCleanup) × (lookup id s.cleanups ≡ some c) × (lookup t c.slugs ≡ some tt)

abbrev pub IsPending : Kind → ℕ → Service → Type 0
IsPending kind id s = lookup id (pending_of kind s) ≡ some tt

-- Nothing that is queued is taken out of the queue, the worker is no more shut than before, no retry is put off, and no
-- index comes back.
pub record Grows (s s' : Service) : Type 0 where
  pub pending : (kind : Kind) (id : ℕ) → IsPending kind id s → IsPending kind id s'
  pub listed : (id : ℕ) (t : Text) → IsListed id t s → IsListed id t s'
  pub shut : is_shut s' ≡ is_shut s
  pub retries : s'.next_retry ≡ s.next_retry
  pub unindexed : (id : ℕ) → lookup id s.indexes ≡ none → lookup id s'.indexes ≡ none

pub Grows-refl : (s : Service) → Grows s s
Grows-refl s = record {
  pending = λ kind id h. h;
  listed = λ id t h. h;
  shut = refl;
  retries = refl;
  unindexed = λ id h. h;
}

pub Grows-trans : (s t w : Service) → Grows s t → Grows t w → Grows s w
Grows-trans s t w g h = record {
  pending = λ kind id p. h.pending kind id (g.pending kind id p);
  listed = λ id x p. h.listed id x (g.listed id x p);
  shut = h.shut ∙ g.shut;
  retries = h.retries ∙ g.retries;
  unindexed = λ id p. h.unindexed id (g.unindexed id p);
}

lookup-insert_tt :
    (k j : ℕ) (d : Dict ℕ (Unit {0})) → lookup j d ≡ some tt → lookup j (insert k tt d) ≡ some tt
lookup-insert_tt k j d h = elim (Bool-cases (k == j)) [
  | inl e ↦ lookup-insert k j tt d ∙ rw e refl
  | inr e ↦ lookup-insert k j tt d ∙ rw (e, h) refl
]

put_pending-IsPending :
    (kind : Kind) (id : ℕ) (s : Service) → IsPending kind id (put_pending kind id s)
unfolding put_pending
put_pending-IsPending source_work id s = lookup-insert_self id tt s.pending_sources
put_pending-IsPending relay_work id s = lookup-insert_self id tt s.pending_relays
put_pending-IsPending delete_work id s = lookup-insert_self id tt s.pending_delete_sources

put_pending-stays :
    (kind kind' : Kind) (id j : ℕ) (s : Service)
    → IsPending kind' j s
    → IsPending kind' j (put_pending kind id s)
unfolding put_pending
put_pending-stays source_work source_work id j s h = lookup-insert_tt id j s.pending_sources h
put_pending-stays source_work relay_work id j s h = h
put_pending-stays source_work delete_work id j s h = h
put_pending-stays relay_work source_work id j s h = h
put_pending-stays relay_work relay_work id j s h = lookup-insert_tt id j s.pending_relays h
put_pending-stays relay_work delete_work id j s h = h
put_pending-stays delete_work source_work id j s h = h
put_pending-stays delete_work relay_work id j s h = h
put_pending-stays delete_work delete_work id j s h =
    lookup-insert_tt id j s.pending_delete_sources h

put_pending-same :
    (kind : Kind) (id : ℕ) (s : Service)
    → ((put_pending kind id s).cleanups ≡ s.cleanups)
      × (is_shut (put_pending kind id s) ≡ is_shut s)
      × ((put_pending kind id s).next_retry ≡ s.next_retry)
      × ((put_pending kind id s).indexes ≡ s.indexes)
unfolding put_pending
put_pending-same source_work id s = (refl, refl, refl, refl)
put_pending-same relay_work id s = (refl, refl, refl, refl)
put_pending-same delete_work id s = (refl, refl, refl, refl)

put_pending-Grows : (kind : Kind) (id : ℕ) (s : Service) → Grows s (put_pending kind id s)
put_pending-Grows kind id s = record {
  pending = λ kind' j h. put_pending-stays kind kind' id j s h;
  listed = λ j t (c, p, q). (c, ap (lookup j) (put_pending-same kind id s).0 ∙ p, q);
  shut = (put_pending-same kind id s).1;
  retries = (put_pending-same kind id s).2;
  unindexed = λ j h. ap (lookup j) (put_pending-same kind id s).3 ∙ h;
}

-- A request that is accepted where the worker is not shut, and has the effect P.
abbrev pub Queues : (Service → Service × Option WorkError) → (Service → Type 0) → Type 0
Queues go P = (s : Service) → is_shut s ≡ false → Grows s (go s).0 × ((go s).1 ≡ none) × P (go s).0

pub enqueue_locked-Queues :
    (kind : Kind) (id : ℕ) → Queues (enqueue_locked kind id) (IsPending kind id)
unfolding enqueue_locked
enqueue_locked-Queues kind id s h =
    rw h (put_pending-Grows kind id s, refl, put_pending-IsPending kind id s)

pub note-none :
    (f : Option Failure) (s : Service) (o : Option WorkError) → o ≡ none → note f (s, o) ≡ (s, f)
note-none none s o e = rw e refl
note-none (some x) s o e = refl

and_then-none :
    (s : Service) (o : Option WorkError) (go : Service → Service × Option WorkError)
    → o ≡ none
    → and_then (s, o) go ≡ go s
and_then-none s o go e = rw e refl

module _ {A : Type 0} (P : A → Service → Type 0)
    (stays : (x : A) (s s' : Service) → Grows s s' → P x s → P x s') where
  pub All-stays :
      (xs : List A) (s s' : Service) → Grows s s' → All (λ x. P x s) xs → All (λ x. P x s') xs
  All-stays [] s s' g h = tt
  All-stays (x ∷ xs) s s' g h = (stays x s s' g h.0, All-stays xs s s' g h.1)

  pub note_all-Queues :
      (go : A → Service → Service × Option WorkError) (xs : List A) (s : Service)
      (f : Option Failure)
      → ((x : A) → Queues (go x) (P x))
      → is_shut s ≡ false
      → Grows s (note_all go xs (s, f)).0
        × ((note_all go xs (s, f)).1 ≡ f)
        × All (λ x. P x (note_all go xs (s, f)).0) xs
  note_all-Queues go [] s f q h = (Grows-refl s, refl, tt)
  note_all-Queues go (x ∷ xs) s f q h =
      let (g, e, p) = q x s h in
      let s' = (go x s).0 in
      let noted : note f (go x s) ≡ (s', f) = note-none f s' (go x s).1 e in
      let (g', e', p') = note_all-Queues go xs s' f q (g.shut ∙ h) in
      let last = (note_all go xs (s', f)).0 in
      subst
        (λ n.
          Grows s (note_all go xs n).0
          × ((note_all go xs n).1 ≡ f)
          × (P x (note_all go xs n).0 × All (λ y. P y (note_all go xs n).0) xs))
        (sym noted) (Grows-trans s s' last g g', e', (stays x s' last g' p, p'))

-- The ids that are not zero are pending.
abbrev pub IsRebuilt : ℕ → Service → Type 0
IsRebuilt id s = (id == 0) ≡ false → IsPending relay_work id s

rebuild_or_skip-Queues :
    (id : ℕ)
    → Queues (λ s. if id == 0 then (s, none) else enqueue_locked relay_work id s) (IsRebuilt id)
rebuild_or_skip-Queues id s h = elim (Bool-cases (id == 0)) [
  | inl e ↦ rw e (Grows-refl s, refl, λ w. cc)
  | inr e ↦ let (g, n, p) = enqueue_locked-Queues relay_work id s h in rw e (g, n, λ w. p)
]

and_then-Queues :
    (go next : Service → Service × Option WorkError) (P Q : Service → Type 0)
    → ((s s' : Service) → Grows s s' → P s → P s')
    → Queues go P
    → Queues next Q
    → Queues (λ s. and_then (go s) next) (λ s. P s × Q s)
and_then-Queues go next P Q stays q r s h =
    let (g, n, p) = q s h in
    let s' = (go s).0 in
    let (g', n', p') = r s' (g.shut ∙ h) in
    let e : and_then (go s) next ≡ next s' = and_then-none s' (go s).1 next n in
    subst (λ x. Grows s x.0 × (x.1 ≡ none) × (P x.0 × Q x.0)) (sym e)
      (Grows-trans s s' (next s').0 g g', n', (stays s' (next s').0 g' p, p'))

pub enqueue_rebuild_relays-Queues :
    (ids : List ℕ) → Queues (enqueue_rebuild_relays ids) (λ s. All (λ id. IsRebuilt id s) ids)
unfolding enqueue_rebuild_relays
enqueue_rebuild_relays-Queues [] s h = (Grows-refl s, refl, tt)
enqueue_rebuild_relays-Queues (id ∷ ids) s h =
    and_then-Queues (λ t. if id == 0 then (t, none) else enqueue_locked relay_work id t)
      (enqueue_rebuild_relays ids) (IsRebuilt id) (λ t. All (λ j. IsRebuilt j t) ids)
      (λ t t' g p n. g.pending relay_work id (p n)) (rebuild_or_skip-Queues id)
      (enqueue_rebuild_relays-Queues ids) s h

-- A source that is due and whose retry is not to come is pending.
abbrev pub IsWoken : ℕ → DueSource → Service → Type 0
IsWoken now src s =
    is_due now src ≡ true
    → is_before now (lookup src.id s.next_retry) ≡ false
    → IsPending source_work src.id s

pub IsWoken-stays :
    (now : ℕ) (src : DueSource) (s s' : Service)
    → Grows s s'
    → IsWoken now src s
    → IsWoken now src s'
IsWoken-stays now src s s' g p d b =
    g.pending source_work src.id
      (p d (ap (λ r. is_before now (lookup src.id r)) (sym g.retries) ∙ b))

due_or_skip-Queues :
    (now : ℕ) (src : DueSource)
    → Queues
        (λ s.
          if not (is_due now src) || is_before now (lookup src.id s.next_retry)
          then (s, none)
          else enqueue_locked source_work src.id s)
        (IsWoken now src)
due_or_skip-Queues now src s h =
    elim (Bool-cases (not (is_due now src) || is_before now (lookup src.id s.next_retry))) [
      | inl e ↦ rw e (Grows-refl s, refl, λ d b. absurd (ground arith))
      | inr e ↦
          let (g, n, p) = enqueue_locked-Queues source_work src.id s h in rw e (g, n, λ d b. p)
    ]

pub enqueue_refresh_due-Queues :
    (now : ℕ) (srcs : List DueSource)
    → Queues (enqueue_refresh_due now srcs) (λ s. All (λ src. IsWoken now src s) srcs)
unfolding enqueue_refresh_due
enqueue_refresh_due-Queues now [] s h = (Grows-refl s, refl, tt)
enqueue_refresh_due-Queues now (src ∷ srcs) s h =
    and_then-Queues
      (λ t.
        if not (is_due now src) || is_before now (lookup src.id t.next_retry)
        then (t, none)
        else enqueue_locked source_work src.id t)
      (enqueue_refresh_due now srcs) (IsWoken now src) (λ t. All (λ x. IsWoken now x t) srcs)
      (IsWoken-stays now src) (due_or_skip-Queues now src) (enqueue_refresh_due-Queues now srcs) s h
