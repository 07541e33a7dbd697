-- ===== src/Epg/Queue.antt =====
-- internal/core/epg/worker.go: admission and the queues of the worker. Each function is what is done under the mutex.
pub mod Keeps
use tvr.Base.{
  ℕ, zero, suc, ◌+◌, ◌-◌, ◌*◌, ◌%◌, ◌^◌, Bool, true, false, not, ◌&&◌, ◌||◌, List, [], ◌∷◌, Option,
  none, some, ltb, leb, ◌==◌, if◌then◌else◌, Text, is_empty, trim_space, Dict, lookup, insert,
  delete, nat_eq, text_key,
}
use tvr.Epg.Service.{Service, RelayCleanup, is_nil, rev_of}

pub data WorkError : Type 0 where
  admission_closed : WorkError

pub data Kind : Type 0 where
  source_work relay_work delete_work : Kind

-- `AcquireAdmission`; `none` where admission is closed. The state of the others is a release.
unfoldable pub acquire_admission : Service → Option Service
acquire_admission s =
    if not s.admit_open then none else some (record s { admit_held = s.admit_held + 1 })

unfoldable pub release_admission : Service → Service
release_admission s = if ltb 0 s.admit_held then record s { admit_held = s.admit_held - 1 } else s

unfoldable pub close_admission : Service → Service
close_admission s = record s { admit_open = false }

-- The condition under which work is refused.
abbrev pub is_shut : Service → Bool
is_shut s = not s.admit_open && s.admit_held == 0

unfoldable pub put_pending : Kind → ℕ → Service → Service
put_pending source_work id s = record s {
  pending_sources = insert id tt s.pending_sources;
  wake = true;
}
put_pending relay_work id s = record s {
  pending_relays = insert id tt s.pending_relays;
  wake = true;
}
put_pending delete_work id s = record s {
  pending_delete_sources = insert id tt s.pending_delete_sources;
  wake = true;
}

unfoldable pub enqueue_locked : Kind → ℕ → Service → Service × Option WorkError
enqueue_locked kind id s =
    if is_shut s then (s, some admission_closed) else (put_pending kind id s, none)

unfoldable pub enqueue_refresh_source : ℕ → Service → Service × Option WorkError
unfolding enqueue_locked
enqueue_refresh_source id s = enqueue_locked source_work id s

-- A loop that stops at the first error.
abbrev pub and_then :
    Service × Option WorkError → (Service → Service × Option WorkError) → Service × Option WorkError
and_then (s, none) go = go s
and_then (s, some e) go = (s, some e)

unfoldable pub enqueue_refresh_enabled : List ℕ → Service → Service × Option WorkError
enqueue_refresh_enabled [] s = (s, none)
enqueue_refresh_enabled (id ∷ ids) s =
    and_then (enqueue_locked source_work id s) (λ t. enqueue_refresh_enabled ids t)

-- A source of the database with what the scheduler reads of it.
pub record DueSource : Type 0 where
  pub id : ℕ
  pub refresh_interval : ℕ
  pub last_refresh_at : Option ℕ

abbrev pub minute : ℕ
minute = 60_000_000_000

abbrev pub at_least_minute : ℕ → ℕ
at_least_minute n = if ltb n minute then minute else n

abbrev pub is_due : ℕ → DueSource → Bool
is_due now src = elim src.last_refresh_at [
  | none ↦ true
  | some at ↦ leb (at_least_minute src.refresh_interval) (now - at)
]

abbrev pub is_before : ℕ → Option ℕ → Bool
is_before now none = false
is_before now (some retry) = ltb now retry

unfoldable pub enqueue_refresh_due : ℕ → List DueSource → Service → Service × Option WorkError
enqueue_refresh_due now [] s = (s, none)
enqueue_refresh_due now (src ∷ srcs) s =
    and_then
      (if not (is_due now src) || is_before now (lookup src.id s.next_retry)
        then (s, none)
        else enqueue_locked source_work src.id s)
      (λ t. enqueue_refresh_due now srcs t)

unfoldable pub enqueue_rebuild_relays : List ℕ → Service → Service × Option WorkError
enqueue_rebuild_relays [] s = (s, none)
enqueue_rebuild_relays (id ∷ ids) s =
    and_then (if id == 0 then (s, none) else enqueue_locked relay_work id s)
      (λ t. enqueue_rebuild_relays ids t)

abbrev pub slugs_of : Option RelayCleanup → Dict Text (Unit {0})
slugs_of none = []
slugs_of (some c) = c.slugs

-- The slug is kept even where the worker is shut.
unfoldable pub enqueue_relay_cleanup : ℕ → Text → Service → Service × Option WorkError
enqueue_relay_cleanup relay_id old_slug s =
    let slug = trim_space old_slug in
    if relay_id == 0 || is_empty slug
    then (s, none)
    else let c : RelayCleanup = record {
      slugs = insert slug tt (slugs_of (lookup relay_id s.cleanups));
      retry_after = none;
    } in
      (
        record s { cleanups = insert relay_id c s.cleanups; wake = true },
        (if is_shut s then some admission_closed else none),
      )

-- The next revision of a source: what is being fetched for it is out of date.
unfoldable pub invalidate_source : ℕ → Service → Service
invalidate_source id s = record s {
  source_rev = insert id ((rev_of (lookup id s.source_rev) + 1) % 2 ^ 64) s.source_rev;
  indexes = delete id s.indexes;
}

unfoldable pub enqueue_delete_source_files : ℕ → Service → Service × Option WorkError
enqueue_delete_source_files id s = enqueue_locked delete_work id (invalidate_source id s)

-- `takePending`: the first id in the map, taken out.
abbrev pub first_key : Dict ℕ (Unit {0}) → Option ℕ
first_key [] = none
first_key ((id, u) ∷ rest) = some id

abbrev pub pending_of : Kind → Service → Dict ℕ (Unit {0})
pending_of source_work s = s.pending_sources
pending_of relay_work s = s.pending_relays
pending_of delete_work s = s.pending_delete_sources

abbrev pub drop_pending : Kind → ℕ → Service → Service
drop_pending source_work id s = record s { pending_sources = delete id s.pending_sources }
drop_pending relay_work id s = record s { pending_relays = delete id s.pending_relays }
drop_pending delete_work id s = record s {
  pending_delete_sources = delete id s.pending_delete_sources;
}

unfoldable pub take_pending : Kind → Service → Option (ℕ × Service)
take_pending kind s = elim (first_key (pending_of kind s)) [
  | none ↦ none
  | some id ↦ some (id, drop_pending kind id s)
]

-- `takeCleanupReady`: entries without a slug are thrown away on the way, deferred ones are passed over.
abbrev pub is_deferred : ℕ → RelayCleanup → Bool
is_deferred now c = is_before now c.retry_after

unfoldable pub ready_cleanup :
    ℕ → Dict ℕ RelayCleanup → Dict ℕ RelayCleanup × Option (ℕ × Dict Text (Unit {0}))
ready_cleanup now [] = ([], none)
ready_cleanup now ((id, c) ∷ rest) =
    let later = ready_cleanup now rest in
    if is_nil c.slugs
    then later
    else if is_deferred now c
    then ((id, c) ∷ later.0, later.1)
    else (rest, some (id, c.slugs))

unfoldable pub take_cleanup_ready : ℕ → Service → Service × Option (ℕ × Dict Text (Unit {0}))
take_cleanup_ready now s =
    let (left, taken) = ready_cleanup now s.cleanups in (record s { cleanups = left }, taken)

abbrev pub second : ℕ
second = 1_000_000_000

abbrev pub add_all : Dict Text (Unit {0}) → Dict Text (Unit {0}) → Dict Text (Unit {0})
add_all [] d = d
add_all ((slug, u) ∷ slugs) d = add_all slugs (insert slug tt d)

unfoldable pub defer_cleanup : ℕ → ℕ → Dict Text (Unit {0}) → Service → Service
defer_cleanup now relay_id slugs s = if relay_id == 0 || is_nil slugs then s else record s {
  cleanups =
      insert relay_id
        (record {
          slugs = add_all slugs (slugs_of (lookup relay_id s.cleanups));
          retry_after = some (now + second);
        })
        s.cleanups;
}
