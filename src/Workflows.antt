-- ===== src/Workflows.antt =====
-- internal/core/workflows/workflows.go: the mutations of the database that leave work for the EPG worker, and the keys of a mapping
-- (internal/core/store/store.go). What the database answers is an argument.
pub mod Held
pub mod Grows
pub mod Queued
pub mod Admitted
mod Tests
use tvr.Base.{
  ℕ, Bool, true, false, not, ◌&&◌, ◌||◌, List, [], ◌∷◌, ◌++◌, map, Option, none, some, ◌==◌,
  if◌then◌else◌, Text, text_eq, is_empty, trim_space, Result, ok, err, ◌>>=◌,
}
use tvr.Stream.Copy.{decimal}
use tvr.Utils.Slice.{unique_int64}
use tvr.Epg.Service.{Service, is_nil}
use tvr.Epg.Queue.{
  WorkError, admission_closed, DueSource, acquire_admission, release_admission,
  enqueue_refresh_source, enqueue_refresh_due, enqueue_rebuild_relays, enqueue_relay_cleanup,
  enqueue_delete_source_files, invalidate_source,
}
use tvr.Epg.Requests.{Request, serve_all}

pub record RelaySlugCleanup : Type 0 where
  pub relay_id : ℕ
  pub old_slug : Text

pub record DerivedWork : Type 0 where
  pub refresh_sources : List ℕ
  pub invalidate_sources : List ℕ
  pub delete_source_files : List ℕ
  pub rebuild_relays : List ℕ
  pub cleanup_relay_slugs : List RelaySlugCleanup
  pub wake_due : Bool

abbrev pub no_work : DerivedWork
no_work = record {
  refresh_sources = [];
  invalidate_sources = [];
  delete_source_files = [];
  rebuild_relays = [];
  cleanup_relay_slugs = [];
  wake_due = false;
}

pub data Failure : Type 0 where
  store_failed : Text → Failure
  refused : WorkError → Failure

-- The clock and the enabled sources of the database, for `EnqueueRefreshDue`.
pub record Due : Type 0 where
  pub now : ℕ
  pub sources : Result Text (List DueSource)

abbrev pub Noted : Type 0
Noted = Service × Option Failure

-- `note`: the first error is kept.
abbrev pub note : Option Failure → Service × Option WorkError → Noted
note none (s, none) = (s, none)
note none (s, some e) = (s, some (refused e))
note (some f) (s, e) = (s, some f)

abbrev pub note_all {ℓ} :
    {A : Type ℓ} → (A → Service → Service × Option WorkError) → List A → Noted → Noted
note_all go [] n = n
note_all go (x ∷ xs) (s, f) = note_all go xs (note f (go x s))

abbrev pub invalidate_all : List ℕ → Service → Service
invalidate_all [] s = s
invalidate_all (id ∷ ids) s = invalidate_all ids (invalidate_source id s)

abbrev pub or_failed : Option Failure → Text → Option Failure
or_failed none e = some (store_failed e)
or_failed (some f) e = some f

abbrev pub wake_due_now : Bool → Due → Noted → Noted
wake_due_now false due n = n
wake_due_now true due (s, f) = elim due.sources [
  | err e ↦ (s, or_failed f e)
  | ok srcs ↦ note f (enqueue_refresh_due due.now srcs s)
]

abbrev pub rebuild_now : List ℕ → Noted → Noted
rebuild_now ids (s, f) = if is_nil ids then (s, f) else note f (enqueue_rebuild_relays ids s)

unfoldable pub apply_derived_work : Due → DerivedWork → Service → Noted
apply_derived_work due work s =
    note_all (λ c. enqueue_relay_cleanup c.relay_id c.old_slug) work.cleanup_relay_slugs
      (rebuild_now work.rebuild_relays (
        wake_due_now work.wake_due due (
          note_all enqueue_refresh_source work.refresh_sources (
            note_all enqueue_delete_source_files work.delete_source_files
              (invalidate_all work.invalidate_sources s, none)))))

-- What others ask of the worker between the admission and the derived work, and the clock.
pub record Meanwhile : Type 0 where
  pub requests : List Request
  pub due : Due

-- The body under an admission, from what the database answered: its value, and the derived work if any.
abbrev pub conclude {ℓ} :
    {A : Type ℓ} → Due → Result Text (A × Option DerivedWork) → Service → Service × Result Failure A
conclude due (err e) s = (s, err (store_failed e))
conclude due (ok (x, none)) s = (s, ok x)
conclude due (ok (x, some work)) s = ((apply_derived_work due work s).0, ok x)

abbrev pub released {ℓ} : {A : Type ℓ} → Service × Result Failure A → Service × Result Failure A
released (s, r) = (release_admission s, r)

unfoldable pub with_admission {ℓ} :
    {A : Type ℓ}
    → Meanwhile
    → Result Text (A × Option DerivedWork)
    → Service
    → Service × Result Failure A
with_admission w body s = elim (acquire_admission s) [
  | none ↦ (s, err (refused admission_closed))
  | some s' ↦ released (conclude w.due body (serve_all w.requests s'))
]

pub record SourceRow : Type 0 where
  pub id : ℕ
  pub url : Text
  pub enabled : Bool
  pub refresh_interval : ℕ

abbrev pub refresh_if : Bool → ℕ → List ℕ
refresh_if b id = if b then id ∷ [] else []

unfoldable pub create_epg_source :
    Result Text SourceRow → Result Text (SourceRow × Option DerivedWork)
create_epg_source created =
    created
    >>= (λ src. ok (src, some (record no_work { refresh_sources = refresh_if src.enabled src.id })))

unfoldable pub source_changes : ℕ → SourceRow → SourceRow → DerivedWork
source_changes id existing src =
    if not (text_eq (trim_space existing.url) (trim_space src.url))
    then record no_work {
      invalidate_sources = id ∷ [];
      delete_source_files = id ∷ [];
      refresh_sources = refresh_if src.enabled id;
    }
    else if not existing.enabled && src.enabled
    then record no_work { refresh_sources = id ∷ [] }
    else record no_work {
      wake_due = not (existing.refresh_interval == src.refresh_interval) && src.enabled;
    }

unfoldable pub update_epg_source :
    ℕ → Result Text SourceRow → Result Text SourceRow → Result Text (SourceRow × Option DerivedWork)
update_epg_source id got updated =
    got >>= (λ existing. updated >>= (λ src. ok (src, some (source_changes id existing src))))

unfoldable pub delete_epg_source :
    ℕ → Result Text (Unit {0}) → Result Text (Unit {0} × Option DerivedWork)
delete_epg_source id deleted = deleted >>= (λ u.
    ok (u, some (record no_work { invalidate_sources = id ∷ []; delete_source_files = id ∷ [] })))

unfoldable pub update_relay :
    ℕ → Result Text Text → Result Text Text → Result Text (Text × Option DerivedWork)
update_relay id got_slug updated_slug = got_slug >>= (λ old. updated_slug >>= (λ new. ok (
  new,
  (if not (text_eq old new)
      then some (record no_work {
        rebuild_relays = id ∷ [];
        cleanup_relay_slugs = record { relay_id = id; old_slug = old } ∷ [];
      })
      else none),
)))

unfoldable pub delete_relay :
    ℕ → Result Text Text → Result Text (Unit {0}) → Result Text (Unit {0} × Option DerivedWork)
delete_relay id got_slug deleted = got_slug >>= (λ old. deleted >>= (λ u. ok (
  u,
  some (record no_work { cleanup_relay_slugs = record { relay_id = id; old_slug = old } ∷ [] }),
)))

-- A channel's or a membership's pair of an EPG source and a channel of it.
pub record Pair : Type 0 where
  pub epg_source_id : Option ℕ
  pub tvg_id : Text

unfoldable pub mapping_key : Option ℕ → Text → Text
mapping_key none tvg_id = []
mapping_key (some id) tvg_id =
    if is_empty (trim_space tvg_id) then [] else decimal 20 id ++ (0 ∷ trim_space tvg_id)

unfoldable pub has_mapping : Option ℕ → Text → Bool
unfolding mapping_key
has_mapping id tvg_id = not (is_empty (mapping_key id tvg_id))

abbrev pub pair_key : Pair → Text
pair_key p = mapping_key p.epg_source_id p.tvg_id

abbrev pub rebuild_if : Bool → ℕ → Option DerivedWork
rebuild_if b id = if b then some (record no_work { rebuild_relays = id ∷ [] }) else none

unfoldable pub add_membership : ℕ → Result Text Pair → Result Text (Pair × Option DerivedWork)
add_membership relay_id added =
    added >>= (λ m. ok (m, rebuild_if (has_mapping m.epg_source_id m.tvg_id) relay_id))

unfoldable pub update_membership :
    ℕ → Result Text Pair → Result Text Pair → Result Text (Pair × Option DerivedWork)
update_membership relay_id got updated = got >>= (λ before.
    updated >>= (λ m. ok (m, rebuild_if (not (text_eq (pair_key before) (pair_key m))) relay_id)))

unfoldable pub delete_membership :
    ℕ → Result Text Pair → Result Text (Unit {0}) → Result Text (Unit {0} × Option DerivedWork)
delete_membership relay_id got deleted = got >>= (λ before.
    deleted >>= (λ u. ok (u, rebuild_if (has_mapping before.epg_source_id before.tvg_id) relay_id)))

-- `UpdateChannel`, which takes no admission.
unfoldable pub enqueue_channel_epg_rebuild :
    Due → Pair → Pair → Result Text (List ℕ) → Service → Service
enqueue_channel_epg_rebuild due before after owners s =
    if text_eq (pair_key before) (pair_key after) then s else elim owners [
      | err e ↦ s
      | ok ids ↦ (apply_derived_work due (record no_work { rebuild_relays = ids }) s).0
    ]

unfoldable pub update_channel :
    Due
    → Result Text Pair
    → Result Text Pair
    → Result Text (List ℕ)
    → Service
    → Service × Result Text (Pair × Pair)
update_channel due got updated owners s = elim got [
  | err e ↦ (s, err e)
  | ok before ↦ elim updated [
    | err e ↦ (s, err e)
    | ok after ↦ (enqueue_channel_epg_rebuild due before after owners s, ok (before, after))
  ]
]

pub record ImportResult : Type 0 where
  pub relay_id : ℕ
  pub updated_ids : List Text
  pub epg_source_ids : List ℕ

-- The loop over the channels that the import changed; a lookup that fails is passed over.
unfoldable pub owners_of : (Text → Result Text (List ℕ)) → List Text → List ℕ
owners_of owners [] = []
owners_of owners (ch ∷ chs) = elim (owners ch) [
  | err e ↦ owners_of owners chs
  | ok ids ↦ ids ++ owners_of owners chs
]

unfoldable pub import_relay :
    Result Text ImportResult
    → (Text → Result Text (List ℕ))
    → Result Text (ImportResult × Option DerivedWork)
import_relay imported owners = imported >>= (λ r. ok (
  r,
  some (record no_work {
    rebuild_relays = unique_int64 (r.relay_id ∷ owners_of owners r.updated_ids);
    refresh_sources = r.epg_source_ids;
  }),
))

pub record RelayRef : Type 0 where
  pub id : ℕ
  pub slug : Text

pub record RestoreResult : Type 0 where
  pub restored_relays : List RelayRef
  pub removed_relays : List RelayRef
  pub old_epg_source_ids : List ℕ
  pub refresh_epg_source_ids : List ℕ

unfoldable pub restore_derived_work : RestoreResult → DerivedWork
restore_derived_work r = record {
  invalidate_sources = r.old_epg_source_ids;
  delete_source_files = r.old_epg_source_ids;
  refresh_sources = r.refresh_epg_source_ids;
  rebuild_relays = map (λ (x : RelayRef). x.id) r.restored_relays;
  cleanup_relay_slugs =
      map (λ (x : RelayRef). record { relay_id = x.id; old_slug = x.slug }) r.removed_relays;
  wake_due = false;
}

unfoldable pub restore_library :
    Result Text RestoreResult → Result Text (RestoreResult × Option DerivedWork)
unfolding restore_derived_work
restore_library restored = restored >>= (λ r. ok (r, some (restore_derived_work r)))
