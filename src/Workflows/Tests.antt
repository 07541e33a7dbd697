-- ===== src/Workflows/Tests.antt =====
-- internal/core/workflows on an import and the change of a slug.
use tvr.Base.{true, false, [], ◌∷◌, codes, List, none, ok, ◌≡◌, refl}
use tvr.Epg.Service.{Service, new_service}
use tvr.Epg.Queue.{DueSource, is_shut}
use tvr.Epg.Requests.{acquires, closes, releases, refreshes, rebuilds, cleans, serve_all}
use tvr.Workflows.{DerivedWork, Due, Meanwhile, apply_derived_work}
use tvr.Workflows.Queued.{IsQueued, due_failure, apply_derived_work-IsQueued}
use tvr.Workflows.Admitted.{StaysShut, serve_all-StaysShut}

abbrev fresh : Service
fresh = new_service (record { manifests = []; generations = []; caches = [] })

abbrev all_work : DerivedWork
all_work = record {
  refresh_sources = 3 ∷ [];
  invalidate_sources = 2 ∷ [];
  delete_source_files = 2 ∷ [];
  rebuild_relays = 6 ∷ 0 ∷ [];
  cleanup_relay_slugs = record { relay_id = 6; old_slug = codes "old" } ∷ [];
  wake_due = true;
}

abbrev waiting : List DueSource
waiting = record { id = 9; refresh_interval = 0; last_refresh_at = none } ∷ []

abbrev due : Due
due = record { now = 100; sources = ok waiting }

not_shut : is_shut fresh ≡ false
unfolding new_service
not_shut = refl

apply_derived_work-IsQueued_example :
    ((apply_derived_work due all_work fresh).1 ≡ due_failure true (ok waiting))
    × IsQueued due all_work (apply_derived_work due all_work fresh).0
apply_derived_work-IsQueued_example = apply_derived_work-IsQueued due all_work fresh not_shut

-- The worker is closed behind the admission, and another that had one releases it.
abbrev closing : Meanwhile
closing = record { requests = acquires ∷ closes ∷ releases ∷ []; due = due }

abbrev admitted : Service
admitted = record fresh { admit_held = 1 }

abbrev closed : Service
closed = record fresh { admit_open = false }

is_closed : is_shut closed ≡ true
unfolding new_service
is_closed = refl

serve_all-StaysShut_example : StaysShut closed (
    serve_all (acquires ∷ refreshes 3 ∷ rebuilds (1 ∷ 2 ∷ []) ∷ cleans 6 (codes "old") ∷ []) closed)
serve_all-StaysShut_example =
    serve_all-StaysShut
      (acquires ∷ refreshes 3 ∷ rebuilds (1 ∷ 2 ∷ []) ∷ cleans 6 (codes "old") ∷ []) closed
      is_closed
