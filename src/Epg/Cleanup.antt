-- ===== src/Epg/Cleanup.antt =====
-- internal/core/epg/worker.go, `processCleanup`: the caches of slugs that no relay has any more are removed. The lookups of the
-- database and whether a file can be removed are arguments.
pub mod Slugs
pub mod Spares
use tvr.Base.{
  ℕ, Bool, true, false, not, ◌&&◌, ◌||◌, List, [], ◌∷◌, Option, none, some, ◌==◌, if◌then◌else◌,
  Text, text_eq, is_empty, trim_space, Dict, lookup, insert, delete, text_key,
}
use tvr.Epg.Documents.{TvDocument}
use tvr.Epg.Service.{Service, Files, is_nil}
use tvr.Epg.Queue.{defer_cleanup}
use tvr.Epg.Refresh.{Lookup, found, missing, lookup_failed}
use tvr.Epg.Relays.{RelayRow}

pub record CleanupAnswers : Type 0 where
  pub relay : Lookup RelayRow
  pub by_slug : Text → Lookup RelayRow
  pub removes : Text → Bool
  pub now : ℕ

abbrev pub has_cache : Text → Dict Text TvDocument → Bool
has_cache slug caches = elim (lookup slug caches) [ none ↦ false | some doc ↦ true ]

-- What is done about one slug: it stays, is to be tried again, or its cache is removed.
pub data Verdict : Type 0 where
  keeps retries removes_it : Verdict

abbrev pub own_verdict : Lookup RelayRow → Text → Dict Text TvDocument → Verdict
own_verdict (found relay) slug caches =
    if text_eq relay.slug slug
    then keeps
    else if has_cache relay.slug caches
    then removes_it
    else retries
own_verdict missing slug caches = removes_it
own_verdict (lookup_failed e) slug caches = removes_it

unfoldable pub verdict : CleanupAnswers → Text → Dict Text TvDocument → Verdict
verdict a slug caches = if is_empty slug then keeps else elim (a.by_slug slug) [
  | found r ↦ keeps
  | lookup_failed e ↦ retries
  | missing ↦ own_verdict a.relay slug caches
]

-- The files, and the slugs that are still to be done.
abbrev pub apply_verdict :
    Bool
    → Verdict
    → Text
    → Dict Text TvDocument × Dict Text (Unit {0})
    → Dict Text TvDocument × Dict Text (Unit {0})
apply_verdict removed keeps slug (caches, pending) = (caches, pending)
apply_verdict removed retries slug (caches, pending) = (caches, insert slug tt pending)
apply_verdict removed removes_it slug (caches, pending) =
    if removed then (delete slug caches, pending) else (caches, insert slug tt pending)

unfoldable pub clean_slugs :
    CleanupAnswers
    → Dict Text (Unit {0})
    → Dict Text TvDocument × Dict Text (Unit {0})
    → Dict Text TvDocument × Dict Text (Unit {0})
clean_slugs a [] st = st
clean_slugs a ((old, w) ∷ rest) st =
    let slug = trim_space old in
    clean_slugs a rest (apply_verdict (a.removes slug) (verdict a slug st.0) slug st)

abbrev pub with_caches : Dict Text TvDocument → Service → Service
with_caches caches s = record s { files = record s.files { caches = caches } }

unfoldable pub clean_relay : ℕ → CleanupAnswers → Dict Text (Unit {0}) → Service → Service
clean_relay relay_id a slugs s =
    let st = clean_slugs a slugs (s.files.caches, []) in
    let s' = with_caches st.0 s in if is_nil st.1 then s' else defer_cleanup a.now relay_id st.1 s'

unfoldable pub process_cleanup : ℕ → CleanupAnswers → Dict Text (Unit {0}) → Service → Service
process_cleanup relay_id a slugs s = if is_nil slugs then s else elim a.relay [
  | lookup_failed e ↦ defer_cleanup a.now relay_id slugs s
  | missing ↦ clean_relay relay_id a slugs s
  | found relay ↦ clean_relay relay_id a slugs s
]
