-- ===== src/Epg/Refresh.antt =====
-- internal/core/epg/worker.go and manifest.go: `processSource`. What the database, the network and the disk answer is an argument, and so
-- is what other goroutines do at each place where the worker does not hold the lock.
pub mod Published
pub mod Current
pub mod Backing
pub mod Stale
use tvr.Base.{
  ℕ, ◌+◌, ◌*◌, Bool, true, false, not, ◌&&◌, ◌||◌, List, [], ◌∷◌, ◌++◌, Option, none, some, ltb,
  leb, ◌==◌, if◌then◌else◌, Text, codes, text_eq, is_empty, trim_space, Dict, lookup, insert,
  delete, nat_eq, Result, ok, err, ◌≡◌, ◌⊎◌, inl, inr, refl,
}
use tvr.Utils.Natsort.{Unicode}
use tvr.Epg.Documents.{TvDocument}
use tvr.Epg.Service.{
  Service, SourceManifest, IndexTag, GenerationFile, Files, set_ok, current_source_rev,
  delete_source_files, drop_generation,
}
use tvr.Epg.Order.{index_from_doc}
use tvr.Epg.Requests.{Request, serve_all}
use tvr.Epg.Queue.{is_before, enqueue_rebuild_relays}

-- What a query for one row gives.
pub data Lookup (A : Type 0) : Type 0 where
  found : A → Lookup A
  missing : Lookup A
  lookup_failed : Text → Lookup A

pub Lookup-cases :
    {A : Type 0} (l : Lookup A)
    → ((a : A) × (l ≡ found a)) ⊎ ((l ≡ missing) ⊎ ((e : Text) × (l ≡ lookup_failed e)))
Lookup-cases (found a) = inl (a, refl)
Lookup-cases missing = inr (inl refl)
Lookup-cases (lookup_failed e) = inr (inr (e, refl))

pub record EpgSource : Type 0 where
  pub name : Text
  pub url : Text

pub record Answers : Type 0 where
  -- Other goroutines while the source is looked up.
  pub during_first : List Request
  pub first : Lookup EpgSource
  pub now : ℕ
  pub cancelled : Bool
  pub fetched : Result Text TvDocument
  -- Other goroutines during the fetch.
  pub during_fetch : List Request
  pub second : Lookup EpgSource
  pub generation : Text
  pub written : Result Text (Unit {0})
  -- Other goroutines while the files are written.
  pub during_write : List Request
  -- Other goroutines behind the test of the revision, while the source is looked up and the manifest is written.
  pub during_third : List Request
  pub third : Lookup EpgSource
  pub manifest_written : Result Text (Unit {0})
  pub during_manifest : List Request
  -- Other goroutines behind the update of the index.
  pub during_relays : List Request
  pub relays : Result Text (List ℕ)

abbrev pub second_ns : ℕ
second_ns = 1_000_000_000

abbrev pub max_backoff : ℕ
max_backoff = 300_000_000_000

-- `backoff` behind a failed fetch: a second, doubled each time up to five minutes.
abbrev pub next_backoff : Option ℕ → ℕ
next_backoff none = second_ns
next_backoff (some b) = if b == 0 then second_ns else if ltb b max_backoff then b * 2 else b

unfoldable pub fetch_failed : ℕ → ℕ → Text → Service → Service
fetch_failed id now message s =
    let backoff = next_backoff (lookup id s.fail_backoff) in
    record s {
      fail_backoff = insert id backoff s.fail_backoff;
      next_retry = insert id (now + backoff) s.next_retry;
      last_error = message;
    }

-- `writeSourceGenerationFiles`.
unfoldable pub write_generation : Unicode → ℕ → Text → Text → TvDocument → Service → Service
write_generation u id gen url doc s = record s {
  files = record s.files {
    generations =
        record {
          source = id;
          generation = gen;
          doc = doc;
          index = some (record {
            source_url = trim_space url;
            generation = gen;
            channels = index_from_doc u doc;
          });
        }
        ∷ s.files.generations;
  };
}

unfoldable pub remove_generation : ℕ → Text → Service → Service
remove_generation id gen s = record s {
  files = record s.files { generations = drop_generation id gen s.files.generations };
}

unfoldable pub publish_manifest : ℕ → Text → Text → ℕ → Service → Service
publish_manifest id gen url now s = record s {
  files = record s.files {
    manifests =
        insert id (record { generation = gen; source_url = trim_space url; fetched_at = now })
          s.files.manifests;
  };
}

abbrev pub with_index : Unicode → ℕ → Text → Text → TvDocument → Service → Service
with_index u id gen url doc s = record s {
  indexes =
      insert id
        (record { source_url = trim_space url; generation = gen; channels = index_from_doc u doc })
        s.indexes;
  next_retry = delete id s.next_retry;
  fail_backoff = delete id s.fail_backoff;
}

-- The end of a refresh: the index in memory, the backoff forgotten, and the relays that use the source.
unfoldable pub refreshed :
    Unicode → ℕ → Text → Text → TvDocument → Answers → Service → Service × Option Text
refreshed u id gen url doc a s =
    let t = serve_all a.during_relays (with_index u id gen url doc s) in
    elim a.relays [
      | err e ↦ (t, some e)
      | ok ids ↦ (set_ok a.now (enqueue_rebuild_relays ids t).0, none)
    ]

abbrev pub same_url : Text → Text → Bool
same_url a b = text_eq (trim_space a) (trim_space b)

-- Behind the test of the revision: publish if the database still has the URL that was fetched.
unfoldable pub publish_checked :
    Unicode → ℕ → EpgSource → TvDocument → Answers → Service → Service × Option Text
publish_checked u id src2 doc a s = elim a.third [
  | missing ↦ (remove_generation id a.generation s, some (codes "not found"))
  | lookup_failed e ↦ (remove_generation id a.generation s, some e)
  | found src3 ↦
      if not (same_url src3.url src2.url)
      then (remove_generation id a.generation s, none)
      else elim a.manifest_written [
        | err e ↦ (remove_generation id a.generation s, some e)
        | ok w ↦
            refreshed u id a.generation src2.url doc a
              (serve_all a.during_manifest (publish_manifest id a.generation src2.url a.now s))
      ]
]

-- The files are written; publish them if the source is still the one that was fetched. The lock is not held from the
-- test of the revision to the update of the index: others are served between.
unfoldable pub publish :
    Unicode → ℕ → ℕ → EpgSource → TvDocument → Answers → Service → Service × Option Text
publish u id rev src2 doc a s =
    if not (current_source_rev id s == rev)
    then (remove_generation id a.generation s, none)
    else publish_checked u id src2 doc a (serve_all a.during_third s)

-- Behind a fetch that succeeded.
unfoldable pub store_fetched :
    Unicode → ℕ → ℕ → EpgSource → TvDocument → Answers → Service → Service × Option Text
store_fetched u id rev src doc a s = elim a.second [
  | missing ↦ (s, some (codes "not found"))
  | lookup_failed e ↦ (s, some e)
  | found src2 ↦
      if not (current_source_rev id s == rev) || not (same_url src2.url src.url)
      then (s, none)
      else elim a.written [
        | err e ↦ (s, some e)
        | ok w ↦
            publish u id rev src2 doc a
              (serve_all a.during_write (write_generation u id a.generation src2.url doc s))
      ]
]

unfoldable pub fetch_and_store :
    Unicode → ℕ → ℕ → EpgSource → Answers → Service → Service × Option Text
fetch_and_store u id rev src a s = elim a.fetched [
  | err e ↦ (
    fetch_failed id a.now e (serve_all a.during_fetch s),
    some (codes "source \"" ++ (src.name ++ (codes "\": " ++ e))),
  )
  | ok doc ↦ store_fetched u id rev src doc a (serve_all a.during_fetch s)
]

unfoldable pub process_source : Unicode → ℕ → Answers → Service → Service × Option Text
process_source u id a s =
    let rev = current_source_rev id s in
    let t = serve_all a.during_first s in
    elim a.first [
      | missing ↦ (delete_source_files id t, none)
      | lookup_failed e ↦ (t, some e)
      | found src ↦
          if is_before a.now (lookup id t.next_retry)
          then (t, none)
          else if a.cancelled
          then (t, some (codes "context canceled"))
          else fetch_and_store u id rev src a t
    ]
