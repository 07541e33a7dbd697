-- ===== src/Epg/Tests.antt =====
-- internal/core/epg on one source and one relay.
use tvr.Base.{
  ◌+◌, ◌<◌, ◌^◌, arith, Bool, true, false, leb, ◌&&◌, [], ◌∷◌, none, some, codes, is_empty,
  trim_space, trim_left, trim_right, to_lower, is_space, text_eq, lookup, nat_eq, text_key, ok, ◌≡◌,
  ◌⊎◌, inr, refl, sym, some_ne_none,
}
use tvr.Utils.Natsort.{Unicode}
use tvr.Epg.Documents.{TvDocument}
use tvr.Epg.Service.{current_source_rev, Service, GenerationFile, new_service}
use tvr.Epg.Manifest.{find_generation, eligible_source}
use tvr.Epg.Requests.{
  KeepsFiles, refreshes, closes, invalidates, cleans, looks_up, acquires, releases,
}
use tvr.Epg.Refresh.{Lookup, found, missing, EpgSource, Answers, process_source}
use tvr.Epg.Refresh.Stale.{outdated, process_source-outdated}
use tvr.Epg.Refresh.Backing.{IsBacked, process_source-IsBacked, process_source-serves}
use tvr.Epg.Relays.{RelayRow}
use tvr.Epg.Cleanup.{CleanupAnswers, process_cleanup}
use tvr.Epg.Cleanup.Spares.{process_cleanup-keeps_owned}

abbrev ascii : Unicode
ascii = record {
  is_digit = λ r. leb b'0' r && leb r b'9';
  is_han = λ r. leb 19968 r && leb r 40959;
  is_space = is_space;
  to_lower = to_lower;
}

abbrev guide : TvDocument
guide = record { generator_info_name = codes "x"; channels = []; programmes = [] }

abbrev news : EpgSource
news = record { name = codes "news"; url = codes "http://g" }

abbrev empty : Service
empty = new_service (record { manifests = []; generations = []; caches = [] })

-- The source is there and its guide is fetched; meanwhile another refresh is asked for, the worker is closed, and
-- another source is invalidated.
abbrev answers : Answers
answers = record {
  during_first = cleans 4 (codes "old") ∷ [];
  first = found news;
  now = 100;
  cancelled = false;
  fetched = ok guide;
  during_fetch = refreshes 7 ∷ closes ∷ [];
  second = found news;
  generation = codes "g1";
  written = ok tt;
  during_write = invalidates 9 ∷ [];
  during_third = invalidates 2 ∷ [];
  third = found news;
  manifest_written = ok tt;
  during_manifest = looks_up ascii false 2 (codes "http://g") ∷ [];
  during_relays = acquires ∷ releases ∷ [];
  relays = ok (4 ∷ []);
}

no_generation : find_generation 2 (codes "g1") empty.files.generations ≡ none
unfolding find_generation new_service
no_generation = refl

no_manifest : IsBacked empty.files
unfolding lookup new_service
no_manifest id m h = absurd (some_ne_none (sym h))

process_source-IsBacked_example : IsBacked (process_source ascii 2 answers empty).0.files
process_source-IsBacked_example =
    process_source-IsBacked ascii 2 answers empty no_generation no_manifest

-- The source is invalidated while its files are written.
abbrev overtaken : Answers
overtaken = record answers { during_write = invalidates 9 ∷ invalidates 2 ∷ [] }

no_rev : current_source_rev 2 empty ≡ 0
unfolding current_source_rev new_service lookup
no_rev = refl

is_outdated :
    0
    < outdated 2 overtaken.during_first
      + (outdated 2 overtaken.during_fetch + outdated 2 overtaken.during_write)
is_outdated = omega arith

no_wrap :
    current_source_rev 2 empty
      + (outdated 2 overtaken.during_first
          + (outdated 2 overtaken.during_fetch + outdated 2 overtaken.during_write))
      + 1
    < 2 ^ 64
no_wrap = omega (arith, no_rev)

process_source-outdated_example :
    KeepsFiles empty (process_source ascii 2 overtaken empty).0 ⊎ (overtaken.first ≡ missing)
process_source-outdated_example =
    process_source-outdated ascii 2 overtaken empty no_generation is_outdated no_wrap

url_full : is_empty (trim_space (codes "http://g")) ≡ false
unfolding trim_space trim_left trim_right is_space
url_full = refl

process_source-serves_example :
    KeepsFiles empty (process_source ascii 2 answers empty).0
    ⊎ ((answers.first ≡ missing)
        ⊎ ((g : GenerationFile) × ((eligible_source ascii false 2
                (codes "http://g")
                (process_source ascii 2 answers empty).0).1
              ≡ some g)
            × (answers.fetched ≡ ok g.doc)))
process_source-serves_example =
    process_source-serves ascii false 2 answers empty news no_generation refl refl url_full

abbrev stored : GenerationFile
stored = record { source = 2; generation = codes "g1"; doc = guide; index = none }

abbrev with_news : Service
with_news = new_service (record {
  manifests =
      (2, record { generation = codes "g1"; source_url = codes "http://g"; fetched_at = 5 }) ∷ [];
  generations = stored ∷ [];
  caches = (codes "old", guide) ∷ (codes "new", guide) ∷ [];
})

-- The relay 6 has been renamed from old to new.
abbrev renamed : RelayRow
renamed = record { slug = codes "new" }

abbrev if_new : Bool → Lookup RelayRow
if_new true = found renamed
if_new false = missing

abbrev cleaning : CleanupAnswers
cleaning = record {
  relay = found renamed;
  by_slug = λ t. if_new (text_eq t (codes "new"));
  removes = λ t. true;
  now = 100;
}

process_cleanup-keeps_owned_example :
    lookup
      (codes "new")
      (process_cleanup 6 cleaning
        ((codes "new", tt) ∷ (codes "old", tt) ∷ [])
        with_news).files.caches
    ≡ lookup (codes "new") with_news.files.caches
process_cleanup-keeps_owned_example =
    process_cleanup-keeps_owned 6 cleaning ((codes "new", tt) ∷ (codes "old", tt) ∷ []) with_news
      (codes "new") renamed (inr (refl, refl))

old_full : is_empty (trim_space (codes "old")) ≡ false
unfolding trim_space trim_left trim_right is_space
old_full = refl
