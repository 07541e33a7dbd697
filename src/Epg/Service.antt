-- ===== src/Epg/Service.antt =====
-- internal/core/epg/service.go: what the service keeps, and its files. A map to `struct{}` is a dictionary to the unit type;
-- the channel `wake` of capacity one is a flag; times and durations are nanoseconds, and a zero time is `none`.
-- Files are kept by what their names say: a manifest by the source, a generation by the source and the
-- generation, the cache of a relay by its slug.
use tvr.Base.{
  ℕ, Bool, true, false, ◌&&◌, ◌||◌, not, List, [], ◌∷◌, Option, none, some, ◌==◌, if◌then◌else◌,
  Text, text_eq, Dict, lookup, delete, nat_eq, text_key,
}
use tvr.Epg.Documents.{TvDocument}

pub record ChannelInfo : Type 0 where
  pub id : Text
  pub display_names : List Text

pub record SourceManifest : Type 0 where
  pub generation : Text
  pub source_url : Text
  pub fetched_at : ℕ

pub record IndexTag : Type 0 where
  pub source_url : Text
  pub generation : Text
  pub channels : List ChannelInfo

pub record RelayCleanup : Type 0 where
  pub slugs : Dict Text (Unit {0})
  pub retry_after : Option ℕ

pub record GenerationFile : Type 0 where
  pub source : ℕ
  pub generation : Text
  pub doc : TvDocument
  pub index : Option IndexTag

pub record Files : Type 0 where
  pub manifests : Dict ℕ SourceManifest
  pub generations : List GenerationFile
  pub caches : Dict Text TvDocument

pub record Service : Type 0 where
  pub last_ok : Option ℕ
  pub last_error : Text
  pub busy : Bool
  pub admit_open : Bool
  pub admit_held : ℕ
  pub indexes : Dict ℕ IndexTag
  pub pending_sources : Dict ℕ (Unit {0})
  pub pending_relays : Dict ℕ (Unit {0})
  pub pending_delete_sources : Dict ℕ (Unit {0})
  pub cleanups : Dict ℕ RelayCleanup
  pub source_rev : Dict ℕ ℕ
  pub next_retry : Dict ℕ ℕ
  pub fail_backoff : Dict ℕ ℕ
  pub wake : Bool
  pub files : Files

-- `New`, before what is on the disk is looked at.
unfoldable pub new_service : Files → Service
new_service files = record {
  last_ok = none;
  last_error = [];
  busy = false;
  admit_open = true;
  admit_held = 0;
  indexes = [];
  pending_sources = [];
  pending_relays = [];
  pending_delete_sources = [];
  cleanups = [];
  source_rev = [];
  next_retry = [];
  fail_backoff = [];
  wake = false;
  files = files;
}

abbrev pub is_nil {ℓ} : {A : Type ℓ} → List A → Bool
is_nil [] = true
is_nil (x ∷ xs) = false

-- The field `Refreshing` of `Status`.
unfoldable pub refreshing : Service → Bool
refreshing s =
    s.busy
    || not (is_nil s.pending_sources)
    || not (is_nil s.pending_relays)
    || not (is_nil s.pending_delete_sources)
    || not (is_nil s.cleanups)

abbrev pub set_ok : ℕ → Service → Service
set_ok now s = record s { last_ok = some now; last_error = [] }

abbrev pub set_error : Text → Service → Service
set_error message s = record s { last_error = message }

abbrev pub rev_of : Option ℕ → ℕ
rev_of none = 0
rev_of (some n) = n

unfoldable pub current_source_rev : ℕ → Service → ℕ
current_source_rev id s = rev_of (lookup id s.source_rev)

-- The files of a source but those of one generation, and those of the others.
unfoldable pub drop_generation : ℕ → Text → List GenerationFile → List GenerationFile
drop_generation id gen [] = []
drop_generation id gen (g ∷ gs) =
    let rest = drop_generation id gen gs in
    if g.source == id && text_eq g.generation gen then rest else g ∷ rest

unfoldable pub drop_source : ℕ → List GenerationFile → List GenerationFile
drop_source id [] = []
drop_source id (g ∷ gs) = let rest = drop_source id gs in if g.source == id then rest else g ∷ rest

unfoldable pub delete_source_files : ℕ → Service → Service
delete_source_files id s = record s {
  files = record s.files {
    manifests = delete id s.files.manifests;
    generations = drop_source id s.files.generations;
  };
  indexes = delete id s.indexes;
}
