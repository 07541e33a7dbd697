-- ===== src/Utils/Slice.antt =====
-- internal/utils/slice.go. The map `seen` of `UniqueInt64` is the list of the ids in it.
use tvr.Base.{
  ℕ, Bool, true, false, List, [], ◌∷◌, ◌++◌, ◌≡◌, refl, ◌∙◌, ◌==◌, if◌then◌else◌, arith, Text,
  text_eq,
}

abbrev pub holds : List Text → Text → Bool
holds [] v = false
holds (x ∷ xs) v = if text_eq x v then true else holds xs v

unfoldable pub append_unique : List Text → Text → List Text
append_unique list v = if holds list v then list else list ++ v ∷ []

unfoldable pub contains_int64 : List ℕ → ℕ → Bool
contains_int64 [] want = false
contains_int64 (id ∷ ids) want = if id == want then true else contains_int64 ids want

-- The loop of `UniqueInt64`; the list returned is `out` followed by what the rest of the loop appends.
unfoldable pub unique_loop : List ℕ → List ℕ → List ℕ
unique_loop seen [] = []
unique_loop seen (id ∷ ids) =
    let same = unique_loop seen ids in
    let more = unique_loop (id ∷ seen) ids in if contains_int64 seen id then same else id ∷ more

unfoldable pub unique_int64 : List ℕ → List ℕ
unique_int64 ids = unique_loop [] ids

-- No id stands in the list twice.
abbrev pub is_unique : List ℕ → Bool
is_unique [] = true
is_unique (id ∷ ids) = if contains_int64 ids id then false else is_unique ids

contains-unique_loop :
    (seen ids : List ℕ) (want : ℕ)
    → contains_int64 (unique_loop seen ids) want
      ≡ (if contains_int64 seen want then false else contains_int64 ids want)
unfolding unique_loop contains_int64
contains-unique_loop seen [] want = ground arith
contains-unique_loop seen (id ∷ ids) want =
    ground (arith, contains-unique_loop seen ids want, contains-unique_loop (id ∷ seen) ids want)

unique_loop-is_unique : (seen ids : List ℕ) → is_unique (unique_loop seen ids) ≡ true
unfolding unique_loop contains_int64
unique_loop-is_unique seen [] = refl
unique_loop-is_unique seen (id ∷ ids) = ground (
  arith,
  unique_loop-is_unique seen ids,
  unique_loop-is_unique (id ∷ seen) ids,
  contains-unique_loop (id ∷ seen) ids id,
)

-- `UniqueInt64` keeps exactly the ids that the list has, each once.
pub unique_int64-is_unique :
    (ids : List ℕ)
    → (is_unique (unique_int64 ids) ≡ true)
      × ((want : ℕ) → contains_int64 (unique_int64 ids) want ≡ contains_int64 ids want)
unfolding unique_int64
unique_int64-is_unique ids = (
  unique_loop-is_unique [] ids,
  λ want. contains-unique_loop [] ids want ∙ unfold contains_int64 in refl,
)
