-- ===== src/Upstream/Source.antt =====
-- internal/core/upstream/source.go: upstreams, sources and their normal form.
use tvr.Base.{
  ℕ, ◌<◌, Bool, true, false, ◌||◌, ◌≡◌, refl, ap, ◌∙◌, ◌⊎◌, inl, inr, arith, if◌then◌else◌, Text,
  text_eq, trim_space, is_empty, Result, ok, err, List, [], ◌∷◌, length, All, Dict, Bool-cases,
  Result-cases,
}
use tvr.Base.Int.{ℤ, pos, ltb_ℤ, leb_ℤ}
use tvr.Upstream.Policy.{
  policy_fixed, policy_failover, policy_fallback, parse_policy, pick_index, IsPolicy, pick_index-lt,
  parse_policy-IsPolicy, parse_policy-IsPolicy-eq,
}

pub record Upstream : Type 0 where
  pub id : Text
  pub url : Text
  pub headers : Dict Text Text
  pub candidates : List Text
  pub transcode : Bool
  pub revision : Text

pub record Source : Type 0 where
  pub policy : Text
  pub upstreams : List Upstream
  pub fixed_index : ℤ
  pub transcode : Bool
  pub revision : Text

-- Go's zero value.
abbrev pub no_source : Source
no_source = record {
  policy = [];
  upstreams = [];
  fixed_index = pos 0;
  transcode = false;
  revision = [];
}

pub data SourceError : Type 0 where
  empty_source : SourceError

unfoldable pub fixed : Upstream → Source
fixed up = record {
  policy = policy_fixed;
  upstreams = up ∷ [];
  fixed_index = pos 0;
  transcode = up.transcode;
  revision = up.revision;
}

abbrev pub is_blank : Text → Bool
is_blank s = is_empty (trim_space s)

-- The loop that drops blank URLs.
unfoldable pub clean : List Upstream → List Upstream
clean [] = []
clean (up ∷ ups) = if is_blank up.url then clean ups else up ∷ clean ups

abbrev pub policy_or_fixed : Result Text Text → Text
policy_or_fixed (ok p) = p
policy_or_fixed (err e) = policy_fixed

unfoldable pub normalize : Source → Result SourceError Source
normalize src = elim (clean src.upstreams) [
  | [] ↦ err empty_source
  | up ∷ ups ↦
      let n = length (up ∷ ups) in
      ok (record src {
        upstreams = up ∷ ups;
        policy = policy_or_fixed (parse_policy src.policy);
        fixed_index =
            if ltb_ℤ src.fixed_index (pos 0) || leb_ℤ (pos n) src.fixed_index
            then pos 0
            else src.fixed_index;
      })
]

unfoldable pub start_index : (ℕ → ℕ) → Source → ℕ
start_index rand src = pick_index rand src.policy (length src.upstreams) src.fixed_index

unfoldable pub fetch_urls : Upstream → List Text
fetch_urls up = elim up.candidates [
  | [] ↦ if is_blank up.url then [] else up.url ∷ []
  | c ∷ cs ↦ c ∷ cs
]

unfoldable pub is_fallback : Source → Bool
is_fallback src = text_eq src.policy policy_failover || text_eq src.policy policy_fallback

-- What `normalize` makes sure of.
pub record IsNormal (src : Source) : Type 0 where
  pub some_upstream : 0 < length src.upstreams
  pub no_blank : All (λ up. is_blank up.url ≡ false) src.upstreams
  pub policy_known : IsPolicy src.policy
  pub in_range :
      (ltb_ℤ src.fixed_index (pos 0) || leb_ℤ (pos (length src.upstreams)) src.fixed_index) ≡ false

-- The second list is the upstreams of the first whose URL is not blank, in their order.
pub data Unblanked : List Upstream → List Upstream → Type 0 where
  none_left : Unblanked [] []
  is_dropped :
      {ups kept : List Upstream} (up : Upstream)
      → is_blank up.url ≡ true
      → Unblanked ups kept
      → Unblanked (up ∷ ups) kept
  is_kept :
      {ups kept : List Upstream} (up : Upstream)
      → is_blank up.url ≡ false
      → Unblanked ups kept
      → Unblanked (up ∷ ups) (up ∷ kept)

clean-Unblanked : (ups : List Upstream) → Unblanked ups (clean ups)
unfolding clean
clean-Unblanked [] = none_left
clean-Unblanked (up ∷ ups) = elim (Bool-cases (is_blank up.url)) [
  | inl e ↦ rw e (is_dropped up e (clean-Unblanked ups))
  | inr e ↦ rw e (is_kept up e (clean-Unblanked ups))
]

clean-All : (ups : List Upstream) → All (λ up. is_blank up.url ≡ false) (clean ups)
unfolding clean
clean-All [] = tt
clean-All (up ∷ ups) = elim (Bool-cases (is_blank up.url)) [
  | inl e ↦ rw e (clean-All ups)
  | inr e ↦ rw e (e, clean-All ups)
]

clean_id : (ups : List Upstream) → All (λ up. is_blank up.url ≡ false) ups → clean ups ≡ ups
unfolding clean
clean_id [] h = refl
clean_id (up ∷ ups) h = rw h.0 (ap (◌∷◌ up) (clean_id ups h.1))

policy_or_fixed-IsPolicy : (raw : Text) → IsPolicy (policy_or_fixed (parse_policy raw))
policy_or_fixed-IsPolicy raw = elim (Result-cases (parse_policy raw)) [
  | inl (p, e) ↦ rw e (parse_policy-IsPolicy raw e)
  | inr (k, e) ↦ rw e (inl refl)
]

module _ (src : Source) where
  -- The result on a source whose clean upstreams are known.
  abbrev Normalized : List Upstream → Type 0
  Normalized kept =
      ((kept ≡ []) × (normalize src ≡ err empty_source))
      ⊎ ((s : Source) × (normalize src ≡ ok s) × IsNormal s × (s.upstreams ≡ kept))

  normalize_of_clean : (ups : List Upstream) → clean src.upstreams ≡ ups → Normalized ups
  unfolding normalize
  normalize_of_clean [] e = inl (refl, rw (e, normalize) refl)
  normalize_of_clean (up ∷ ups) e = inr (
    record src {
      upstreams = up ∷ ups;
      policy = policy_or_fixed (parse_policy src.policy);
      fixed_index =
          if ltb_ℤ src.fixed_index (pos 0) || leb_ℤ (pos (length (up ∷ ups))) src.fixed_index
          then pos 0
          else src.fixed_index;
    },
    rw (e, normalize) refl,
    record {
      some_upstream = omega arith;
      no_blank = rw e at (clean-All src.upstreams);
      policy_known = policy_or_fixed-IsPolicy src.policy;
      in_range = ground arith;
    },
    refl,
  )

-- Take the upstreams whose URL is not blank, in their order. `normalize` fails if there are none, and otherwise gives a
-- normal source with just those.
pub normalize-IsNormal :
    (src : Source)
    → (kept : List Upstream) × Unblanked src.upstreams kept
      × (((kept ≡ []) × (normalize src ≡ err empty_source))
          ⊎ ((s : Source) × (normalize src ≡ ok s) × IsNormal s × (s.upstreams ≡ kept)))
normalize-IsNormal src = (
  clean src.upstreams,
  clean-Unblanked src.upstreams,
  normalize_of_clean src (clean src.upstreams) refl,
)

-- A normal source is its own normal form.
pub normalize-IsNormal-eq : (src : Source) → IsNormal src → normalize src ≡ ok src
unfolding normalize
normalize-IsNormal-eq src v =
    go src.upstreams refl (clean_id src.upstreams v.no_blank)
      (parse_policy-IsPolicy-eq src.policy v.policy_known)
  where
    go :
        (ups : List Upstream)
        → src.upstreams ≡ ups
        → clean src.upstreams ≡ src.upstreams
        → parse_policy src.policy ≡ ok src.policy
        → normalize src ≡ ok src
    go [] e c p = absurd (omega (arith, ap length e, v.some_upstream))
    go (up ∷ ups) e c p = rw (c ∙ e, normalize, p) (ground (arith, v.in_range, ap length e))

-- A session on a normal source starts at one of its upstreams, where the random choice is below its bound.
pub start_index-lt :
    (rand : ℕ → ℕ) (src : Source)
    → ((m : ℕ) → 0 < m → rand m < m)
    → IsNormal src
    → start_index rand src < length src.upstreams
unfolding start_index
start_index-lt rand src law v =
    pick_index-lt rand src.policy (length src.upstreams) src.fixed_index law v.some_upstream
