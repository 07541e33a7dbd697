-- ===== src/Stream/Walk/Order.antt =====
-- The order in which a session with the failover policy walks through the URLs of its upstreams.
use tvr.Base.{
  ℕ, zero, suc, ◌+◌, ◌-◌, ◌%◌, ◌≤◌, ◌<◌, true, List, [], ◌∷◌, length, ltb, leb, leb→le, ◌≡◌, refl,
  ap, ◌∙◌, inl, inr, arith, tests, subst, Bool-cases,
}
use Prim.Native.Nat.{max}
use native.Mathlib.Nat.{mod-eq_of_lt}
use tvr.Upstream.Source.{Upstream, fetch_urls, is_fallback}
use tvr.Stream.Session.{Session}
use tvr.Stream.Walk.{advance, urls_at, total_urls}

-- The attempts that the walk makes on one upstream, and on those before an index.
abbrev pub cost : List Upstream → ℕ → ℕ
cost ups i = max 1 (length (urls_at ups i))

abbrev prefix_cost : List Upstream → ℕ → ℕ
prefix_cost ups zero = 0
prefix_cost [] (suc i) = 0
prefix_cost (up ∷ ups) (suc i) = max 1 (length (fetch_urls up)) + prefix_cost ups i

prefix_cost-suc :
    (ups : List Upstream) (i : ℕ)
    → i < length ups
    → prefix_cost ups (suc i) ≡ prefix_cost ups i + cost ups i
prefix_cost-suc [] i h = elim h [ ]
prefix_cost-suc (up ∷ ups) zero h = omega arith
prefix_cost-suc (up ∷ ups) (suc i) h = omega (arith, prefix_cost-suc ups i (omega arith))

prefix_cost-length : (ups : List Upstream) → prefix_cost ups (length ups) ≡ total_urls ups
prefix_cost-length [] = refl
prefix_cost-length (up ∷ ups) = omega (arith, prefix_cost-length ups)

prefix_cost-add_le :
    (ups : List Upstream) (i d : ℕ)
    → i + d ≤ length ups
    → prefix_cost ups i ≤ prefix_cost ups (i + d)
prefix_cost-add_le ups i zero h =
    let e : i ≡ i + 0 = omega arith in
    subst (λ k. prefix_cost ups i ≤ prefix_cost ups k) e (omega arith)
prefix_cost-add_le ups i (suc d) h =
    let e : suc (i + d) ≡ i + suc d = omega arith in
    subst (λ k. prefix_cost ups i ≤ prefix_cost ups k) e
      (omega (
        arith,
        prefix_cost-suc ups (i + d) (omega arith),
        prefix_cost-add_le ups i d (omega arith),
      ))

prefix_cost_mono :
    (ups : List Upstream) (i j : ℕ) → i ≤ j → j ≤ length ups → prefix_cost ups i ≤ prefix_cost ups j
prefix_cost_mono ups i j h k =
    let e : i + (j - i) ≡ j = omega arith in
    subst (λ m. prefix_cost ups i ≤ prefix_cost ups m) e
      (prefix_cost-add_le ups i (j - i) (omega arith))

abbrev pub advance_by : ℕ → Session → Session
advance_by zero s = s
advance_by (suc k) s = advance_by k (advance s)

advance_by-add : (a b : ℕ) (s : Session) → advance_by (a + b) s ≡ advance_by b (advance_by a s)
advance_by-add zero b s = let e : 0 + b ≡ b = omega arith in rw e refl
advance_by-add (suc a) b s =
    let e : suc a + b ≡ suc (a + b) = omega arith in rw e (advance_by-add a b (advance s))

-- The session at another place of its walk.
abbrev pub at : Session → ℕ → ℕ → Session
at s i c = record s { current_index = i; candidate_index = c }

module _ (s : Session) where
  pub next_url :
      (i c : ℕ)
      → i < length s.source.upstreams
      → c + 1 < cost s.source.upstreams i
      → advance (at s i c) ≡ at s i (c + 1)
  unfolding advance
  next_url i c h k =
      let here : ltb i (length s.source.upstreams) ≡ true = omega tests in ground (arith, here)

  pub next_upstream :
      (i c : ℕ)
      → i < length s.source.upstreams
      → cost s.source.upstreams i ≤ c + 1
      → is_fallback s.source ≡ true
      → advance (at s i c) ≡ at s ((i + 1) % length s.source.upstreams) 0
  unfolding advance
  next_upstream i c h k f = ground arith

  along_urls :
      (i c d : ℕ)
      → i < length s.source.upstreams
      → c + d < cost s.source.upstreams i
      → advance_by d (at s i c) ≡ at s i (c + d)
  along_urls i c zero h k = let e : c + 0 ≡ c = omega arith in rw e refl
  along_urls i c (suc d) h k =
      let e : c + 1 + d ≡ c + suc d = omega arith in
      rw (next_url i c h (omega arith))
        (along_urls i (c + 1) d h (omega arith) ∙ ap (λ n. at s i n) e)

  module _ (fallback : is_fallback s.source ≡ true) where
    over_upstream :
        (i : ℕ)
        → i < length s.source.upstreams
        → advance_by (cost s.source.upstreams i) (at s i 0)
          ≡ at s ((i + 1) % length s.source.upstreams) 0
    over_upstream i h =
        let c : ℕ = cost s.source.upstreams i - 1 in
        let e : cost s.source.upstreams i ≡ c + 1 = omega arith in
        let z : 0 + c ≡ c = omega arith in
        ap (λ k. advance_by k (at s i 0)) e
        ∙ advance_by-add c 1 (at s i 0)
        ∙ ap (advance_by 1) (along_urls i 0 c h (omega arith) ∙ ap (λ n. at s i n) z)
        ∙ next_upstream i c h (omega arith) fallback

    -- From one upstream to a later one.
    forward :
        (i d : ℕ)
        → i + d < length s.source.upstreams
        → advance_by
            (prefix_cost s.source.upstreams (i + d) - prefix_cost s.source.upstreams i)
            (at s i 0)
          ≡ at s (i + d) 0
    forward i zero h =
        let e : i + 0 ≡ i = omega arith in
        let z : prefix_cost s.source.upstreams i - prefix_cost s.source.upstreams i ≡ 0 =
          omega arith in
        rw (e, z) refl
    forward i (suc d) h =
        let us : List Upstream = s.source.upstreams in
        let e : i + suc d ≡ suc (i + d) = omega arith in
        let e' : (i + d + 1) % length us ≡ suc (i + d) = mod-eq_of_lt (omega arith) ∙ omega arith in
        let split : prefix_cost us (suc (i + d)) - prefix_cost us i
            ≡ (prefix_cost us (i + d) - prefix_cost us i) + cost us (i + d) =
          omega (
            arith,
            prefix_cost-suc us (i + d) (omega arith),
            prefix_cost-add_le us i d (omega arith),
          ) in
        rw (e, split)
          (advance_by-add (prefix_cost us (i + d) - prefix_cost us i) (cost us (i + d)) (at s i 0)
            ∙ ap (advance_by (cost us (i + d))) (forward i d (omega arith))
            ∙ over_upstream (i + d) (omega arith)
            ∙ ap (λ k. at s k 0) e')

    -- From one upstream over the last one to the first.
    around :
        (i : ℕ)
        → i < length s.source.upstreams
        → advance_by (total_urls s.source.upstreams - prefix_cost s.source.upstreams i) (at s i 0)
          ≡ at s 0 0
    around i h =
        let us : List Upstream = s.source.upstreams in
        let n : ℕ = length us in
        let d : ℕ = n - 1 - i in
        let e : suc (i + d) ≡ n = omega arith in
        let e' : (i + d + 1) % n ≡ 0 = grind (arith, e) in
        let split : total_urls us - prefix_cost us i
            ≡ (prefix_cost us (i + d) - prefix_cost us i) + cost us (i + d) =
          omega (
            arith,
            prefix_cost-length us,
            ap (prefix_cost us) e,
            prefix_cost-suc us (i + d) (omega arith),
            prefix_cost-add_le us i d (omega arith),
          ) in
        rw split (
          advance_by-add (prefix_cost us (i + d) - prefix_cost us i) (cost us (i + d)) (at s i 0)
          ∙ ap (advance_by (cost us (i + d))) (forward i d (omega arith))
          ∙ over_upstream (i + d) (omega arith)
          ∙ ap (λ k. at s k 0) e')

    reach_later :
        (i j c : ℕ)
        → i ≤ j
        → j < length s.source.upstreams
        → c < cost s.source.upstreams j
        → advance_by
            (prefix_cost s.source.upstreams j - prefix_cost s.source.upstreams i + c)
            (at s i 0)
          ≡ at s j c
    reach_later i j c h k l =
        let us : List Upstream = s.source.upstreams in
        let e : i + (j - i) ≡ j = omega arith in
        let there : advance_by (prefix_cost us j - prefix_cost us i) (at s i 0) ≡ at s j 0 =
          subst (λ m. advance_by (prefix_cost us m - prefix_cost us i) (at s i 0) ≡ at s m 0) e
            (forward i (j - i) (omega arith)) in
        let z : 0 + c ≡ c = omega arith in
        advance_by-add (prefix_cost us j - prefix_cost us i) c (at s i 0)
        ∙ ap (advance_by c) there
        ∙ along_urls j 0 c k (omega arith)
        ∙ ap (λ m. at s j m) z

    -- Fewer steps than the total lead to every URL of every upstream, from any of the upstreams.
    pub walk_covers :
        (i j c : ℕ)
        → i < length s.source.upstreams
        → j < length s.source.upstreams
        → c < cost s.source.upstreams j
        → (k : ℕ) × (k < total_urls s.source.upstreams) × (advance_by k (at s i 0) ≡ at s j c)
    walk_covers i j c h k l = elim (Bool-cases (leb i j)) [
      | inl e ↦ (
        prefix_cost us j - prefix_cost us i + c,
        omega (
          arith,
          top j k,
          prefix_cost-suc us j k,
          prefix_cost_mono us i j (leb→le i j e) (omega arith),
        ),
        reach_later i j c (leb→le i j e) k l,
      )
      | inr e ↦
          let later : j < i = ground arith in
          (
            (total_urls us - prefix_cost us i) + (prefix_cost us j - prefix_cost us 0 + c),
            omega (
              arith,
              prefix_cost-suc us j k,
              prefix_cost-suc us i h,
              prefix_cost_mono us (suc j) i later (omega arith),
              top i h,
            ),
            advance_by-add (total_urls us - prefix_cost us i)
                  (prefix_cost us j - prefix_cost us 0 + c) (at s i 0)
                ∙ ap (advance_by (prefix_cost us j - prefix_cost us 0 + c)) (around i h)
                ∙ reach_later 0 j c (omega arith) k l,
          )
    ]
      where
        us : List Upstream
        us = s.source.upstreams

        top : (m : ℕ) → m < length us → prefix_cost us (suc m) ≤ total_urls us
        top m h =
            subst (λ t. prefix_cost us (suc m) ≤ t) (prefix_cost-length us)
              (prefix_cost_mono us (suc m) (length us) h (omega arith))
