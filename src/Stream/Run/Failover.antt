-- ===== src/Stream/Run/Failover.antt =====
-- A failover session that gets no data gives up only when it has tried every URL.
use tvr.Base.{
  ℕ, zero, suc, ◌+◌, ◌<◌, Bool, true, false, List, [], ◌∷◌, some, length, get_or, get_elem?, take,
  length-take, map, map-append, ◌++◌, ◌≡◌, refl, sym, ap, ◌∙◌, arith, Text,
}
use mathlib.Core.Bool.{false≢true}
use tvr.Upstream.Source.{Source, fetch_urls, is_fallback}
use tvr.Stream.Session.{Session, StreamError, failed_by}
use tvr.Stream.Ready.{fail_ready}
use tvr.Stream.Walk
use tvr.Stream.Walk.{apply_current_upstream, urls_at, total_urls, attempt_budget, advance}
use tvr.Stream.Walk.Order.{advance_by, at, walk_covers}
use tvr.Stream.Run.{Round, round, rounds, next_round}
use tvr.Stream.Run.Attempt.{Waiting, reason, attempted, attempted-Kept, upstream_at}
use tvr.Stream.Run.Budget.{once_more, Trying, Kept-Waiting}
use tvr.Stream.Run.Failures.{Failure, as_round, round-fails, rounds_ends, rounds-Trying}

-- The error that readiness ended with.
abbrev pub FailedBy : StreamError → Session → Type 0
FailedBy e t = (t.ready_closed ≡ true) × (t.ready_err ≡ some (failed_by e)) × (t.ever_ready ≡ false)

fail_ready-FailedBy :
    (e : StreamError) (t : Session)
    → t.ready_closed ≡ false
    → t.ever_ready ≡ false
    → FailedBy e (fail_ready (some (failed_by e)) t)
unfolding fail_ready
fail_ready-FailedBy e t c v = (ground arith, ground arith, ground arith)

-- A failover session that waits for data with a viewer, at the first URL of one of its upstreams.
pub record Starts (s : Session) : Type 0 where
  pub waiting : Waiting s
  pub fresh : s.attempts_before_ready ≡ 0
  pub first_url : s.candidate_index ≡ 0
  pub in_range : s.current_index < length s.source.upstreams

Starts-Trying : (s : Session) → Starts s → Trying s 0 s
Starts-Trying s h = record {
  kept = record {
    source_kept = refl;
    viewers_kept = refl;
    stopped_kept = refl;
    ever_kept = refl;
    open_kept = refl;
    attempts_kept = h.fresh;
    current_kept = refl;
    candidate_kept = refl;
  };
  waiting = h.waiting;
  placed = (h.in_range, omega (arith, h.first_url));
  same_source = refl;
}

budget-total :
    (s : Session) → is_fallback s.source ≡ true → attempt_budget s ≡ total_urls s.source.upstreams
unfolding attempt_budget
budget-total s f = ground arith

get_elem?-get_or :
    (xs : List Text) (c : ℕ) (d : Text) → c < length xs → get_elem? xs c ≡ some (get_or xs c d)
get_elem?-get_or [] c d h = elim h [ ]
get_elem?-get_or (x ∷ xs) zero d h = refl
get_elem?-get_or (x ∷ xs) (suc c) d h = get_elem?-get_or xs c d (omega arith)

-- The URL that the next attempt takes is the one at the session's place.
applied_url :
    (t : Session)
    → t.current_index < length t.source.upstreams
    → t.candidate_index < length (urls_at t.source.upstreams t.current_index)
    → get_elem? (urls_at t.source.upstreams t.current_index) t.candidate_index
      ≡ some (apply_current_upstream t).upstream.url
unfolding apply_current_upstream
applied_url t h k =
    let (up, found, urls) = upstream_at t.source.upstreams t.current_index h in
    let here : Walk.in_range t.current_index (length t.source.upstreams) ≡ t.current_index =
      ground arith in
    let there : Walk.in_range t.candidate_index (length (fetch_urls up)) ≡ t.candidate_index =
      ground (arith, ap length urls) in
    rw (here, apply_current_upstream)
      (rw (found, apply_current_upstream)
        (rw there (rw urls (get_elem?-get_or _ t.candidate_index up.url k))))

rounds-append :
    (rs qs : List Round) (s t : Session) (b b' : ℕ)
    → rounds rs (s, b) ≡ (false, t, b')
    → rounds (rs ++ qs) (s, b) ≡ rounds qs (t, b')
unfolding rounds
rounds-append [] qs s t b b' e = cc
rounds-append (r ∷ rs) qs s t b b' e = go (round r (s, b)) refl (rounds-append rs qs)
  where
    go :
        (o : Bool × Session × ℕ)
        → round r (s, b) ≡ o
        → ((s1 t1 : Session) (b1 b2 : ℕ)
            → rounds rs (s1, b1) ≡ (false, t1, b2)
            → rounds (rs ++ qs) (s1, b1) ≡ rounds qs (t1, b2))
        → rounds (r ∷ (rs ++ qs)) (s, b) ≡ rounds qs (t, b')
    go (true, s1, b1) q ih =
        let bad : (true, s1, b1) ≡ (false, t, b') =
          ap (λ o. next_round o (λ st. rounds rs st)) (sym q) ∙ e in
        absurd (false≢true (ap (λ (o : Bool × Session × ℕ). o.0) (sym bad)))
    go (false, s1, b1) q ih =
        ap (λ o. next_round o (λ st. rounds (rs ++ qs) st)) q
        ∙ ih s1 t b1 b' (ap (λ o. next_round o (λ st. rounds rs st)) (sym q) ∙ e)

-- Let a failover session wait for data with a viewer, at the first URL of an upstream and with no attempt made. Of one
-- failure fewer than its attempt budget, some first ones lead to any URL of any upstream: behind them the loop
-- still goes on, whatever the errors were and whichever attempts timed out, and the next attempt takes that URL.
pub failover_tries_every_url :
    (s : Session) (ds : List Failure) (b j c : ℕ)
    → Starts s
    → length ds + 1 ≡ attempt_budget s
    → j < length s.source.upstreams
    → c < length (urls_at s.source.upstreams j)
    → (k : ℕ) × (t : Session) × (rounds (map as_round (take k ds)) (s, b) ≡ (false, t, b))
      × (get_elem? (urls_at s.source.upstreams j) c ≡ some (apply_current_upstream t).upstream.url)
failover_tries_every_url s ds b j c h e hj hc =
    let total = budget-total s h.waiting.4 in
    let (k, less, there) =
      walk_covers s h.waiting.4 s.current_index j c h.in_range hj (omega arith) in
    let len : length (take k ds) ≡ k = length-take k ds (omega arith) in
    let (t, runs, tried) =
      rounds-Trying (take k ds) s 0 s b (Starts-Trying s h) (omega (arith, e, total)) in
    let start : at s s.current_index 0 ≡ s = ap (λ n. at s s.current_index n) (sym h.first_url) in
    let z : 0 + length (take k ds) ≡ k = omega arith in
    let stands : advance_by (0 + length (take k ds)) s ≡ at s j c =
      rw z (ap (advance_by k) (sym start) ∙ there) in
    let cur : t.current_index ≡ j =
      tried.kept.current_kept ∙ ap (λ (u : Session). u.current_index) stands in
    let cand : t.candidate_index ≡ c =
      tried.kept.candidate_kept ∙ ap (λ (u : Session). u.candidate_index) stands in
    let same = tried.same_source in
    let url_place : get_elem? (urls_at t.source.upstreams t.current_index) t.candidate_index
        ≡ get_elem? (urls_at s.source.upstreams j) c =
      ap (λ (src : Source). get_elem? (urls_at src.upstreams t.current_index) t.candidate_index)
        same
      ∙ ap (λ i. get_elem? (urls_at s.source.upstreams i) t.candidate_index) cur
      ∙ ap (λ m. get_elem? (urls_at s.source.upstreams j) m) cand in
    let few : t.candidate_index < length (urls_at t.source.upstreams t.current_index) =
      rw (cand, cur, same) hc in
    (k, t, runs, sym url_place ∙ applied_url t tried.placed.0 few)

-- Let a failover session wait for data with a viewer, at the first URL of an upstream and with no attempt made. After as
-- many failures and time-outs, in any order, as its attempt budget the loop ends, and readiness has failed by the last
-- error, which is the readiness time-out where the last attempt timed out.
pub failover_gives_up :
    (s : Session) (ds : List Failure) (d : Failure) (b : ℕ)
    → Starts s
    → length ds + 1 ≡ attempt_budget s
    → (t : Session) × (rounds (map as_round (ds ++ d ∷ [])) (s, b) ≡ (true, t, b))
      × FailedBy (reason d.ending) t
failover_gives_up s ds d b h e =
    let total = budget-total s h.waiting.4 in
    let (t, runs, tried) = rounds-Trying ds s 0 s b (Starts-Trying s h) (omega (arith, e, total)) in
    let z : 0 + length ds + 1 ≡ length ds + 1 = omega arith in
    let a = attempted-Kept d.ending t tried.placed in
    let w = Kept-Waiting t (attempted d.ending t) a tried.waiting in
    (
      fail_ready (some (failed_by (reason d.ending))) (once_more (attempted d.ending t)),
      ap (λ rs. rounds rs (s, b)) (map-append as_round ds (d ∷ []))
          ∙ rounds-append (map as_round ds) (as_round d ∷ []) s t b b runs
          ∙ rounds_ends (as_round d) t _ b b
              (round-fails s (0 + length ds) t b d tried (z ∙ e ∙ total)),
      fail_ready-FailedBy (reason d.ending) (once_more (attempted d.ending t)) w.3 w.2,
    )
