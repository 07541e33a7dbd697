-- ===== src/Stream/Run/Failures.antt =====
-- internal/core/stream/pump.go: rounds of the loop that fail or time out, one after another.
use tvr.Base.{
  ℕ, suc, ◌+◌, ◌<◌, Bool, true, false, List, [], ◌∷◌, some, length, map, ◌≡◌, refl, ap, ◌∙◌, arith,
}
use tvr.Upstream.Source.{Source}
use tvr.Stream.Session.{Session, failed_by}
use tvr.Stream.Ready.{fail_ready}
use tvr.Stream.Walk.{total_urls, advance}
use tvr.Stream.Run.{Round, Wait, round, rounds, next_round}
use tvr.Stream.Run.Attempt.{Defeat, reason, attempted, attempted-Kept, dead_round, round-dead}
use tvr.Stream.Run.Budget.{
  once_more, Trying, Trying-next, Kept-Waiting, fail_or_advance-next, fail_or_advance-fails,
}

-- A round whose attempt brings no data.
pub record Failure : Type 0 where
  pub wait : Wait
  pub meanwhile : Session → Session
  pub stop_first : Bool
  pub ending : Defeat

abbrev pub as_round : Failure → Round
as_round d = dead_round d.wait d.meanwhile d.stop_first d.ending

round-next :
    (s : Session) (k : ℕ) (t : Session) (b : ℕ) (d : Failure)
    → Trying s k t
    → k + 1 < total_urls s.source.upstreams
    → round (as_round d) (t, b) ≡ (false, advance (once_more (attempted d.ending t)), b)
round-next s k t b d h l =
    let a = attempted-Kept d.ending t h.placed in
    let same = a.source_kept ∙ h.same_source in
    round-dead t b d.wait d.meanwhile d.stop_first d.ending h.waiting h.placed
    ∙ ap (λ (p : Bool × Session). (p.0, p.1, b))
        (fail_or_advance-next (reason d.ending) (attempted d.ending t)
          (Kept-Waiting t (attempted d.ending t) a h.waiting).4
          (omega (
            arith,
            ap (λ (src : Source). total_urls src.upstreams) same,
            a.attempts_kept,
            h.kept.attempts_kept,
          )))

pub round-fails :
    (s : Session) (k : ℕ) (t : Session) (b : ℕ) (d : Failure)
    → Trying s k t
    → k + 1 ≡ total_urls s.source.upstreams
    → round (as_round d) (t, b) ≡ (
      true,
      fail_ready (some (failed_by (reason d.ending))) (once_more (attempted d.ending t)),
      b,
    )
round-fails s k t b d h l =
    let a = attempted-Kept d.ending t h.placed in
    let same = a.source_kept ∙ h.same_source in
    round-dead t b d.wait d.meanwhile d.stop_first d.ending h.waiting h.placed
    ∙ ap (λ (p : Bool × Session). (p.0, p.1, b))
        (fail_or_advance-fails (reason d.ending) (attempted d.ending t)
          (Kept-Waiting t (attempted d.ending t) a h.waiting).4
          (omega (
            arith,
            ap (λ (src : Source). total_urls src.upstreams) same,
            a.attempts_kept,
            h.kept.attempts_kept,
          )))

rounds_goes_on :
    (r : Round) (rs : List Round) (s t : Session) (b b' : ℕ)
    → round r (s, b) ≡ (false, t, b')
    → rounds (r ∷ rs) (s, b) ≡ rounds rs (t, b')
unfolding rounds
rounds_goes_on r rs s t b b' e = ap (λ o. next_round o (λ st. rounds rs st)) e

pub rounds_ends :
    (r : Round) (s t : Session) (b b' : ℕ)
    → round r (s, b) ≡ (true, t, b')
    → rounds (r ∷ []) (s, b) ≡ (true, t, b')
unfolding rounds
rounds_ends r s t b b' e = ap (λ o. next_round o (λ st. rounds [] st)) e

-- Before the budget is spent the loop goes on, and the session follows its walk.
pub rounds-Trying :
    (ds : List Failure) (s : Session) (k : ℕ) (t : Session) (b : ℕ)
    → Trying s k t
    → k + length ds < total_urls s.source.upstreams
    → (t' : Session) × (rounds (map as_round ds) (t, b) ≡ (false, t', b))
      × Trying s (k + length ds) t'
unfolding rounds
rounds-Trying [] s k t b h l = let e : k + 0 ≡ k = omega arith in (t, refl, rw e h)
rounds-Trying (d ∷ ds) s k t b h l =
    let e : k + 1 + length ds ≡ k + suc (length ds) = omega arith in
    let (t', runs, tried) =
      rounds-Trying ds s (k + 1) (advance (once_more (attempted d.ending t))) b
        (Trying-next d.ending s k t h) (omega arith) in
    let first = round-next s k t b d h (omega arith) in
    (t', rounds_goes_on (as_round d) (map as_round ds) t _ b b first ∙ runs, rw e at tried)
