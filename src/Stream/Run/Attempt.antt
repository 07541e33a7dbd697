-- ===== src/Stream/Run/Attempt.antt =====
-- One failed attempt of a failover session: what it leaves alone.
use tvr.Base.{
  ℕ, zero, suc, ◌<◌, Bool, true, false, List, [], ◌∷◌, Option, none, some, length, get_elem?, ◌≡◌,
  refl, ap, ◌∙◌, arith,
}
use tvr.Upstream.Source.{Upstream, fetch_urls, is_fallback}
use tvr.Stream.Session.{Session, StreamError, ready_timeout}
use tvr.Stream.Ready.{arm_ready_watch, stop_ready_watch, watch_fires}
use tvr.Stream.Walk.{
  apply_current_upstream, urls_at, in_range, begin_pump, pump_start, pump_end, classify_pump_err,
  handle_pump_error, fail_or_advance, should_walk,
}
use tvr.Stream.Walk.Order.{cost}
use tvr.Stream.Run.{Round, Wait, round, pump_once, after_pump}

-- What an attempt leaves alone.
pub record Kept (t u : Session) : Type 0 where
  pub source_kept : u.source ≡ t.source
  pub viewers_kept : u.viewers ≡ t.viewers
  pub stopped_kept : u.stopped ≡ t.stopped
  pub ever_kept : u.ever_ready ≡ t.ever_ready
  pub open_kept : u.ready_closed ≡ t.ready_closed
  pub attempts_kept : u.attempts_before_ready ≡ t.attempts_before_ready
  pub current_kept : u.current_index ≡ t.current_index
  pub candidate_kept : u.candidate_index ≡ t.candidate_index

abbrev pub InRange : Session → Type 0
InRange t =
    (t.current_index < length t.source.upstreams)
    × (t.candidate_index < cost t.source.upstreams t.current_index)

pub upstream_at :
    (ups : List Upstream) (i : ℕ)
    → i < length ups
    → (up : Upstream) × (get_elem? ups i ≡ some up) × (fetch_urls up ≡ urls_at ups i)
upstream_at [] i h = elim h [ ]
upstream_at (up ∷ ups) zero h = (up, refl, refl)
upstream_at (up ∷ ups) (suc i) h = upstream_at ups i (omega arith)

pub apply-Kept : (t : Session) → InRange t → Kept t (apply_current_upstream t)
unfolding apply_current_upstream
apply-Kept t (h, k) =
    let (up, found, urls) = upstream_at t.source.upstreams t.current_index h in
    let here : in_range t.current_index (length t.source.upstreams) ≡ t.current_index =
      ground arith in
    let there : in_range t.candidate_index (length (fetch_urls up)) ≡ t.candidate_index =
      ground (arith, ap length urls) in
    rw (here, apply_current_upstream)
      (rw (found, apply_current_upstream)
        (record {
          source_kept = refl;
          viewers_kept = refl;
          stopped_kept = refl;
          ever_kept = refl;
          open_kept = refl;
          attempts_kept = refl;
          current_kept = here;
          candidate_kept = there;
        }))

-- How an attempt that brings no data ends: the pump fails by itself, or the ready watch fires first and the pump returns
-- whatever it returns then.
pub data Defeat : Type 0 where
  fails : StreamError → Defeat
  times_out : Option StreamError → Defeat

abbrev pub watched : Option ℕ → Session → Session
watched none t = t
watched (some ctx) t = watch_fires ctx t

-- The pump of such an attempt.
abbrev pub dead_pump : Defeat → Session → Session × Option StreamError
dead_pump (fails e) t = (t, some e)
dead_pump (times_out err) t = (watched t.ready_watch t, err)

-- The error that the attempt counts as.
abbrev pub reason : Defeat → StreamError
reason (fails e) = e
reason (times_out err) = ready_timeout

-- What such an attempt leaves before its error is handled.
abbrev pub attempted : Defeat → Session → Session
attempted o t = let (started, ctx) = pump_start t in (pump_end ctx none (dead_pump o started).0).0

pub attempted-Kept : (o : Defeat) (t : Session) → InRange t → Kept t (attempted o t)
unfolding pump_start begin_pump pump_end arm_ready_watch stop_ready_watch watch_fires
attempted-Kept (fails e) t r =
    let k = apply-Kept t r in
    record {
      source_kept = ground (arith, k.source_kept);
      viewers_kept = ground (arith, k.viewers_kept);
      stopped_kept = ground (arith, k.stopped_kept);
      ever_kept = ground (arith, k.ever_kept);
      open_kept = ground (arith, k.open_kept);
      attempts_kept = ground (arith, k.attempts_kept);
      current_kept = ground (arith, k.current_kept);
      candidate_kept = ground (arith, k.candidate_kept);
    }
attempted-Kept (times_out err) t r =
    let k = apply-Kept t r in
    record {
      source_kept = ground (arith, k.source_kept);
      viewers_kept = ground (arith, k.viewers_kept);
      stopped_kept = ground (arith, k.stopped_kept);
      ever_kept = ground (arith, k.ever_kept);
      open_kept = ground (arith, k.open_kept);
      attempts_kept = ground (arith, k.attempts_kept);
      current_kept = ground (arith, k.current_kept);
      candidate_kept = ground (arith, k.candidate_kept);
    }

abbrev pub dead_round : Wait → (Session → Session) → Bool → Defeat → Round
dead_round wait meanwhile stop_first o = record {
  wait = wait;
  meanwhile = meanwhile;
  pump = dead_pump o;
  stop_first = stop_first;
}

abbrev pub Waiting : Session → Type 0
Waiting t =
    (0 < length t.viewers)
    × (t.stopped ≡ false)
    × (t.ever_ready ≡ false)
    × (t.ready_closed ≡ false)
    × (is_fallback t.source ≡ true)

pub round-dead :
    (t : Session) (b : ℕ) (wait : Wait) (meanwhile : Session → Session) (stop_first : Bool)
    (o : Defeat)
    → Waiting t
    → InRange t
    → round (dead_round wait meanwhile stop_first o) (t, b)
      ≡ (let (stop, t') = fail_or_advance (reason o) (attempted o t) in (stop, t', b))
unfolding round pump_once after_pump pump_start begin_pump pump_end classify_pump_err
    arm_ready_watch stop_ready_watch handle_pump_error should_walk watch_fires
round-dead t b wait meanwhile stop_first (fails e) (v, st, ev, op, f) r =
    let k = apply-Kept t r in
    let walks : is_fallback (apply_current_upstream t).source ≡ true =
      ap is_fallback k.source_kept ∙ f in
    ground (arith, walks, k.source_kept, k.viewers_kept, k.stopped_kept, k.ever_kept)
round-dead t b wait meanwhile stop_first (times_out err) (v, st, ev, op, f) r =
    let k = apply-Kept t r in
    let walks : is_fallback (apply_current_upstream t).source ≡ true =
      ap is_fallback k.source_kept ∙ f in
    ground (arith, walks, k.source_kept, k.viewers_kept, k.stopped_kept, k.ever_kept)
