-- ===== src/Stream/Run.antt =====
-- internal/core/stream/pump.go: the loop of `run`. What the rest of the program does while the loop waits or pumps is an argument of each
-- round, and so is the outcome of a select.
pub mod Attempt
pub mod Budget
pub mod Failures
pub mod Failover
use tvr.Base.{
  ℕ, Bool, true, false, not, List, [], ◌∷◌, Option, none, some, length, ◌==◌, if◌then◌else◌, Text,
}
use tvr.Stream.Session.{Session, StreamError, upstream_failed}
use tvr.Stream.Viewers.{viewer_count}
use tvr.Stream.Ready.{fail_ready, finish_status, stop, Status}
use tvr.Stream.Walk.{pump_start, pump_end, handle_pump_error, second}

-- Which case of the select without viewers is taken.
pub data Wait : Type 0 where
  stop_signal idle_timer poll_timer : Wait

pub record Round : Type 0 where
  pub wait : Wait
  -- The calls of other goroutines during the wait.
  pub meanwhile : Session → Session
  -- The pump, with what other goroutines do to the session while it runs.
  pub pump : Session → Session × Option StreamError
  -- Whether `stopCh` wins the wait behind an error.
  pub stop_first : Bool

-- Behind a pump: `true` ends the loop.
unfoldable pub after_pump : Bool → Session → Option StreamError → ℕ → Bool × Session × ℕ
after_pump stop_first s err backoff =
    if s.stopped
    then (true, s, backoff)
    else if viewer_count s == 0
    then (false, s, backoff)
    else elim err [
      | none ↦ (false, s, second)
      | some e ↦ handle_pump_error e stop_first (s, backoff)
    ]

unfoldable pub pump_once : Round → Session → ℕ → Bool × Session × ℕ
unfolding after_pump
pump_once r s backoff =
    let (started, ctx) = pump_start s in
    let (pumped, err) = r.pump started in
    let (ended, err') = pump_end ctx err pumped in after_pump r.stop_first ended err' backoff

unfoldable pub idle_round : Wait → Round → Session → ℕ → Bool × Session × ℕ
idle_round stop_signal r s backoff = (true, s, backoff)
idle_round idle_timer r s backoff =
    if viewer_count s == 0 then (true, s, backoff) else pump_once r s backoff
idle_round poll_timer r s backoff =
    if viewer_count s == 0 then (false, s, backoff) else pump_once r s backoff

unfoldable pub round : Round → Session × ℕ → Bool × Session × ℕ
unfolding idle_round
round r (s, backoff) =
    if viewer_count s == 0
    then idle_round r.wait r (r.meanwhile s) backoff
    else pump_once r s backoff

abbrev pub next_round : Bool × Session × ℕ → (Session × ℕ → Bool × Session × ℕ) → Bool × Session × ℕ
next_round (true, s, backoff) go = (true, s, backoff)
next_round (false, s, backoff) go = go (s, backoff)

-- A run of the loop over the rounds that happen; `false` says that the loop goes on behind them.
unfoldable pub rounds : List Round → Session × ℕ → Bool × Session × ℕ
rounds [] st = (false, st.0, st.1)
rounds (r ∷ rs) st = next_round (round r st) (λ st'. rounds rs st')

-- The deferred function of `run`: the status for `onFinish`, and the session with `doneCh` closed.
unfoldable pub finish : (Text → Text) → Session → Session × Status
finish host s =
    let s' = if s.ever_ready then s else fail_ready (some upstream_failed) s in
    let ended = stop s' in (record ended { done = true }, finish_status host s')
