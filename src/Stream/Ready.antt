-- ===== src/Stream/Ready.antt =====
-- internal/core/stream/session.go: readiness, which is decided once, and the end of a session. The work of `readyOnce.Do` is
-- done if `ready_closed` is false. Time is an argument.
pub mod Once
pub mod Report
use tvr.Base.{
  ℕ, suc, ◌+◌, Bool, true, false, not, ◌&&◌, ◌||◌, List, [], ◌∷◌, ◌++◌, Option, none, some, length,
  ltb, ◌==◌, if◌then◌else◌, Text, is_empty, trim_space,
}
use tvr.Stream.Session.{
  Session, Viewer, State, connecting, streaming, idle, error, cancel, StreamError, session_stopped,
  upstream_failed, error_text, is_stopped,
}
use tvr.Stream.Viewers.{close_all}

unfoldable pub stop_ready_watch : Session → Session
stop_ready_watch s = record s { ready_watch = none }

unfoldable pub mark_ready : ℕ → Session → Session
unfolding stop_ready_watch
mark_ready now s =
    let s' = stop_ready_watch s in
    if s'.ready_closed
    then s'
    else record s' { ever_ready = true; connected = some now; ready_closed = true }

-- A nil error stands for `ErrUpstreamFailed`.
unfoldable pub fail_ready : Option StreamError → Session → Session
fail_ready err s =
    let e : StreamError = elim err [ none ↦ upstream_failed | some e' ↦ e' ] in
    if s.ready_closed then s else record s {
      ready_err = some e;
      state = error;
      last_error = error_text e;
      ready_closed = true;
    }

-- The timer holds the context that it cancels.
unfoldable pub arm_ready_watch : ℕ → Session → Session
arm_ready_watch ctx s = record s { attempt_timed_out = false; ready_watch = some ctx }

unfoldable pub watch_fires : ℕ → Session → Session
watch_fires ctx s =
    if s.ever_ready || s.stopped
    then s
    else cancel (some ctx) (record s { attempt_timed_out = true })

abbrev pub map_ready_err : Option StreamError → Option StreamError
map_ready_err none = none
map_ready_err (some e) = if is_stopped e then some upstream_failed else some e

-- `waitReady` of a context that is not done: `none` while the channel is open.
unfoldable pub wait_ready : Session → Option (Option StreamError)
wait_ready s = if s.ready_closed then some (map_ready_err s.ready_err) else none

-- The parts of `stop` behind the swap of the flag.
abbrev pub tear_down : Session → Session
tear_down s = cancel s.pump_cancel (record s {
  pump_cancel = none;
  viewers = [];
  gone = close_all s.viewers ++ s.gone;
  state = idle;
})

unfoldable pub stop : Session → Session
unfolding fail_ready
stop s =
    let s' = tear_down (record s { stopped = true }) in
    if s.stopped then s else if s'.ever_ready then s' else fail_ready (some session_stopped) s'

pub record Status : Type 0 where
  pub channel_id : Text
  pub state : State
  pub viewers : ℕ
  pub last_error : Text
  pub bytes_sent : ℕ
  pub connected_at : Option ℕ
  pub upstream_id : Text
  pub upstream_host : Text

abbrev pub is_live : State → Bool
is_live connecting = true
is_live streaming = true
is_live _ = false

abbrev pub stopped_by : Option StreamError → Bool
stopped_by none = false
stopped_by (some e) = is_stopped e

-- The switch of `status` on a state and message that the first test has corrected.
unfoldable pub report : Option StreamError → Bool → ℕ → State → Text → State × Text
report none ever n state message = (state, message)
report (some e) ever n state message =
    if is_stopped e
    then (if n == 0 then (idle, []) else (state, message))
    else if not ever
    then (error, if is_empty message then error_text e else message)
    else (state, message)

-- `upstream.Host` parses a URL, and is an argument.
unfoldable pub status : (Text → Text) → Session → Status
unfolding report
status host s =
    let n = length s.viewers in
    let state' = if n == 0 && is_live s.state then idle else s.state in
    let (st, message) = report s.ready_err s.ever_ready n state' s.last_error in
    record {
      channel_id = s.channel_id;
      state = st;
      viewers = n;
      last_error = message;
      bytes_sent = s.bytes_sent;
      connected_at = s.connected;
      upstream_id = s.upstream.id;
      upstream_host = host s.upstream.url;
    }

abbrev pub is_error : State → Bool
is_error error = true
is_error _ = false

abbrev pub is_some {ℓ} : {A : Type ℓ} → Option A → Bool
is_some none = false
is_some (some a) = true

abbrev pub final_error : Session → Text
final_error s =
    if is_empty s.last_error
    then elim s.ready_err [ none ↦ s.last_error | some e ↦ error_text e ]
    else s.last_error

unfoldable pub finish_status : (Text → Text) → Session → Status
finish_status host s =
    let base = λ (st : State) (message : Text).
      let r : Status = record {
        channel_id = s.channel_id;
        state = st;
        viewers = 0;
        last_error = message;
        bytes_sent = s.bytes_sent;
        connected_at = s.connected;
        upstream_id = s.upstream.id;
        upstream_host = host s.upstream.url;
      } in
      r in
    if stopped_by s.ready_err
    then base idle []
    else if is_some s.ready_err
        || is_error s.state
        || (not s.ever_ready && not (is_empty (trim_space s.last_error)))
    then base error (final_error s)
    else base idle []
