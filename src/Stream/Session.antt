-- ===== src/Stream/Session.antt =====
-- internal/core/stream/session.go and manager.go: the state of a session and of its viewers.
--
-- A field that the mutex guards, an atomic flag or a channel that is closed once is a field of the record.
-- A context is a number, and `cancelled` lists the contexts whose cancel function was called.
-- A viewer that left the map is still read through its reader, so it is kept in `gone`.
use tvr.Base.{ℕ, Bool, true, false, List, ◌∷◌, Option, none, some, Text, codes, Dict, ◌++◌}
use tvr.Base.Int.{ℤ}
use tvr.Upstream.Source.{Source, Upstream}

pub data State : Type 0 where
  connecting streaming idle error : State

-- Errors of the package, `fmt.Errorf("%w: %w", ErrUpstreamFailed, err)`, and any other message.
pub data StreamError : Type 0 where
  err_closed upstream_failed ready_timeout stale_revision channel_blocked : StreamError
  stream_ended session_stopped canceled invalid_id url_required : StreamError
  failed_by : StreamError → StreamError
  message : Text → StreamError

-- `errors.Is(err, errSessionStopped)` and `errors.Is(err, errStreamEnded)`.
abbrev pub is_stopped : StreamError → Bool
is_stopped session_stopped = true
is_stopped (failed_by e) = is_stopped e
is_stopped _ = false

abbrev pub is_ended : StreamError → Bool
is_ended stream_ended = true
is_ended (failed_by e) = is_ended e
is_ended _ = false

-- `err.Error()`.
unfoldable pub error_text : StreamError → Text
error_text err_closed = codes "stream manager closed"
error_text upstream_failed = codes "stream upstream failed"
error_text ready_timeout = codes "stream readiness timeout"
error_text stale_revision = codes "stream channel revision is stale"
error_text channel_blocked = codes "stream channel is blocked"
error_text stream_ended = codes "stream ended"
error_text session_stopped = codes "stream session stopped"
error_text canceled = codes "context canceled"
error_text invalid_id = codes "invalid channel id"
error_text url_required = codes "upstream url is required"
error_text (failed_by e) = codes "stream upstream failed: " ++ error_text e
error_text (message t) = t

pub record Viewer : Type 0 where
  pub id : ℕ
  pub queue : List (List ℕ)
  pub cap : ℕ
  pub closed : Bool
  pub wait_keyframe : Bool

pub record Options : Type 0 where
  pub buffer_size : ℕ
  pub idle_timeout : ℤ
  pub conn_timeout : ℤ

pub record Session : Type 0 where
  pub channel_id : Text
  pub epoch : ℕ
  pub opts : Options
  pub ready_limit : ℤ
  pub source : Source
  pub upstream : Upstream
  pub current_index : ℕ
  pub candidate_index : ℕ
  pub attempts_before_ready : ℕ
  pub ready_watch : Option ℕ
  pub viewers : Dict ℕ Viewer
  pub gone : Dict ℕ Viewer
  pub next_id : ℕ
  pub state : State
  pub last_error : Text
  pub bytes_sent : ℕ
  pub connected : Option ℕ
  pub pat : List ℕ
  pub pmts : Dict ℕ (List ℕ)
  pub seen_rai : Bool
  pub pump_cancel : Option ℕ
  pub next_ctx : ℕ
  pub cancelled : List ℕ
  pub stopped : Bool
  pub attempt_timed_out : Bool
  pub ready_closed : Bool
  pub ready_err : Option StreamError
  pub ever_ready : Bool
  pub done : Bool

-- A call of a cancel function that may be nil.
abbrev pub cancel : Option ℕ → Session → Session
cancel none s = s
cancel (some ctx) s = record s { cancelled = ctx ∷ s.cancelled }
