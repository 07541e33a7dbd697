-- ===== src/Stream/Manager.antt =====
-- internal/core/stream/manager.go: one shared session per channel. Sessions live on a heap, and a pointer is an index into it. Each function is
-- what is done under the manager's mutex, with the calls behind it; waiting for a session's goroutine to end is not part of it.
pub mod Heap
pub mod Keeps
pub mod Steps
pub mod Closing
pub mod Entering
pub mod Safety
pub mod Flags
pub mod Admission
pub mod Obtained
mod Tests
use tvr.Base.{
  ℕ, zero, suc, ◌+◌, Bool, true, false, not, ◌&&◌, ◌||◌, List, [], ◌∷◌, ◌++◌, Option, none, some,
  length, get_elem?, ltb, ◌==◌, if◌then◌else◌, Text, text_eq, is_empty, trim_space, Dict, lookup,
  insert, delete, text_key, Result, ok, err,
}
use tvr.Base.Int.{ℤ, pos, leb_ℤ}
use tvr.Upstream.Source.{Source, Upstream, no_source, normalize, start_index}
use tvr.Upstream.Source
use tvr.Transcode.Profile.{Profile}
use tvr.Transcode.Profile as ProfileCode
use tvr.Stream.Session.{
  Session, Options, State, connecting, idle, StreamError, invalid_id, url_required, err_closed,
  channel_blocked, stale_revision,
}
use tvr.Stream.Walk.{apply_current_upstream}
use tvr.Stream.Viewers.{add_viewer}
use tvr.Stream.Calls.{Call, steps}
use tvr.Stream.Ready.{Status, status, stop, is_error}

pub record Manager : Type 0 where
  pub opts : Options
  pub heap : List Session
  pub sessions : Dict Text ℕ
  pub revisions : Dict Text Text
  pub blocked : Dict Text (Unit {0})
  pub sticky : Dict Text Status
  pub epochs : Dict Text ℕ
  pub profile : Profile
  pub closed : Bool

-- The defaults of `NewManager`.
unfoldable pub new_manager : Options → Profile → Manager
new_manager opts profile = record {
  opts = record {
    buffer_size = if ltb opts.buffer_size 8 then 1024 else opts.buffer_size;
    idle_timeout =
        if leb_ℤ opts.idle_timeout (pos 0) then pos 30_000_000_000 else opts.idle_timeout;
    conn_timeout =
        if leb_ℤ opts.conn_timeout (pos 0) then pos 10_000_000_000 else opts.conn_timeout;
  };
  heap = [];
  sessions = [];
  revisions = [];
  blocked = [];
  sticky = [];
  epochs = [];
  profile = ProfileCode.normalize profile;
  closed = false;
}

abbrev pub normal_or_empty : Result Source.SourceError Source → Source
normal_or_empty (ok s) = s
normal_or_empty (err e) = no_source

abbrev pub ready_limit_of : Options → Profile → Source → ℤ
ready_limit_of opts profile src =
    if src.transcode
    then (if leb_ℤ profile.startup_timeout (pos 0)
        then pos 30_000_000_000
        else profile.startup_timeout)
    else opts.conn_timeout

abbrev pub no_upstream : Upstream
no_upstream = record {
  id = [];
  url = [];
  headers = [];
  candidates = [];
  transcode = false;
  revision = [];
}

unfoldable pub new_session : (ℕ → ℕ) → Text → Source → Options → Profile → ℕ → Session
new_session rand channel_id src opts profile epoch =
    let source = normal_or_empty (normalize src) in
    apply_current_upstream (record {
      channel_id = channel_id;
      epoch = epoch;
      opts = opts;
      ready_limit = ready_limit_of opts profile source;
      source = source;
      upstream = no_upstream;
      current_index = start_index rand source;
      candidate_index = 0;
      attempts_before_ready = 0;
      ready_watch = none;
      viewers = [];
      gone = [];
      next_id = 0;
      state = connecting;
      last_error = [];
      bytes_sent = 0;
      connected = none;
      pat = [];
      pmts = [];
      seen_rai = false;
      pump_cancel = none;
      next_ctx = 0;
      cancelled = [];
      stopped = false;
      attempt_timed_out = false;
      ready_closed = false;
      ready_err = none;
      ever_ready = false;
      done = false;
    })

abbrev pub epoch_of : Option ℕ → ℕ
epoch_of none = 0
epoch_of (some n) = n

-- A change of the session that a pointer leads to.
unfoldable pub update_at : ℕ → (Session → Session) → List Session → List Session
update_at p f [] = []
update_at zero f (s ∷ heap) = f s ∷ heap
update_at (suc p) f (s ∷ heap) = s ∷ update_at p f heap

abbrev pub change : ℕ → (Session → Session) → Manager → Manager
change p f m = record m { heap = update_at p f m.heap }

abbrev pub next_epoch : Text → Manager → ℕ
next_epoch id m = epoch_of (lookup id m.epochs) + 1

-- The session is detached and its epoch is over; the pointer that it had is returned for `stop`.
unfoldable pub retire_session : Text → Manager → Manager × Option ℕ
retire_session id m = (
  record m {
    sticky = delete id m.sticky;
    epochs = insert id (next_epoch id m) m.epochs;
    sessions = delete id m.sessions;
  },
  lookup id m.sessions,
)

unfoldable pub start_session : (ℕ → ℕ) → Text → Source → Manager → Manager × ℕ
start_session rand id src m =
    let s = new_session rand id src m.opts m.profile (next_epoch id m) in
    (
      record m {
        sticky = delete id m.sticky;
        epochs = insert id (next_epoch id m) m.epochs;
        heap = m.heap ++ s ∷ [];
        sessions = insert id (length m.heap) m.sessions;
      },
      length m.heap,
    )

abbrev pub stop_stale : Option ℕ → Manager → Manager
stop_stale none m = m
stop_stale (some p) m = change p stop m

abbrev pub stop_each : List ℕ → Manager → Manager
stop_each [] m = m
stop_each (p ∷ ps) m = stop_each ps (change p stop m)

-- The active session of a channel with its pointer.
abbrev pub at_pointer : Manager → Option ℕ → Option (ℕ × Session)
at_pointer m none = none
at_pointer m (some p) = elim (get_elem? m.heap p) [ none ↦ none | some s ↦ some (p, s) ]

-- Whether the session can be shared, is dropped because it stopped, or is retired because it transcodes the other way.
pub data Reuse : Type 0 where
  reuses : ℕ → Reuse
  replaces : Reuse
  retires : Reuse

abbrev pub differs : Bool → Bool → Bool
differs true b = not b
differs false b = b

unfoldable pub reuse : Source → Option (ℕ × Session) → Reuse
reuse src none = replaces
reuse src (some (p, s)) =
    if s.stopped
    then replaces
    else if differs s.source.transcode src.transcode
    then retires
    else reuses p

-- The manager, the session that the viewer joins, and the session to stop.
unfoldable pub obtain : (ℕ → ℕ) → Text → Source → Reuse → Manager → Manager × ℕ × Option ℕ
obtain rand id src (reuses p) m = (m, p, none)
obtain rand id src replaces m =
    let (m', p) = start_session rand id src (record m { sessions = delete id m.sessions }) in
    (m', p, none)
obtain rand id src retires m =
    let (m1, stale) = retire_session id m in
    let (m2, p) = start_session rand id src m1 in (m2, p, stale)

abbrev pub add_viewer_id : ℕ → Option Session → ℕ
add_viewer_id cap none = 0
add_viewer_id cap (some s) = (add_viewer cap s).1

-- A viewer joins the session; then the stale session is stopped. The session has a mutex of its own: `cs` is what its
-- goroutine and its viewers call on it between the look at `stopped` and the joining, `stop` among them.
unfoldable pub join : List Call → Manager × ℕ × Option ℕ → Manager × ℕ × ℕ
join cs (m, p, stale) =
    let cap = m.opts.buffer_size in
    let n = change p (steps cs) m in
    let id = add_viewer_id cap (get_elem? n.heap p) in
    (stop_stale stale (change p (λ s. (add_viewer cap s).0) n), p, id)

abbrev pub is_stale : Option Text → Text → Bool
is_stale none revision = false
is_stale (some rev) revision = not (is_empty revision) && not (text_eq rev revision)

abbrev pub note_revision : Text → Text → Manager → Manager
note_revision id revision m =
    if is_empty revision then m else record m { revisions = insert id revision m.revisions }

abbrev pub is_some {ℓ} : {A : Type ℓ} → Option A → Bool
is_some none = false
is_some (some a) = true

-- The part of `Subscribe` after its checks.
unfoldable pub admit : (ℕ → ℕ) → List Call → Text → Source → Manager → Manager × ℕ × ℕ
admit rand cs id src m =
    let m' = note_revision id src.revision m in
    join cs (obtain rand id src (reuse src (at_pointer m' (lookup id m'.sessions))) m')

-- `Subscribe` up to the wait for readiness: the manager, the session and the id of the viewer.
unfoldable pub subscribe_normal :
    (ℕ → ℕ) → List Call → Text → Source → Manager → Result StreamError (Manager × ℕ × ℕ)
subscribe_normal rand cs id src m =
    if m.closed
    then err err_closed
    else if is_some (lookup id m.blocked)
    then err channel_blocked
    else if is_stale (lookup id m.revisions) src.revision
    then err stale_revision
    else ok (admit rand cs id src m)

unfoldable pub subscribe :
    (ℕ → ℕ) → List Call → Text → Source → Manager → Result StreamError (Manager × ℕ × ℕ)
subscribe rand cs id src m = if is_empty id then err invalid_id else elim (normalize src) [
  | err e ↦ err url_required
  | ok src' ↦ subscribe_normal rand cs id src' m
]

unfoldable pub publish_channel : Text → Text → Bool → Manager → Result StreamError Manager
publish_channel id revision invalidate m =
    if is_empty id
    then err invalid_id
    else let m' = note_revision id revision (record m { blocked = delete id m.blocked }) in
      ok (
        if invalidate
        then (let (m'', stale) = retire_session id m' in stop_stale stale m'')
        else m')

unfoldable pub block_channel : Text → Manager → Result StreamError Manager
block_channel id m =
    if is_empty id
    then err invalid_id
    else let m' = record m {
      blocked = insert id tt m.blocked;
      revisions = delete id m.revisions;
    } in
      let (m'', stale) = retire_session id m' in ok (stop_stale stale m'')

-- The range of a loop over the sessions that retires those that pass.
abbrev pub passes : (Session → Bool) → Option Session → Bool
passes test none = false
passes test (some s) = test s

unfoldable pub retire_where : (Session → Bool) → Dict Text ℕ → Manager → Manager × List ℕ
retire_where test [] m = (m, [])
retire_where test ((id, p) ∷ rest) m =
    let m1 = if passes test (get_elem? m.heap p) then (retire_session id m).0 else m in
    let (m2, stale) = retire_where test rest m1 in
    (m2, if passes test (get_elem? m.heap p) then p ∷ stale else stale)

unfoldable pub apply_profile : Profile → Manager → Manager
apply_profile profile m =
    let m1 = record m { profile = ProfileCode.normalize profile } in
    let (m2, stale) = retire_where (λ s. s.source.transcode) m1.sessions m1 in stop_each stale m2

unfoldable pub close : Manager → Manager
close m =
    let m1 = record m { closed = true } in
    let (m2, stale) = retire_where (λ s. true) m1.sessions m1 in stop_each stale m2

abbrev pub idle_status : Text → Status
idle_status id = record {
  channel_id = id;
  state = idle;
  viewers = 0;
  last_error = [];
  bytes_sent = 0;
  connected_at = none;
  upstream_id = [];
  upstream_host = [];
}

unfoldable pub channel_status : (Text → Text) → Text → Manager → Status
channel_status host id m = elim (at_pointer m (lookup id m.sessions)) [
  | some (p, s) ↦ status host s
  | none ↦ elim (lookup id m.sticky) [ some st ↦ st | none ↦ idle_status id ]
]

-- `rememberFinish` of the session that a pointer leads to.
unfoldable pub remember_finish : Session → Status → Manager → Manager
remember_finish s st m =
    if not (epoch_of (lookup s.channel_id m.epochs) == s.epoch)
    then m
    else if is_some (lookup s.channel_id m.sessions)
    then m
    else if is_error st.state && not (is_empty (trim_space st.last_error))
    then record m {
      sticky = insert s.channel_id (record st { channel_id = s.channel_id; viewers = 0 }) m.sticky;
    }
    else record m { sticky = delete s.channel_id m.sticky }

abbrev pub is_pointer : ℕ → Option ℕ → Bool
is_pointer p none = false
is_pointer p (some q) = q == p

unfoldable pub remove_session : ℕ → Session → Manager → Manager
remove_session p s m =
    if is_pointer p (lookup s.channel_id m.sessions)
    then record m { sessions = delete s.channel_id m.sessions }
    else m
