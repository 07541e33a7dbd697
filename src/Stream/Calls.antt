-- ===== src/Stream/Calls.antt =====
-- The calls that goroutines make on a session, each as one step, and the session after any sequence of them.
pub mod Safety
pub mod Readiness
pub mod Identity
use tvr.Base.{ℕ, List, [], ◌∷◌, Option, Text}
use tvr.Stream.Session.{Session, State, StreamError}
use tvr.Stream.Viewers.{add_viewer, remove_viewer, broadcast_framed, set_state}
use tvr.Stream.Ready.{mark_ready, fail_ready, watch_fires, stop}
use tvr.Stream.Walk.{pump_start, pump_end, advance}

pub data Call : Type 0 where
  subscribe : ℕ → Call
  leave : ℕ → Call
  media : List ℕ → Call
  sets : State → Text → Call
  ready : ℕ → Call
  fails : Option StreamError → Call
  times_out : ℕ → Call
  pump_begins : Call
  pump_ends : ℕ → Option StreamError → Call
  moves_on : Call
  stops : Call

unfoldable pub step : Call → Session → Session
step (subscribe cap) s = (add_viewer cap s).0
step (leave id) s = remove_viewer id s
step (media bytes) s = broadcast_framed bytes s
step (sets state message) s = set_state state message s
step (ready now) s = mark_ready now s
step (fails err) s = fail_ready err s
step (times_out ctx) s = watch_fires ctx s
step pump_begins s = (pump_start s).0
step (pump_ends ctx err) s = (pump_end ctx err s).0
step moves_on s = advance s
step stops s = stop s

unfoldable pub steps : List Call → Session → Session
steps [] s = s
steps (c ∷ cs) s = steps cs (step c s)
