-- ===== src/Stream/Ready/Once.antt =====
-- Readiness is decided once.
use tvr.Base.{ℕ, true, false, Option, none, some, ◌≡◌, ◌∙◌, arith}
use tvr.Stream.Session.{Session, StreamError, session_stopped, upstream_failed}
use tvr.Stream.Ready.{mark_ready, fail_ready, stop}

-- Undecided, ready, or failed with an error; a stopped session is decided.
pub data ReadyState (s : Session) : Type 0 where
  undecided :
      s.ready_closed ≡ false
      → s.ever_ready ≡ false
      → s.ready_err ≡ none
      → s.stopped ≡ false
      → ReadyState s
  was_ready : s.ready_closed ≡ true → s.ever_ready ≡ true → s.ready_err ≡ none → ReadyState s
  has_failed :
      (e : StreamError)
      → s.ready_closed ≡ true
      → s.ever_ready ≡ false
      → s.ready_err ≡ some e
      → ReadyState s

-- What is decided stays: the channel is closed, and flag and error are as they were.
abbrev pub SameReady : Session → Session → Type 0
SameReady s t =
    (t.ready_closed ≡ s.ready_closed) × (t.ever_ready ≡ s.ever_ready) × (t.ready_err ≡ s.ready_err)

pub SameReady-ReadyState :
    (s t : Session) → SameReady s t → t.stopped ≡ s.stopped → ReadyState s → ReadyState t
SameReady-ReadyState s t (c, v, e) p (undecided c' v' e' p') =
    undecided (c ∙ c') (v ∙ v') (e ∙ e') (p ∙ p')
SameReady-ReadyState s t (c, v, e) p (was_ready c' v' e') = was_ready (c ∙ c') (v ∙ v') (e ∙ e')
SameReady-ReadyState s t (c, v, e) p (has_failed f c' v' e') =
    has_failed f (c ∙ c') (v ∙ v') (e ∙ e')

pub mark_ready-ReadyState : (now : ℕ) (s : Session) → ReadyState s → ReadyState (mark_ready now s)
unfolding mark_ready
mark_ready-ReadyState now s (undecided c v e p) =
    was_ready (ground arith) (ground arith) (ground arith)
mark_ready-ReadyState now s (was_ready c v e) =
    was_ready (ground arith) (ground arith) (ground arith)
mark_ready-ReadyState now s (has_failed f c v e) =
    has_failed f (ground arith) (ground arith) (ground arith)

pub fail_ready-ReadyState :
    (err : StreamError) (s : Session) → ReadyState s → ReadyState (fail_ready (some err) s)
unfolding fail_ready
fail_ready-ReadyState err s (undecided c v e p) =
    has_failed err (ground arith) (ground arith) (ground arith)
fail_ready-ReadyState err s (was_ready c v e) =
    was_ready (ground arith) (ground arith) (ground arith)
fail_ready-ReadyState err s (has_failed f c v e) =
    has_failed f (ground arith) (ground arith) (ground arith)

pub mark_ready-closed :
    (now : ℕ) (s : Session) → s.ready_closed ≡ true → SameReady s (mark_ready now s)
unfolding mark_ready
mark_ready-closed now s c = (ground arith, ground arith, ground arith)

pub fail_ready-closed :
    (err : Option StreamError) (s : Session)
    → s.ready_closed ≡ true
    → SameReady s (fail_ready err s)
unfolding fail_ready
fail_ready-closed err s c = (ground arith, ground arith, ground arith)

pub stop-closed : (s : Session) → s.ready_closed ≡ true → SameReady s (stop s)
unfolding stop
stop-closed s c = (ground arith, ground arith, ground arith)

pub stop-ReadyState : (s : Session) → ReadyState s → ReadyState (stop s)
unfolding stop
stop-ReadyState s (undecided c v e p) =
    has_failed session_stopped (ground arith) (ground arith) (ground arith)
stop-ReadyState s (was_ready c v e) = was_ready (ground arith) (ground arith) (ground arith)
stop-ReadyState s (has_failed f c v e) = has_failed f (ground arith) (ground arith) (ground arith)

pub ReadyState-none : (s : Session) → ReadyState s → ReadyState (fail_ready none s)
unfolding fail_ready
ReadyState-none s h = fail_ready-ReadyState upstream_failed s h
