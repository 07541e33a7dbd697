-- ===== src/Stream/Calls/Readiness.antt =====
-- Readiness under any sequence of calls.
use tvr.Base.{
  ℕ, zero, suc, true, List, [], ◌∷◌, Option, none, some, length, take, drop, ltb, leb, ◌≡◌, ◌≢◌,
  refl, ◌∙◌, arith, Bool-cases, inl, inr, some_ne_none, false,
}
use tvr.Mpegts.Header.{packet_size}
use tvr.Stream.Session.{Session, StreamError}
use tvr.Stream.Packets.{observe_packet, observe_tables, observe_loop, observe_framed}
use tvr.Stream.Viewers.{
  add_viewer, remove_viewer, settle, broadcast, burst_size, burst_loop, broadcast_framed, set_state,
}
use tvr.Stream.Ready.{stop, fail_ready, stop_ready_watch, watch_fires, arm_ready_watch, wait_ready}
use tvr.Stream.Ready.Once.{
  ReadyState, undecided, was_ready, has_failed, SameReady, SameReady-ReadyState,
  mark_ready-ReadyState, fail_ready-ReadyState, ReadyState-none, stop-ReadyState, mark_ready-closed,
  fail_ready-closed, stop-closed,
}
use tvr.Stream.Walk.{apply_current_upstream, begin_pump, pump_start, pump_end, advance}
use tvr.Stream.Calls.{
  Call, subscribe, leave, media, sets, ready, fails, times_out, pump_begins, pump_ends, moves_on,
  stops, step, steps,
}

-- Neither readiness nor the flag of `stop` changes.
abbrev Calm : Session → Session → Type 0
Calm s t = SameReady s t × (t.stopped ≡ s.stopped)

Calm-trans : (s t u : Session) → Calm s t → Calm t u → Calm s u
Calm-trans s t u ((c, v, e), p) ((c', v', e'), p') = ((c' ∙ c, v' ∙ v, e' ∙ e), p' ∙ p)

observe_packet-Calm : (pkt : List ℕ) (s : Session) → Calm s (observe_packet pkt s)
unfolding observe_packet observe_tables
observe_packet-Calm pkt s = ((ground arith, ground arith, ground arith), ground arith)

observe_loop-Calm : (fuel : ℕ) (bytes : List ℕ) (s : Session) → Calm s (observe_loop fuel bytes s)
unfolding observe_loop
observe_loop-Calm zero bytes s = ((refl, refl, refl), refl)
observe_loop-Calm (suc fuel) bytes s = elim (Bool-cases (leb packet_size (length bytes))) [
  | inr e ↦ rw e ((refl, refl, refl), refl)
  | inl e ↦
      let s' : Session = observe_packet (take packet_size bytes) s in
      rw e (
        Calm-trans s s' (observe_loop fuel (drop packet_size bytes) s')
          (observe_packet-Calm (take packet_size bytes) s)
          (observe_loop-Calm fuel (drop packet_size bytes) s'))
]

settle-Calm : (s : Session) → Calm s (settle s)
unfolding settle
settle-Calm s = ((ground arith, ground arith, ground arith), ground arith)

broadcast-Calm : (pkt : List ℕ) (s : Session) → Calm s (broadcast pkt s)
unfolding broadcast
broadcast-Calm pkt s = ((ground arith, ground arith, ground arith), ground arith)

burst_loop-Calm : (fuel : ℕ) (bytes : List ℕ) (s : Session) → Calm s (burst_loop fuel bytes s)
unfolding burst_loop
burst_loop-Calm zero bytes s = ((refl, refl, refl), refl)
burst_loop-Calm (suc fuel) bytes s =
    let n : ℕ = burst_size bytes in
    let next =
      Calm-trans s (broadcast (take n bytes) s)
        (burst_loop fuel (drop n bytes) (broadcast (take n bytes) s))
        (broadcast-Calm (take n bytes) s)
        (burst_loop-Calm fuel (drop n bytes) (broadcast (take n bytes) s)) in
    elim (Bool-cases (ltb (length bytes) packet_size)) [
      | inl e ↦ rw e ((refl, refl, refl), refl)
      | inr e ↦ elim (Bool-cases (ltb n packet_size)) [
        | inl f ↦ rw e (rw f ((refl, refl, refl), refl))
        | inr f ↦ rw e (rw f next)
      ]
    ]

media-Calm : (bytes : List ℕ) (s : Session) → Calm s (broadcast_framed bytes s)
unfolding broadcast_framed observe_framed
media-Calm bytes s =
    let seen : Session = observe_loop (length bytes) bytes s in
    Calm-trans s seen (burst_loop (length bytes) bytes seen)
      (observe_loop-Calm (length bytes) bytes s) (burst_loop-Calm (length bytes) bytes seen)

-- The calls that do not decide anything.
add_viewer-Calm : (cap : ℕ) (s : Session) → Calm s (add_viewer cap s).0
unfolding add_viewer
add_viewer-Calm cap s = ((refl, refl, refl), refl)

remove_viewer-Calm : (id : ℕ) (s : Session) → Calm s (remove_viewer id s)
unfolding remove_viewer
remove_viewer-Calm id s = ((ground arith, ground arith, ground arith), ground arith)

pump_start-Calm : (s : Session) → Calm s (pump_start s).0
unfolding pump_start begin_pump apply_current_upstream arm_ready_watch
pump_start-Calm s = ((ground arith, ground arith, ground arith), ground arith)

pump_end-Calm : (ctx : ℕ) (err : Option StreamError) (s : Session) → Calm s (pump_end ctx err s).0
unfolding pump_end stop_ready_watch
pump_end-Calm ctx err s = ((ground arith, ground arith, ground arith), ground arith)

advance-Calm : (s : Session) → Calm s (advance s)
unfolding advance
advance-Calm s = ((ground arith, ground arith, ground arith), ground arith)

watch_fires-Calm : (ctx : ℕ) (s : Session) → Calm s (watch_fires ctx s)
unfolding watch_fires
watch_fires-Calm ctx s = ((ground arith, ground arith, ground arith), ground arith)

Calm-ReadyState : (s t : Session) → Calm s t → ReadyState s → ReadyState t
Calm-ReadyState s t (r, p) h = SameReady-ReadyState s t r p h

step-ReadyState : (c : Call) (s : Session) → ReadyState s → ReadyState (step c s)
unfolding step
step-ReadyState (subscribe cap) s h = Calm-ReadyState s _ (add_viewer-Calm cap s) h
step-ReadyState (leave id) s h = Calm-ReadyState s _ (remove_viewer-Calm id s) h
step-ReadyState (media bytes) s h = Calm-ReadyState s _ (media-Calm bytes s) h
step-ReadyState (sets state message) s h =
    Calm-ReadyState s _ (unfold set_state in ((refl, refl, refl), refl)) h
step-ReadyState (ready now) s h = mark_ready-ReadyState now s h
step-ReadyState (fails none) s h = ReadyState-none s h
step-ReadyState (fails (some e)) s h = fail_ready-ReadyState e s h
step-ReadyState (times_out ctx) s h = Calm-ReadyState s _ (watch_fires-Calm ctx s) h
step-ReadyState pump_begins s h = Calm-ReadyState s _ (pump_start-Calm s) h
step-ReadyState (pump_ends ctx err) s h = Calm-ReadyState s _ (pump_end-Calm ctx err s) h
step-ReadyState moves_on s h = Calm-ReadyState s _ (advance-Calm s) h
step-ReadyState stops s h = stop-ReadyState s h

-- Under any calls a session is undecided and not stopped, or was ready with no error, or failed with one and was never ready.
pub steps-ReadyState : (cs : List Call) (s : Session) → ReadyState s → ReadyState (steps cs s)
unfolding steps
steps-ReadyState [] s h = h
steps-ReadyState (c ∷ cs) s h = steps-ReadyState cs (step c s) (step-ReadyState c s h)

step-SameReady : (c : Call) (s : Session) → s.ready_closed ≡ true → SameReady s (step c s)
unfolding step
step-SameReady (subscribe cap) s h = (add_viewer-Calm cap s).0
step-SameReady (leave id) s h = (remove_viewer-Calm id s).0
step-SameReady (media bytes) s h = (media-Calm bytes s).0
step-SameReady (sets state message) s h = unfold set_state in (refl, refl, refl)
step-SameReady (ready now) s h = mark_ready-closed now s h
step-SameReady (fails err) s h = fail_ready-closed err s h
step-SameReady (times_out ctx) s h = (watch_fires-Calm ctx s).0
step-SameReady pump_begins s h = (pump_start-Calm s).0
step-SameReady (pump_ends ctx err) s h = (pump_end-Calm ctx err s).0
step-SameReady moves_on s h = (advance-Calm s).0
step-SameReady stops s h = stop-closed s h

steps-SameReady : (cs : List Call) (s : Session) → s.ready_closed ≡ true → SameReady s (steps cs s)
unfolding steps
steps-SameReady [] s h = (refl, refl, refl)
steps-SameReady (c ∷ cs) s h =
    let (a, b, e) = step-SameReady c s h in
    let (a', b', e') = steps-SameReady cs (step c s) (a ∙ h) in (a' ∙ a, b' ∙ b, e' ∙ e)

-- What a subscriber is once told of readiness, every later subscriber is told, whatever happens in between.
pub wait_ready-steps :
    (cs : List Call) (s : Session) (r : Option StreamError)
    → wait_ready s ≡ some r
    → wait_ready (steps cs s) ≡ some r
unfolding wait_ready
wait_ready-steps cs s r h =
    let closed : s.ready_closed ≡ true = ground arith in
    let (c, v, e) = steps-SameReady cs s closed in rw (c, e) h

-- `stop` decides what is undecided.
stop_decides : (s : Session) → ReadyState s → (stop s).ready_closed ≡ true
unfolding stop fail_ready
stop_decides s (undecided c v e p) = ground arith
stop_decides s (was_ready c v e) = unfold stop in ((stop-closed s c).0 ∙ c)
stop_decides s (has_failed f c v e) = unfold stop in ((stop-closed s c).0 ∙ c)

-- No subscriber waits on a session that was stopped: start from one that is neither stopped nor decided, as a new one
-- is; after any calls, a stop, and any calls again, readiness is decided.
pub wait_ready-stop :
    (before behind : List Call) (s : Session)
    → s.ready_closed ≡ false
    → s.ever_ready ≡ false
    → s.ready_err ≡ none
    → s.stopped ≡ false
    → wait_ready (steps behind (stop (steps before s))) ≢ none
unfolding wait_ready
wait_ready-stop before behind s c v e p w =
    let t = steps before s in
    let closed = stop_decides t (steps-ReadyState before s (undecided c v e p)) in
    let (c', _, _) = steps-SameReady behind (stop t) closed in
    let here : (steps behind (stop t)).ready_closed ≡ true = c' ∙ closed in
    some_ne_none (rw here at w)
