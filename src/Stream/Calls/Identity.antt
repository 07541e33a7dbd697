-- ===== src/Stream/Calls/Identity.antt =====
-- No call changes the channel or the epoch of a session.
use tvr.Base.{
  ℕ, zero, suc, List, length, take, drop, ltb, leb, ◌≡◌, refl, ◌∙◌, arith, Bool-cases, inl, inr,
}
use tvr.Mpegts.Header.{packet_size}
use tvr.Stream.Session.{Session}
use tvr.Stream.Packets.{observe_packet, observe_tables, observe_loop, observe_framed}
use tvr.Stream.Viewers.{
  add_viewer, remove_viewer, broadcast, burst_size, burst_loop, broadcast_framed, set_state,
}
use tvr.Stream.Ready.{mark_ready, stop_ready_watch, fail_ready, watch_fires, arm_ready_watch, stop}
use tvr.Stream.Walk.{apply_current_upstream, begin_pump, pump_start, pump_end, advance}
use tvr.Stream.Calls.{
  Call, subscribe, leave, media, sets, ready, fails, times_out, pump_begins, pump_ends, moves_on,
  stops, step,
}

abbrev pub SameIdentity : Session → Session → Type 0
SameIdentity s t = (t.channel_id ≡ s.channel_id) × (t.epoch ≡ s.epoch)

observe_packet-SameIdentity : (pkt : List ℕ) (s : Session) → SameIdentity s (observe_packet pkt s)
unfolding observe_packet observe_tables
observe_packet-SameIdentity pkt s = (ground arith, ground arith)

observe_loop-SameIdentity :
    (fuel : ℕ) (bytes : List ℕ) (s : Session) → SameIdentity s (observe_loop fuel bytes s)
unfolding observe_loop
observe_loop-SameIdentity zero bytes s = (refl, refl)
observe_loop-SameIdentity (suc fuel) bytes s = elim (Bool-cases (leb packet_size (length bytes))) [
  | inr e ↦ rw e (refl, refl)
  | inl e ↦
      let s' : Session = observe_packet (take packet_size bytes) s in
      let (c, n) = observe_packet-SameIdentity (take packet_size bytes) s in
      let (c', n') = observe_loop-SameIdentity fuel (drop packet_size bytes) s' in
      rw e (c' ∙ c, n' ∙ n)
]

broadcast-SameIdentity : (pkt : List ℕ) (s : Session) → SameIdentity s (broadcast pkt s)
unfolding broadcast
broadcast-SameIdentity pkt s = (ground arith, ground arith)

burst_loop-SameIdentity :
    (fuel : ℕ) (bytes : List ℕ) (s : Session) → SameIdentity s (burst_loop fuel bytes s)
unfolding burst_loop
burst_loop-SameIdentity zero bytes s = (refl, refl)
burst_loop-SameIdentity (suc fuel) bytes s =
    let n : ℕ = burst_size bytes in
    let (c, i) = broadcast-SameIdentity (take n bytes) s in
    let (c', i') = burst_loop-SameIdentity fuel (drop n bytes) (broadcast (take n bytes) s) in
    elim (Bool-cases (ltb (length bytes) packet_size)) [
      | inl e ↦ rw e (refl, refl)
      | inr e ↦ elim (Bool-cases (ltb n packet_size)) [
        | inl f ↦ rw e (rw f (refl, refl))
        | inr f ↦ rw e (rw f (c' ∙ c, i' ∙ i))
      ]
    ]

media-SameIdentity : (bytes : List ℕ) (s : Session) → SameIdentity s (broadcast_framed bytes s)
unfolding broadcast_framed observe_framed
media-SameIdentity bytes s =
    let seen : Session = observe_loop (length bytes) bytes s in
    let (c, n) = observe_loop-SameIdentity (length bytes) bytes s in
    let (c', n') = burst_loop-SameIdentity (length bytes) bytes seen in (c' ∙ c, n' ∙ n)

pub stop-SameIdentity : (s : Session) → SameIdentity s (stop s)
unfolding stop
stop-SameIdentity s = (ground arith, ground arith)

pub add_viewer-SameIdentity : (cap : ℕ) (s : Session) → SameIdentity s (add_viewer cap s).0
unfolding add_viewer
add_viewer-SameIdentity cap s = (refl, refl)

pub apply-SameIdentity : (s : Session) → SameIdentity s (apply_current_upstream s)
unfolding apply_current_upstream
apply-SameIdentity s = (ground arith, ground arith)

pub step-SameIdentity : (c : Call) (s : Session) → SameIdentity s (step c s)
unfolding step
step-SameIdentity (subscribe cap) s = add_viewer-SameIdentity cap s
step-SameIdentity (leave id) s = unfold remove_viewer in (ground arith, ground arith)
step-SameIdentity (media bytes) s = media-SameIdentity bytes s
step-SameIdentity (sets state message) s = unfold set_state in (refl, refl)
step-SameIdentity (ready now) s = unfold mark_ready in (ground arith, ground arith)
step-SameIdentity (fails err) s = unfold fail_ready in (ground arith, ground arith)
step-SameIdentity (times_out ctx) s = unfold watch_fires in (ground arith, ground arith)
step-SameIdentity pump_begins s =
    unfold pump_start begin_pump apply_current_upstream arm_ready_watch in
    (ground arith, ground arith)
step-SameIdentity (pump_ends ctx err) s =
    unfold pump_end stop_ready_watch in (ground arith, ground arith)
step-SameIdentity moves_on s = unfold advance in (ground arith, ground arith)
step-SameIdentity stops s = stop-SameIdentity s
