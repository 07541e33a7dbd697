-- ===== src/Stream/Calls/Safety.antt =====
-- Invariants of a session under any sequence of calls.
use tvr.Base.{
  ℕ, zero, suc, List, [], ◌∷◌, length, take, drop, ltb, leb, ◌≡◌, refl, ◌∙◌, inl, inr, arith,
  Bool-cases,
}
use tvr.Mpegts.Header.{packet_size}
use tvr.Stream.Session.{Session}
use tvr.Stream.Packets.{observe_packet, observe_tables, observe_loop, observe_framed}
use tvr.Stream.Viewers.{broadcast, burst_size, burst_loop, broadcast_framed, set_state}
use tvr.Stream.Viewers.Invariant.{Inv, add_viewer-Inv, remove_viewer-Inv, broadcast-Inv, stop-Inv}
use tvr.Stream.Ready.{mark_ready, stop_ready_watch, fail_ready, watch_fires, arm_ready_watch}
use tvr.Stream.Walk.{apply_current_upstream, begin_pump, pump_start, pump_end, advance}
use tvr.Stream.Calls.{
  Call, subscribe, leave, media, sets, ready, fails, times_out, pump_begins, pump_ends, moves_on,
  stops, step, steps,
}

-- A call that leaves the viewers alone keeps the invariant.
abbrev SameViewers : Session → Session → Type 0
SameViewers s t = (t.viewers ≡ s.viewers) × (t.gone ≡ s.gone) × (t.next_id ≡ s.next_id)

SameViewers-Inv : (s t : Session) → SameViewers s t → Inv s → Inv t
SameViewers-Inv s t (v, g, n) h = record {
  live = rw (v, n) h.live;
  left = rw (g, n) h.left;
  distinct = rw v h.distinct;
}

observe_packet-SameViewers : (pkt : List ℕ) (s : Session) → SameViewers s (observe_packet pkt s)
unfolding observe_packet observe_tables
observe_packet-SameViewers pkt s = ground arith

observe_loop-SameViewers :
    (fuel : ℕ) (bytes : List ℕ) (s : Session) → SameViewers s (observe_loop fuel bytes s)
unfolding observe_loop
observe_loop-SameViewers zero bytes s = (refl, refl, refl)
observe_loop-SameViewers (suc fuel) bytes s = elim (Bool-cases (leb packet_size (length bytes))) [
  | inr e ↦ rw e (refl, refl, refl)
  | inl e ↦
      let s' : Session = observe_packet (take packet_size bytes) s in
      let (v, g, n) = observe_packet-SameViewers (take packet_size bytes) s in
      let (v', g', n') = observe_loop-SameViewers fuel (drop packet_size bytes) s' in
      rw e (v' ∙ v, g' ∙ g, n' ∙ n)
]

burst_loop-Inv : (fuel : ℕ) (bytes : List ℕ) (s : Session) → Inv s → Inv (burst_loop fuel bytes s)
unfolding burst_loop
burst_loop-Inv zero bytes s h = h
burst_loop-Inv (suc fuel) bytes s h =
    let n : ℕ = burst_size bytes in
    let next =
      burst_loop-Inv fuel (drop n bytes) (broadcast (take n bytes) s)
        (broadcast-Inv (take n bytes) s h) in
    elim (Bool-cases (ltb (length bytes) packet_size)) [
      | inl e ↦ rw e h
      | inr e ↦ elim (Bool-cases (ltb n packet_size)) [
        | inl f ↦ rw e (rw f h)
        | inr f ↦ rw e (rw f next)
      ]
    ]

media-Inv : (bytes : List ℕ) (s : Session) → Inv s → Inv (broadcast_framed bytes s)
unfolding broadcast_framed observe_framed
media-Inv bytes s h =
    burst_loop-Inv (length bytes) bytes _
      (SameViewers-Inv s _ (observe_loop-SameViewers (length bytes) bytes s) h)

step-Inv : (c : Call) (s : Session) → Inv s → Inv (step c s)
unfolding step
step-Inv (subscribe cap) s h = add_viewer-Inv cap s h
step-Inv (leave id) s h = remove_viewer-Inv id s h
step-Inv (media bytes) s h = media-Inv bytes s h
step-Inv (sets state message) s h = SameViewers-Inv s _ (unfold set_state in (refl, refl, refl)) h
step-Inv (ready now) s h = SameViewers-Inv s _ (unfold mark_ready in ground arith) h
step-Inv (fails err) s h = SameViewers-Inv s _ (unfold fail_ready in ground arith) h
step-Inv (times_out ctx) s h = SameViewers-Inv s _ (unfold watch_fires in ground arith) h
step-Inv pump_begins s h =
    SameViewers-Inv s _
      (unfold pump_start begin_pump apply_current_upstream arm_ready_watch in ground arith) h
step-Inv (pump_ends ctx err) s h =
    SameViewers-Inv s _ (unfold pump_end stop_ready_watch in ground arith) h
step-Inv moves_on s h = SameViewers-Inv s _ (unfold advance in ground arith) h
step-Inv stops s h = stop-Inv s h

-- Any calls, in any order, keep the invariant of the viewers: those in the map have different ids, none above the last id handed out,
-- none of them is closed, those that left are closed, and no buffer is over its capacity.
pub steps-Inv : (cs : List Call) (s : Session) → Inv s → Inv (steps cs s)
unfolding steps
steps-Inv [] s h = h
steps-Inv (c ∷ cs) s h = steps-Inv cs (step c s) (step-Inv c s h)
