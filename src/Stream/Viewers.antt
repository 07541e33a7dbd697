-- ===== src/Stream/Viewers.antt =====
-- internal/core/stream/session.go and copy.go: the viewers of a session. Each function is the work done under the
-- mutex, in one step. A send to a channel with a full buffer takes the `default` branch.
pub mod Invariant
pub mod Sending
use tvr.Base.{
  ℕ, zero, suc, ◌+◌, ◌-◌, ◌*◌, Bool, true, false, not, ◌&&◌, ◌||◌, List, [], ◌∷◌, ◌++◌, Option,
  none, some, length, take, drop, ltb, leb, ◌==◌, if◌then◌else◌, Dict, lookup, insert, delete,
  nat_eq, ◌%◌,
}
use tvr.Mpegts.Header.{packet_size}
use tvr.Stream.Packets.{startup_packets, keyframe_suffix, observe_framed}
use tvr.Stream.Session.{
  Session, Viewer, State, connecting, streaming, idle, error, cancel, StreamError, session_stopped,
  error_text,
}

-- `select { case v.ch <- chunk: default: }`, and whether the value was sent.
abbrev pub has_room : Viewer → Bool
has_room v = ltb (length v.queue) v.cap

abbrev pub enqueue : List ℕ → Viewer → Viewer
enqueue chunk v = record v { queue = v.queue ++ chunk ∷ [] }

abbrev pub try_send : List ℕ → Viewer → Viewer
try_send chunk v = if has_room v then enqueue chunk v else v

abbrev pub close : Viewer → Viewer
close v = record v { closed = true }

abbrev pub new_viewer : ℕ → ℕ → Viewer
new_viewer id cap = record { id = id; queue = []; cap = cap; closed = false; wait_keyframe = false }

-- What a new viewer is given: nothing before a keyframe, or the tables seen so far.
abbrev pub greet : Session → Viewer → Viewer
greet s v =
    if s.source.transcode && s.ever_ready && s.seen_rai
    then record v { wait_keyframe = true }
    else elim (startup_packets s) [ [] ↦ v | b ∷ bs ↦ try_send (b ∷ bs) v ]

unfoldable pub add_viewer : ℕ → Session → Session × ℕ
add_viewer buffer_size s =
    let id = s.next_id + 1 in
    (
      record s {
        next_id = id;
        viewers = insert id (greet s (new_viewer id buffer_size)) s.viewers;
      },
      id,
    )

-- With no viewer left the session is idle and its pump is cancelled.
unfoldable pub settle : Session → Session
settle s = elim s.viewers [
  | [] ↦ cancel s.pump_cancel (record s { state = idle; pump_cancel = none })
  | v ∷ vs ↦ s
]

unfoldable pub remove_viewer : ℕ → Session → Session
unfolding settle
remove_viewer id s = elim (lookup id s.viewers) [
  | none ↦ settle s
  | some v ↦ settle (record s { viewers = delete id s.viewers; gone = (id, close v) ∷ s.gone })
]

abbrev pub viewer_count : Session → ℕ
viewer_count s = length s.viewers

-- What one viewer does with a chunk: it waits on, takes it, or is too slow and is dropped.
pub data Delivery : Type 0 where
  keeps : Viewer → Delivery
  drops : Viewer → Delivery

abbrev pub send_or_drop : List ℕ → Viewer → Delivery
send_or_drop chunk v = if has_room v then keeps (enqueue chunk v) else drops (close v)

abbrev pub at_keyframe : List ℕ → Viewer → Option (List ℕ) → Delivery
at_keyframe startup v none = keeps v
at_keyframe startup v (some cut) =
    send_or_drop (startup ++ cut) (record v { wait_keyframe = false })

unfoldable pub deliver : List ℕ → List ℕ → Viewer → Delivery
deliver startup pkt v =
    if v.wait_keyframe then at_keyframe startup v (keyframe_suffix pkt) else send_or_drop pkt v

-- The range over the viewers: those that stay, and those that are dropped.
abbrev pub sort_delivery :
    ℕ → Delivery → Dict ℕ Viewer × Dict ℕ Viewer → Dict ℕ Viewer × Dict ℕ Viewer
sort_delivery id (keeps v) (kept, dropped) = ((id, v) ∷ kept, dropped)
sort_delivery id (drops v) (kept, dropped) = (kept, (id, v) ∷ dropped)

unfoldable pub deliver_all : List ℕ → List ℕ → Dict ℕ Viewer → Dict ℕ Viewer × Dict ℕ Viewer
deliver_all startup pkt [] = ([], [])
deliver_all startup pkt ((id, v) ∷ vs) =
    sort_delivery id (deliver startup pkt v) (deliver_all startup pkt vs)

unfoldable pub broadcast : List ℕ → Session → Session
unfolding settle
broadcast pkt s =
    let (kept, dropped) = deliver_all (startup_packets s) pkt s.viewers in
    settle (record s {
      bytes_sent = s.bytes_sent + length pkt;
      viewers = kept;
      gone = dropped ++ s.gone;
    })

-- The size of the next burst: 32 packets, or the whole packets that are left.
abbrev pub burst_size : List ℕ → ℕ
burst_size bytes =
    if ltb (length bytes) (packet_size * 32)
    then length bytes - length bytes % packet_size
    else packet_size * 32 - (packet_size * 32) % packet_size

-- `broadcastFramed`. A round that goes on drops a packet or more, so the length is fuel enough.
unfoldable pub burst_loop : ℕ → List ℕ → Session → Session
burst_loop zero bytes s = s
burst_loop (suc fuel) bytes s =
    let n = burst_size bytes in
    let rest = burst_loop fuel (drop n bytes) (broadcast (take n bytes) s) in
    if ltb (length bytes) packet_size then s else if ltb n packet_size then s else rest

unfoldable pub broadcast_framed : List ℕ → Session → Session
unfolding burst_loop
broadcast_framed bytes s = burst_loop (length bytes) bytes (observe_framed bytes s)

abbrev pub close_all : Dict ℕ Viewer → Dict ℕ Viewer
close_all [] = []
close_all ((id, v) ∷ vs) = (id, close v) ∷ close_all vs

unfoldable pub set_state : State → List ℕ → Session → Session
set_state state message s =
    let state' : State = elim s.viewers [
      | [] ↦ elim state [ connecting ↦ idle | streaming ↦ idle | idle ↦ idle | error ↦ error ]
      | v ∷ vs ↦ state
    ] in
    record s { state = state'; last_error = message }
