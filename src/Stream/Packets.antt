-- ===== src/Stream/Packets.antt =====
-- internal/core/stream/copy.go: what a session learns from packets. A packet is a list of bytes.
pub mod Keyframe
use tvr.Base.{
  ℕ, zero, suc, ◌+◌, ◌*◌, ◌/◌, ◌%◌, Bool, true, false, not, ◌&&◌, ◌||◌, List, [], ◌∷◌, ◌++◌, Option,
  none, some, length, take, drop, ltb, leb, ◌==◌, if◌then◌else◌, Dict, insert, nat_eq,
}
use tvr.Mpegts.Header.{sync_byte, packet_size, byte_at, pid, has_pusi, has_random_access}
use tvr.Stream.Session.{Session}

abbrev pub pat_pid : ℕ
pat_pid = 0

-- The heuristic for a PMT: its table id stands behind the pointer field.
unfoldable pub is_pmt : List ℕ → Bool
is_pmt pkt =
    let payload_start = if not ((byte_at pkt 3 / 32) % 2 == 0) then 5 + byte_at pkt 4 else 4 in
    let i = payload_start + 1 + byte_at pkt payload_start in
    if leb (length pkt) payload_start
    then false
    else if leb (length pkt) i
    then false
    else byte_at pkt i == 2

unfoldable pub observe_tables : List ℕ → Session → Session
observe_tables pkt s =
    if not (has_pusi pkt)
    then s
    else if pid pkt == pat_pid
    then record s { pat = pkt }
    else if is_pmt pkt
    then record s { pmts = insert (pid pkt) pkt s.pmts }
    else s

unfoldable pub observe_packet : List ℕ → Session → Session
unfolding observe_tables
observe_packet pkt s =
    let rai = has_random_access pkt in
    if not (length pkt == packet_size) || not (byte_at pkt 0 == sync_byte)
    then s
    else if not (has_pusi pkt) && not rai
    then s
    else observe_tables pkt (record s { seen_rai = if rai then true else s.seen_rai })

-- The loop over whole packets; a round drops one, so the length of the data is fuel enough.
unfoldable pub observe_loop : ℕ → List ℕ → Session → Session
observe_loop zero bytes s = s
observe_loop (suc fuel) bytes s =
    let rest =
      observe_loop fuel (drop packet_size bytes) (observe_packet (take packet_size bytes) s) in
    if leb packet_size (length bytes) then rest else s

unfoldable pub observe_framed : List ℕ → Session → Session
unfolding observe_loop
observe_framed bytes s = observe_loop (length bytes) bytes s

abbrev pub whole_packets : Dict ℕ (List ℕ) → List ℕ
whole_packets [] = []
whole_packets ((k, pmt) ∷ m) = (if length pmt == packet_size then pmt else []) ++ whole_packets m

unfoldable pub startup_packets : Session → List ℕ
startup_packets s = (if length s.pat == packet_size then s.pat else []) ++ whole_packets s.pmts

-- The data from the first packet on that has the random-access flag.
unfoldable pub keyframe_loop : ℕ → List ℕ → Option (List ℕ)
keyframe_loop zero bytes = none
keyframe_loop (suc fuel) bytes =
    let rest = keyframe_loop fuel (drop packet_size bytes) in
    if leb packet_size (length bytes)
    then (if has_random_access (take packet_size bytes) then some bytes else rest)
    else none

unfoldable pub keyframe_suffix : List ℕ → Option (List ℕ)
unfolding keyframe_loop
keyframe_suffix bytes = keyframe_loop (length bytes) bytes
