-- ===== src/Mpegts/Frame.antt =====
-- internal/core/mpegts/frame.go: `ExtractFramed` and `Framed`. A slice of the data is the list of its bytes.
pub mod Split
pub mod Carry
pub mod Chunks
use tvr.Base.{
  ℕ, zero, suc, ◌+◌, ◌-◌, Bool, ◌&&◌, Option, none, some, List, [], ◌∷◌, length, take, drop, ltb,
  leb, ◌==◌, if◌then◌else◌,
}
use tvr.Mpegts.Header.{sync_byte, packet_size, byte_at}

-- The scan for the first sync byte: the data from `start` on.
unfoldable pub find_sync : List ℕ → Option (List ℕ)
find_sync [] = none
find_sync (b ∷ bs) = if b == sync_byte then some (b ∷ bs) else find_sync bs

-- A complete packet with its sync byte stands first.
unfoldable pub has_packet : List ℕ → Bool
has_packet bs = leb packet_size (length bs) && byte_at bs 0 == sync_byte

-- `end - start` of the second loop, on the data from `end` on. A round that goes on drops a packet,
-- so the length of the data is fuel enough (`run_fuel`).
unfoldable pub run : ℕ → List ℕ → ℕ
run zero bs = 0
run (suc fuel) bs =
    let rest = run fuel (drop packet_size bs) in if has_packet bs then packet_size + rest else 0

abbrev pub run_all : List ℕ → ℕ
run_all bs = run (length bs) bs

-- The two slices at `end`; with `end == start` the first is empty.
abbrev pub split_at_end : List ℕ → List ℕ × List ℕ
split_at_end bs = (take (run_all bs) bs, drop (run_all bs) bs)

-- What is kept of data with no sync byte: less than a packet.
abbrev pub keep_tail : List ℕ → List ℕ
keep_tail bs =
    if ltb (packet_size - 1) (length bs) then drop (length bs - (packet_size - 1)) bs else bs

unfoldable pub extract_framed : List ℕ → List ℕ × List ℕ
extract_framed bs = elim (find_sync bs) [
  | none ↦ ([], keep_tail bs)
  | some from ↦ split_at_end from
]

unfoldable pub framed : List ℕ → Option (List ℕ)
framed bs =
    let whole = (extract_framed bs).0 in if ltb (length whole) packet_size then none else some whole
