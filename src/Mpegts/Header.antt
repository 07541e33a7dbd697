-- ===== src/Mpegts/Header.antt =====
-- internal/core/mpegts/frame.go: the fields of a transport-stream header. Bytes are numbers below 256; a mask
-- by `&` is a quotient and a remainder by powers of two.
use tvr.Base.{
  ℕ, ◌+◌, ◌*◌, ◌/◌, ◌%◌, Bool, false, not, ◌&&◌, ◌||◌, List, length, get_or, ltb, ◌==◌,
  if◌then◌else◌,
}

abbrev pub sync_byte : ℕ
sync_byte = 0x47

abbrev pub packet_size : ℕ
packet_size = 188

-- The byte at an index that the guards around it keep in range.
abbrev pub byte_at : List ℕ → ℕ → ℕ
byte_at data' i = get_or data' i 0

unfoldable pub pid : List ℕ → ℕ
pid pkt = if ltb (length pkt) 3 then 0 else (byte_at pkt 1 % 32) * 256 + byte_at pkt 2

unfoldable pub has_pusi : List ℕ → Bool
has_pusi pkt = ltb 1 (length pkt) && not ((byte_at pkt 1 / 64) % 2 == 0)

unfoldable pub has_random_access : List ℕ → Bool
has_random_access pkt =
    if ltb (length pkt) 6 || not (byte_at pkt 0 == sync_byte)
    then false
    else let afc = (byte_at pkt 3 / 16) % 4 in
      if not (afc == 2) && not (afc == 3)
      then false
      else let af_len = byte_at pkt 4 in
        if ltb af_len 1 || ltb (length pkt) (5 + af_len)
        then false
        else not ((byte_at pkt 5 / 64) % 2 == 0)
