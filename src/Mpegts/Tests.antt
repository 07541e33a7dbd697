-- ===== src/Mpegts/Tests.antt =====
-- internal/core/mpegts/frame.go on two packets behind a stray byte, read in two chunks.
use tvr.Base.{ℕ, ◌<◌, List, [], ◌∷◌, ◌++◌, length, take, drop, replicate, ◌≡◌, refl, arith}
use tvr.Mpegts.Header.{sync_byte, packet_size, pid}
use tvr.Mpegts.Frame.{find_sync, has_packet, run, extract_framed}
use tvr.Mpegts.Frame.Split.{Splits, extract_framed-Splits}
use tvr.Mpegts.Frame.Chunks.{feed-extract_framed}
use tvr.Mpegts.Frame.Carry.{feed, concat}

abbrev packet : List ℕ
packet = sync_byte ∷ 65 ∷ 0 ∷ replicate 185 7

abbrev chunks : List (List ℕ)
chunks = (9 ∷ take 100 packet) ∷ (drop 100 packet ++ packet) ∷ []

framed_twice : (extract_framed (concat chunks)).0 ≡ packet ++ packet
unfolding extract_framed find_sync has_packet run
framed_twice = refl

carry_short : length (extract_framed (concat chunks)).1 < packet_size
unfolding extract_framed find_sync has_packet run
carry_short = omega arith

packet-pid : pid packet ≡ 256
unfolding pid
packet-pid = refl

feed-extract_framed_example : (feed [] chunks).0 ≡ (extract_framed (concat chunks)).0
feed-extract_framed_example = feed-extract_framed chunks carry_short

extract_framed-Splits_example :
    Splits (concat chunks) (extract_framed (concat chunks)).0 (extract_framed (concat chunks)).1
extract_framed-Splits_example = extract_framed-Splits (concat chunks)
