-- ===== src/Stream/Manager/Tests.antt =====
-- internal/core/stream/manager.go, copy.go and hls.go on small inputs.
use tvr.Base.{
  insert, delete, ℕ, ◌<◌, ◌≤◌, true, false, List, [], ◌∷◌, ltb, none, some, length, get_elem?,
  replicate, All, ◌≡◌, refl, arith, Text, codes, trim_space, to_lower, to_upper, has_prefix, index,
  index_by, text_eq, lookup, text_key, ok,
}
use tvr.Base.Int.{pos}
use tvr.Upstream.Policy.{parse_policy, parse_pick_policy, pick_index}
use tvr.Upstream.Source.{Source, normalize, clean, start_index, fetch_urls}
use tvr.Transcode.Profile.{default_profile}
use tvr.Stream.Session.{Session, Options}
use tvr.Stream.Walk.{apply_current_upstream}
use tvr.Stream.Calls.{Call, ready, leave, stops, steps}
use tvr.Stream.Copy.{CopyOptions, Pass, reads_on, copy_mpegts, copy_loop, take_bytes, over_limit}
use tvr.Stream.Copy.Steps.{IsSent, all_bytes, chunks, copy_mpegts-Copied}
use tvr.Mpegts.Frame.{extract_framed, find_sync, run, has_packet}
use tvr.Mpegts.Frame.Carry.{feed}
use tvr.Stream.Hls.Seen.{SeenSet, new_seen_set, has, add, IsSeen, add-IsSeen}
use tvr.Stream.Hls.Playlist.{
  HlsVariant, HlsPlaylist, Numbers, classify, scan_line, scan_lines, scan_uri, parse_hls_playlist,
  pick_variant,
}
use tvr.Stream.Hls.Refused.{Supported, parse_hls_playlist-Supported, pick_variant-max}
use tvr.Stream.Manager.Obtained.{Obtained, obtain-Obtained}
use tvr.Stream.Viewers.{add_viewer}
use tvr.Stream.Packets.{startup_packets}
use tvr.Stream.Manager.{
  at_pointer, obtain, reuse, Manager, new_manager, new_session, subscribe, block_channel, close,
}
use tvr.Stream.Manager.Keeps.{Inv}
use tvr.Stream.Manager.Steps.{Op, subscribes, publishes, applies, acts, removes, changed, msteps}
use tvr.Stream.Manager.Safety.{new_manager-msteps-Inv}
use tvr.Stream.Manager.Admission.{reopens, closed_for_good, blocked_until_published}
use tvr.Stream.Manager.Flags.{is_err}

abbrev source : Source
source = record {
  policy = codes "fixed";
  upstreams =
      record {
        id = codes "u";
        url = codes "http://a/1";
        headers = [];
        candidates = [];
        transcode = false;
        revision = codes "r1";
      }
      ∷ [];
  fixed_index = pos 0;
  transcode = false;
  revision = codes "r1";
}

abbrev options : Options
options = record { buffer_size = 8; idle_timeout = pos 30; conn_timeout = pos 10 }

abbrev first_of : ℕ → ℕ
first_of n = 0

abbrev history : List Op
history =
    subscribes first_of [] (codes "c1") source
    ∷ acts 0 (ready 3)
    ∷ subscribes first_of (stops ∷ []) (codes "c2") source
    ∷ acts 0 (leave 1)
    ∷ acts 0 stops
    ∷ removes 0
    ∷ applies default_profile
    ∷ []

abbrev busy : Manager
busy = msteps history (new_manager options default_profile)

new_manager-msteps-Inv_example : Inv busy
new_manager-msteps-Inv_example = new_manager-msteps-Inv options default_profile history

closed_for_good_example :
    (is_err (subscribe first_of [] (codes "c1") source (msteps history (close busy))) ≡ true)
    × ((msteps history (close busy)).sessions ≡ [])
closed_for_good_example =
    closed_for_good first_of [] (codes "c1") source history busy new_manager-msteps-Inv_example

abbrev without_c2 : Manager
without_c2 = changed busy (block_channel (codes "c2") busy)

c2_blocked : block_channel (codes "c2") busy ≡ ok without_c2
unfolding block_channel
c2_blocked = refl

other_steps : All (λ o. reopens (codes "c2") o ≡ false) (publishes (codes "c1") [] true ∷ history)
unfolding text_eq
other_steps = (refl, (refl, (refl, (refl, (refl, (refl, (refl, (refl, tt))))))))

blocked_until_published_example :
    is_err (
      subscribe first_of []
        (codes "c2")
        source
        (msteps (publishes (codes "c1") [] true ∷ history) without_c2))
    ≡ true
blocked_until_published_example =
    blocked_until_published first_of [] (codes "c2") source
      (publishes (codes "c1") [] true ∷ history) busy without_c2 c2_blocked other_steps

source_normal : normalize source ≡ ok source
unfolding normalize clean parse_policy text_eq trim_space to_lower parse_pick_policy
source_normal = refl

obtain-Obtained_example : Obtained (codes "c1") source (
    obtain first_of
      (codes "c1")
      source
      (reuse source (at_pointer busy (lookup (codes "c1") busy.sessions)))
      busy)
obtain-Obtained_example = obtain-Obtained first_of (codes "c1") source busy source_normal

abbrev session : Session
session = (add_viewer 8 (new_session first_of (codes "c1") source options default_profile 1)).0

abbrev few_bytes : CopyOptions
few_bytes = record { max_bytes = 500; segment = false }

abbrev passes : List Pass
passes =
    record { quits = false; bytes = replicate 100 71; read_err = none; now = 1 }
    ∷ record { quits = false; bytes = replicate 88 7; read_err = none; now = 2 }
    ∷ []

still_reads : (copy_mpegts few_bytes passes session).1 ≡ reads_on
unfolding add_viewer startup_packets copy_mpegts copy_loop take_bytes over_limit extract_framed
    new_session normalize clean apply_current_upstream parse_policy parse_pick_policy start_index
    pick_index fetch_urls default_profile text_eq trim_space to_lower insert delete find_sync run
    has_packet
still_reads = refl

copy_mpegts-Copied_example :
    (cs : List Call) × ((copy_mpegts few_bytes passes session).0.session ≡ steps cs session)
    × IsSent cs (feed [] (chunks passes)).0
    × ((copy_mpegts few_bytes passes session).0.carry ≡ (feed [] (chunks passes)).1)
    × (ltb 0 few_bytes.max_bytes ≡ true → length (all_bytes passes) ≤ few_bytes.max_bytes)
copy_mpegts-Copied_example = copy_mpegts-Copied few_bytes passes session still_reads

empty-IsSeen : IsSeen (new_seen_set 1)
unfolding new_seen_set lookup
empty-IsSeen = record { agree = λ uri. refl; bounded = omega arith }

room_for_one : 0 < (new_seen_set 1).max
unfolding new_seen_set
room_for_one = omega arith

-- A set for one segment that holds one.
abbrev seen : SeenSet
seen = add (codes "a.ts") (new_seen_set 1)

seen-IsSeen : IsSeen seen
seen-IsSeen = (add-IsSeen (codes "a.ts") (new_seen_set 1) empty-IsSeen room_for_one).0

seen_max : 0 < seen.max
unfolding new_seen_set add has lookup
seen_max = omega arith

add-IsSeen_example :
    IsSeen (add (codes "b.ts") seen) × (has (codes "b.ts") (add (codes "b.ts") seen) ≡ true)
add-IsSeen_example = add-IsSeen (codes "b.ts") seen seen-IsSeen seen_max

abbrev numbers : Numbers ℕ
numbers = record {
  parse_float = length;
  parse_int = λ s. pos (length s);
  atoi = length;
  zero_float = 0;
  six = 6;
  is_positive = λ n. true;
}

abbrev live_text : Text
live_text = codes "#EXTM3U\n#EXTINF:4,\na.ts\n"

abbrev live_lines : List Text
live_lines = codes "#EXTM3U" ∷ codes "#EXTINF:4," ∷ codes "a.ts" ∷ []

abbrev live : HlsPlaylist ℕ
live = record {
  is_master = false;
  end_list = false;
  target_duration = 0;
  media_sequence = pos 0;
  segments = record { uri = codes "a.ts"; duration = 1; seq = pos 0 } ∷ [];
  variants = [];
}

live_parses : parse_hls_playlist numbers live_text live_lines ≡ ok live
unfolding parse_hls_playlist scan_lines scan_line scan_uri classify trim_space to_upper has_prefix
    index index_by
live_parses = refl

parse_hls_playlist-Supported_example : All Supported live_lines
parse_hls_playlist-Supported_example =
    parse_hls_playlist-Supported numbers live_text live_lines live live_parses

abbrev low : HlsVariant
low = record { uri = codes "low.m3u8"; bandwidth = 500 }

abbrev high : HlsVariant
high = record { uri = codes "high.m3u8"; bandwidth = 4000 }

pick_variant-max_example :
    ((i : ℕ) × (get_elem? (low ∷ high ∷ low ∷ []) i ≡ some (pick_variant low (high ∷ low ∷ []))))
    × All
        (λ v. v.bandwidth ≤ (pick_variant low (high ∷ low ∷ [])).bandwidth)
        (low ∷ high ∷ low ∷ [])
pick_variant-max_example = pick_variant-max low (high ∷ low ∷ [])
