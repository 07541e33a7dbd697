-- ===== src/Stream/Tests.antt =====
-- internal/core/stream on a channel with two upstreams, the first of them behind two proxies.
use tvr.Base.{
  ℕ, ◌+◌, ◌<◌, true, false, List, [], ◌∷◌, ◌++◌, none, some, length, get_elem?, take, replicate,
  map, ◌≡◌, ◌≢◌, refl, arith, Text, codes, trim_space, text_eq, to_lower, lookup, insert, delete,
  nat_eq,
}
use tvr.Base.Int.{pos}
use tvr.Mpegts.Header.{has_random_access}
use tvr.Upstream.Policy.{parse_policy, parse_pick_policy, pick_index}
use tvr.Upstream.Source.{Upstream, Source, clean, normalize, is_fallback, fetch_urls, start_index}
use tvr.Transcode.Profile.{default_profile}
use tvr.Stream.Session.{Session, Viewer, Options, StreamError, ready_timeout, upstream_failed}
use tvr.Stream.Packets.{startup_packets, keyframe_suffix, keyframe_loop}
use tvr.Stream.Packets.Keyframe.{
  FirstFlag, IsWhole, flag_at, keyframe_suffix-some, keyframe_suffix-none,
}
use tvr.Stream.Viewers.{add_viewer, settle, broadcast}
use tvr.Stream.Viewers.Invariant.{Inv}
use tvr.Stream.Viewers.Sending.{KeysDistinct, Outcome, broadcast-Outcome}
use tvr.Stream.Ready.{wait_ready, fail_ready, stop}
use tvr.Stream.Ready.Once.{ReadyState, undecided}
use tvr.Stream.Walk.{apply_current_upstream, urls_at, attempt_budget}
use tvr.Stream.Run.{stop_signal, rounds}
use tvr.Stream.Run.Attempt
use tvr.Stream.Run.Failover.{Starts, FailedBy, failover_tries_every_url, failover_gives_up}
use tvr.Stream.Run.Failures.{Failure, as_round}
use tvr.Stream.Calls.{Call, subscribe, leave, media, ready, stops, steps}
use tvr.Stream.Calls.Safety.{steps-Inv}
use tvr.Stream.Calls.Readiness.{wait_ready-steps, wait_ready-stop, steps-ReadyState}
use tvr.Stream.Manager.{new_session}

abbrev upstream_of : Text → List Text → Upstream
upstream_of url candidates = record {
  id = codes "u";
  url = url;
  headers = [];
  candidates = candidates;
  transcode = false;
  revision = [];
}

abbrev source : Source
source = record {
  policy = codes "failover";
  upstreams =
      upstream_of (codes "http://a/1") (codes "http://p/1" ∷ codes "http://q/1" ∷ [])
      ∷ upstream_of (codes "http://b/1") []
      ∷ [];
  fixed_index = pos 0;
  transcode = false;
  revision = codes "r1";
}

abbrev options : Options
options = record { buffer_size = 8; idle_timeout = pos 30; conn_timeout = pos 10 }

abbrev first_of : ℕ → ℕ
first_of n = 0

abbrev host_of : Text → Text
host_of url = url

-- A new session, and the same with two viewers.
abbrev fresh : Session
fresh = new_session first_of (codes "c1") source options default_profile 1

abbrev watched : Session
watched = (add_viewer 8 (add_viewer 2 fresh).0).0

watched-Starts : Starts watched
unfolding new_session add_viewer settle normalize clean apply_current_upstream parse_policy
    parse_pick_policy start_index pick_index is_fallback fetch_urls default_profile text_eq
    trim_space to_lower insert delete
watched-Starts = record {
  waiting = (omega arith, refl, refl, refl, refl);
  fresh = refl;
  first_url = refl;
  in_range = omega arith;
}

abbrev failure : StreamError → Failure
failure e = record {
  wait = stop_signal;
  meanwhile = λ s. s;
  stop_first = false;
  ending = Attempt.fails e;
}

abbrev time_out : Failure
time_out = record {
  wait = stop_signal;
  meanwhile = λ s. s;
  stop_first = false;
  ending = Attempt.times_out none;
}

abbrev two_failures : List Failure
two_failures = failure upstream_failed ∷ time_out ∷ []

budget : length two_failures + 1 ≡ attempt_budget watched
unfolding attempt_budget new_session add_viewer settle normalize clean apply_current_upstream
    parse_policy parse_pick_policy start_index pick_index is_fallback fetch_urls default_profile
    text_eq trim_space to_lower insert delete
budget = refl

second_in_range : 1 < length watched.source.upstreams
unfolding new_session add_viewer settle normalize clean apply_current_upstream parse_policy
    parse_pick_policy start_index pick_index is_fallback fetch_urls default_profile text_eq
    trim_space to_lower insert delete
second_in_range = omega arith

first_url_in_range : 0 < length (urls_at watched.source.upstreams 1)
unfolding new_session add_viewer settle normalize clean apply_current_upstream parse_policy
    parse_pick_policy start_index pick_index is_fallback fetch_urls default_profile text_eq
    trim_space to_lower insert delete
first_url_in_range = omega arith

failover_tries_every_url_example :
    (k : ℕ) × (t : Session) × (rounds (map as_round (take k two_failures)) (watched, 5)
      ≡ (false, t, 5))
    × (get_elem? (urls_at watched.source.upstreams 1) 0
        ≡ some (apply_current_upstream t).upstream.url)
failover_tries_every_url_example =
    failover_tries_every_url watched two_failures 5 1 0 watched-Starts budget second_in_range
      first_url_in_range

failover_gives_up_example :
    (t : Session) × (rounds (map as_round (two_failures ++ time_out ∷ [])) (watched, 5)
      ≡ (true, t, 5))
    × FailedBy ready_timeout t
failover_gives_up_example = failover_gives_up watched two_failures time_out 5 watched-Starts budget

watched-ReadyState : ReadyState watched
unfolding new_session add_viewer settle normalize clean apply_current_upstream parse_policy
    parse_pick_policy start_index pick_index is_fallback fetch_urls default_profile text_eq
    trim_space to_lower insert delete
watched-ReadyState = undecided refl refl refl refl

fresh-Inv : Inv fresh
unfolding new_session add_viewer settle normalize clean apply_current_upstream parse_policy
    parse_pick_policy start_index pick_index is_fallback fetch_urls default_profile text_eq
    trim_space to_lower insert delete
fresh-Inv = record { live = tt; left = tt; distinct = tt }

abbrev calls : List Call
calls = subscribe 2 ∷ media (replicate 188 71) ∷ subscribe 1 ∷ leave 1 ∷ ready 7 ∷ stops ∷ []

steps-Inv_example : Inv (steps calls fresh)
steps-Inv_example = steps-Inv calls fresh fresh-Inv

steps-ReadyState_example : ReadyState (steps calls watched)
steps-ReadyState_example = steps-ReadyState calls watched watched-ReadyState

abbrev failed : Session
failed = fail_ready (some ready_timeout) watched

failed_ready : wait_ready failed ≡ some (some ready_timeout)
unfolding wait_ready fail_ready new_session add_viewer settle normalize clean apply_current_upstream
    parse_policy parse_pick_policy start_index pick_index is_fallback fetch_urls default_profile
    text_eq trim_space to_lower insert delete
failed_ready = refl

wait_ready-steps_example : wait_ready (steps calls failed) ≡ some (some ready_timeout)
wait_ready-steps_example = wait_ready-steps calls failed (some ready_timeout) failed_ready

wait_ready-stop_example : wait_ready (steps calls (stop (steps calls watched))) ≢ none
unfolding new_session add_viewer settle normalize clean apply_current_upstream parse_policy
    parse_pick_policy start_index pick_index is_fallback fetch_urls default_profile text_eq
    trim_space to_lower insert delete
wait_ready-stop_example = wait_ready-stop calls calls watched refl refl refl refl

-- A packet without the random-access flag, and one with it.
abbrev plain : List ℕ
plain = 71 ∷ 65 ∷ 0 ∷ 16 ∷ replicate 184 1

abbrev flagged : List ℕ
flagged = 71 ∷ 65 ∷ 0 ∷ 48 ∷ 7 ∷ 64 ∷ replicate 182 2

keyframe_found : keyframe_suffix (plain ++ flagged) ≡ some flagged
unfolding keyframe_suffix keyframe_loop has_random_access
keyframe_found = refl

keyframe_suffix-some_example : FirstFlag (plain ++ flagged) flagged
keyframe_suffix-some_example = keyframe_suffix-some (plain ++ flagged) keyframe_found

no_keyframe : keyframe_suffix (plain ++ plain) ≡ none
unfolding keyframe_suffix keyframe_loop has_random_access
no_keyframe = refl

second-IsWhole : IsWhole 1 (plain ++ plain)
second-IsWhole = omega arith

keyframe_suffix-none_example : flag_at 1 (plain ++ plain) ≡ false
keyframe_suffix-none_example = keyframe_suffix-none (plain ++ plain) 1 no_keyframe second-IsWhole

abbrev first_viewer : Viewer
first_viewer = record { id = 1; queue = []; cap = 2; closed = false; wait_keyframe = false }

watched-KeysDistinct : KeysDistinct watched.viewers
unfolding lookup new_session add_viewer settle normalize clean apply_current_upstream parse_policy
    parse_pick_policy start_index pick_index is_fallback fetch_urls default_profile text_eq
    trim_space to_lower insert delete
watched-KeysDistinct = (refl, (refl, tt))

first_watches : lookup 1 watched.viewers ≡ some first_viewer
unfolding lookup startup_packets new_session add_viewer settle normalize clean
    apply_current_upstream parse_policy parse_pick_policy start_index pick_index is_fallback
    fetch_urls default_profile text_eq trim_space to_lower insert delete
first_watches = refl

broadcast-Outcome_example :
    Outcome
      (startup_packets watched)
      flagged
      first_viewer
      (lookup 1 (broadcast flagged watched).viewers)
broadcast-Outcome_example =
    broadcast-Outcome flagged watched 1 first_viewer watched-KeysDistinct first_watches
