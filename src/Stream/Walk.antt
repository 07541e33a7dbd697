-- ===== src/Stream/Walk.antt =====
-- internal/core/stream/session.go and pump.go: which upstream and which of its URLs the next attempt takes. An index is a natural number; the
-- source's test for a negative one has no case here.
pub mod Order
use tvr.Base.{
  ℕ, zero, suc, ◌+◌, ◌-◌, ◌*◌, ◌%◌, Bool, true, false, not, ◌&&◌, ◌||◌, List, [], ◌∷◌, ◌++◌, Option,
  none, some, length, get_elem?, get_or, ltb, leb, ◌==◌, if◌then◌else◌, Text,
}
use Prim.Native.Nat.{max}
use tvr.Upstream.Source.{Upstream, Source, fetch_urls, is_fallback}
use tvr.Stream.Session.{
  Session, State, error, cancel, StreamError, failed_by, is_ended, error_text, ready_timeout,
}
use tvr.Stream.Ready.{fail_ready, arm_ready_watch, stop_ready_watch}
use tvr.Stream.Viewers.{set_state}

-- `idx` after the range test.
abbrev pub in_range : ℕ → ℕ → ℕ
in_range idx n = if ltb idx n then idx else 0

-- The fetch URLs of an upstream of the source, at an index in range.
abbrev pub urls_at : List Upstream → ℕ → List Text
urls_at [] i = []
urls_at (up ∷ ups) zero = fetch_urls up
urls_at (up ∷ ups) (suc i) = urls_at ups i

abbrev pub use_upstream : Session → ℕ → Upstream → Session
use_upstream s idx up =
    let cands = fetch_urls up in
    let c = in_range s.candidate_index (length cands) in
    record s {
      current_index = idx;
      candidate_index = c;
      upstream = record up {
        url = get_or cands c up.url;
        transcode = s.source.transcode;
        revision = s.source.revision;
      };
      pat = [];
      pmts = [];
      seen_rai = false;
    }

unfoldable pub apply_current_upstream : Session → Session
apply_current_upstream s =
    let idx = in_range s.current_index (length s.source.upstreams) in
    elim (get_elem? s.source.upstreams idx) [ none ↦ s | some up ↦ use_upstream s idx up ]

unfoldable pub advance : Session → Session
advance s =
    let n = length s.source.upstreams in
    let idx = in_range s.current_index n in
    if n == 0
    then s
    else if ltb (s.candidate_index + 1) (length (urls_at s.source.upstreams idx))
    then record s { candidate_index = s.candidate_index + 1 }
    else record s {
      candidate_index = 0;
      current_index = if is_fallback s.source then (idx + 1) % n else s.current_index;
    }

unfoldable pub should_walk : Session → Bool
should_walk s =
    let n = length s.source.upstreams in
    if is_fallback s.source
    then true
    else if n == 0
    then false
    else ltb 1 (length (urls_at s.source.upstreams (in_range s.current_index n)))

abbrev pub total_urls : List Upstream → ℕ
total_urls [] = 0
total_urls (up ∷ ups) = max 1 (length (fetch_urls up)) + total_urls ups

unfoldable pub attempt_budget : Session → ℕ
attempt_budget s =
    let n = length s.source.upstreams in
    if is_fallback s.source
    then total_urls s.source.upstreams
    else if n == 0
    then 1
    else max 1 (length (urls_at s.source.upstreams (in_range s.current_index n)))

-- Seconds, in nanoseconds.
abbrev pub second : ℕ
second = 1_000_000_000

-- The walk before the session was ready: the session fails for good when the budget is spent.
unfoldable pub fail_or_advance : StreamError → Session → Bool × Session
fail_or_advance err s =
    let s' = record s { attempts_before_ready = s.attempts_before_ready + 1 } in
    if leb (attempt_budget s') s'.attempts_before_ready
    then (true, fail_ready (some (failed_by err)) s')
    else (false, advance s')

-- `handlePumpError`, with the session and the backoff behind it. The flag says that `stopCh` won the wait.
unfoldable pub handle_pump_error : StreamError → Bool → Session × ℕ → Bool × Session × ℕ
unfolding fail_or_advance
handle_pump_error err stop_first (s, backoff) =
    let walk = should_walk s in
    if not s.ever_ready
    then (if walk
        then (let (stop, s') = fail_or_advance err s in (stop, s', backoff))
        else (true, fail_ready (some (failed_by err)) s, backoff))
    else if is_ended err && not walk
    then (true, s, backoff)
    else let s' = set_state error (error_text err) (if walk then advance s else s) in
      if stop_first
      then (true, s', backoff)
      else (false, s', if ltb backoff (15 * second) then backoff * 2 else backoff)

-- `beginPump`: a fresh context; one that is still there is cancelled first.
unfoldable pub begin_pump : Session → Session × ℕ
begin_pump s =
    let s' = cancel s.pump_cancel s in
    (record s' { pump_cancel = some s.next_ctx; next_ctx = s.next_ctx + 1 }, s.next_ctx)

-- `pumpOnce` up to the pump itself.
unfoldable pub pump_start : Session → Session × ℕ
unfolding begin_pump
pump_start s =
    let (s', ctx) = begin_pump (apply_current_upstream s) in (arm_ready_watch ctx s', ctx)

unfoldable pub classify_pump_err : Option StreamError → Session → Option StreamError
classify_pump_err err s =
    if s.stopped || length s.viewers == 0
    then none
    else if s.attempt_timed_out && not s.ever_ready
    then some ready_timeout
    else err

-- `pumpOnce` behind the pump: what the pump returned is classified, then the deferred calls run.
unfoldable pub pump_end : ℕ → Option StreamError → Session → Session × Option StreamError
unfolding classify_pump_err
pump_end ctx err s = (cancel (some ctx) (stop_ready_watch s), classify_pump_err err s)
