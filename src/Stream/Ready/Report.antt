-- ===== src/Stream/Ready/Report.antt =====
-- What a session reports of itself.
use tvr.Base.{ℕ, Bool, false, Option, none, some, length, ◌≡◌, arith, Text}
use tvr.Stream.Session.{Session, State, StreamError}
use tvr.Stream.Ready.{status, report, is_live}

report_not_live :
    (err : Option StreamError) (ever : Bool) (n : ℕ) (st : State) (message : Text)
    → is_live st ≡ false
    → is_live (report err ever n st message).0 ≡ false
unfolding report
report_not_live none ever n st message h = h
report_not_live (some e) ever n st message h = ground arith

-- No session reports that it is streaming or connecting while it has no viewers.
pub status_without_viewers :
    (host : Text → Text) (s : Session)
    → length s.viewers ≡ 0
    → is_live (status host s).state ≡ false
unfolding status
status_without_viewers host s h =
    report_not_live s.ready_err s.ever_ready (length s.viewers) _ s.last_error (ground arith)
