-- ===== src/Stream/Copy.antt =====
-- internal/core/stream/copy.go, `copyMPEGTS`: media from a body to the viewers. What each pass of the loop meets is an
-- argument: whether the session stopped or the context is done before it, the bytes and the error that the
-- body returns, and the time. A list that ends before the copy does leaves it in a read.
pub mod Steps
use tvr.Base.{
  ℕ, zero, suc, ◌+◌, ◌*◌, ◌/◌, ◌%◌, Bool, true, false, not, ◌&&◌, ◌||◌, List, [], ◌∷◌, ◌++◌, Option,
  none, some, length, ltb, ◌==◌, if◌then◌else◌, Text, codes, Result, ok, err,
}
use tvr.Mpegts.Frame.{extract_framed}
use tvr.Stream.Session.{Session, streaming, StreamError, message}
use tvr.Stream.Viewers.{viewer_count, broadcast_framed, set_state}
use tvr.Stream.Ready.{mark_ready}

abbrev pub max_probe_bytes : ℕ
max_probe_bytes = 256 * 1024

pub record CopyOptions : Type 0 where
  pub max_bytes : ℕ
  pub segment : Bool

pub data ReadError : Type 0 where
  eof canceled_read : ReadError
  failed : Text → ReadError

pub record Pass : Type 0 where
  pub quits : Bool
  pub bytes : List ℕ
  pub read_err : Option ReadError
  pub now : ℕ

-- The local variables of the loop with the session.
pub record Copying : Type 0 where
  pub session : Session
  pub carry : List ℕ
  pub probed : ℕ
  pub total : ℕ
  pub got_media : Bool

pub data Ending : Type 0 where
  reads_on : Ending
  returns : Option StreamError → Ending

unfoldable pub over_limit : CopyOptions → Pass → Copying → Bool
over_limit opts r c = ltb 0 opts.max_bytes && ltb opts.max_bytes (c.total + length r.bytes)

abbrev pub is_nonempty : List ℕ → Bool
is_nonempty [] = false
is_nonempty (_ ∷ _) = true

-- `%d`; twenty digits are enough for an int64.
unfoldable pub decimal : ℕ → ℕ → Text
decimal zero n = []
decimal (suc fuel) n =
    let rest = decimal fuel (n / 10) in
    if ltb n 10 then (b'0' + n) ∷ [] else rest ++ (b'0' + n % 10) ∷ []

-- The framed media go to the viewers.
unfoldable pub send_media : ℕ → List ℕ → Session → Session
send_media now framed s = mark_ready now (set_state streaming [] (broadcast_framed framed s))

-- The part of a pass under `if n > 0`.
unfoldable pub take_bytes : CopyOptions → Pass → Copying → Result StreamError Copying
take_bytes opts r c =
    let split = extract_framed (c.carry ++ r.bytes) in
    let total = if ltb 0 opts.max_bytes then c.total + length r.bytes else c.total in
    let probed = c.probed + length r.bytes in
    if not (is_nonempty r.bytes)
    then ok c
    else if over_limit opts r c
    then err (message (codes "segment exceeds " ++ decimal 20 opts.max_bytes ++ codes " bytes"))
    else if is_nonempty split.0
    then ok (record c {
      session = send_media r.now split.0 c.session;
      carry = split.1;
      total = total;
      got_media = true;
    })
    else if not opts.segment && not c.session.ever_ready
    then (if ltb max_probe_bytes probed
        then err (message (codes "no mpeg-ts sync in probe window"))
        else ok (record c { carry = split.1; total = total; probed = probed }))
    else ok (record c { carry = split.1; total = total })

-- What an error of the body makes the copy return.
unfoldable pub end_of_body : CopyOptions → ReadError → Copying → Option StreamError
end_of_body opts canceled_read c = none
end_of_body opts eof c =
    if c.session.stopped
    then none
    else if opts.segment
    then (if c.got_media then none else some (message (codes "segment is not mpeg-ts")))
    else if not c.session.ever_ready
    then some (message (codes "upstream closed before mpeg-ts ready"))
    else some (message (codes "upstream closed"))
end_of_body opts (failed t) c = if c.session.stopped then none else some (message t)

unfoldable pub copy_loop : CopyOptions → List Pass → Copying → Copying × Ending
copy_loop opts [] c = (c, reads_on)
copy_loop opts (r ∷ rs) c =
    if r.quits || viewer_count c.session == 0
    then (c, returns none)
    else elim (take_bytes opts r c) [
      | err e ↦ (c, returns (some e))
      | ok c' ↦ elim r.read_err [
        | some e ↦ (c', returns (end_of_body opts e c'))
        | none ↦ copy_loop opts rs c'
      ]
    ]

unfoldable pub copy_mpegts : CopyOptions → List Pass → Session → Copying × Ending
copy_mpegts opts rs s =
    copy_loop opts rs (record { session = s; carry = []; probed = 0; total = 0; got_media = false })
