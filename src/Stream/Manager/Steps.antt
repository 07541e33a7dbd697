-- ===== src/Stream/Manager/Steps.antt =====
-- What reaches the manager, each as one step: the calls of its clients, the goroutines of its sessions, and the end of a
-- session, which reports its last status and takes itself out of the map.
use tvr.Base.{ℕ, Bool, List, [], ◌∷◌, Option, none, some, get_elem?, Text, Result, ok, err}
use tvr.Upstream.Source.{Source}
use tvr.Transcode.Profile.{Profile}
use tvr.Stream.Session.{Session, StreamError}
use tvr.Stream.Ready.{Status}
use tvr.Stream.Calls.{Call, step}
use tvr.Stream.Manager.{
  Manager, change, subscribe, publish_channel, block_channel, apply_profile, close, remember_finish,
  remove_session,
}

pub data Op : Type 0 where
  subscribes : (ℕ → ℕ) → List Call → Text → Source → Op
  publishes : Text → Text → Bool → Op
  blocks : Text → Op
  applies : Profile → Op
  closes : Op
  acts : ℕ → Call → Op
  reports : ℕ → Status → Op
  removes : ℕ → Op

-- The manager after a subscription or a change, which an error leaves as it was.
abbrev pub subscribed : Manager → Result StreamError (Manager × ℕ × ℕ) → Manager
subscribed m (ok (n, p, id)) = n
subscribed m (err e) = m

abbrev pub changed : Manager → Result StreamError Manager → Manager
changed m (ok n) = n
changed m (err e) = m

abbrev pub reported : Option Session → Status → Manager → Manager
reported none st m = m
reported (some s) st m = remember_finish s st m

abbrev pub removed : ℕ → Option Session → Manager → Manager
removed p none m = m
removed p (some s) m = remove_session p s m

unfoldable pub mstep : Op → Manager → Manager
mstep (subscribes rand cs id src) m = subscribed m (subscribe rand cs id src m)
mstep (publishes id revision invalidate) m = changed m (publish_channel id revision invalidate m)
mstep (blocks id) m = changed m (block_channel id m)
mstep (applies profile) m = apply_profile profile m
mstep closes m = close m
mstep (acts p call) m = change p (step call) m
mstep (reports p st) m = reported (get_elem? m.heap p) st m
mstep (removes p) m = removed p (get_elem? m.heap p) m

unfoldable pub msteps : List Op → Manager → Manager
msteps [] m = m
msteps (o ∷ os) m = msteps os (mstep o m)
