-- ===== src/Stream/Manager/Obtained.antt =====
-- internal/core/stream/manager.go, `Subscribe`: the session that a subscriber is given.
use tvr.Base.{
  ℕ, zero, suc, ◌<◌, Bool, false, List, [], ◌∷◌, Option, none, some, length, get_elem?, ◌≡◌, refl,
  sym, inl, inr, arith, ◌==◌, subst, Bool-cases, Text, lookup, delete, text_key, nat_eq,
  lookup-insert_self, ok, some_ne_none,
}
use tvr.Upstream.Source.{Source, normalize}
use tvr.Transcode.Profile.{Profile}
use tvr.Stream.Session.{Session, Options}
use tvr.Stream.Walk.{apply_current_upstream}
use tvr.Stream.Manager.{
  Manager, new_session, retire_session, start_session, at_pointer, reuses, replaces, retires, reuse,
  differs, obtain, next_epoch,
}
use tvr.Stream.Manager.Heap.{get_elem?-last}

-- The session behind the pointer is the channel's, is not stopped, and transcodes as the source asks.
pub record Serves (id : Text) (transcode : Bool) (m : Manager) (p : ℕ) : Type 0 where
  pub session : Session
  pub there : get_elem? m.heap p ≡ some session
  pub active : lookup id m.sessions ≡ some p
  pub running : session.stopped ≡ false
  pub same_transcode : session.source.transcode ≡ transcode

get_elem?-lt : (h : List Session) (p : ℕ) {s : Session} → get_elem? h p ≡ some s → p < length h
get_elem?-lt [] p e = absurd (some_ne_none (sym e))
get_elem?-lt (x ∷ h) zero e = omega arith
get_elem?-lt (x ∷ h) (suc p) e = omega (arith, get_elem?-lt h p e)

new_session-open :
    (rand : ℕ → ℕ) (id : Text) (src : Source) (o : Options) (pr : Profile) (n : ℕ)
    → normalize src ≡ ok src
    → ((new_session rand id src o pr n).stopped ≡ false)
      × ((new_session rand id src o pr n).source.transcode ≡ src.transcode)
unfolding new_session apply_current_upstream
new_session-open rand id src o pr n e = (ground arith, ground (arith, e))

start_session-Serves :
    (rand : ℕ → ℕ) (id : Text) (src : Source) (m : Manager)
    → normalize src ≡ ok src
    → Serves id src.transcode (start_session rand id src m).0 (length m.heap)
unfolding start_session
start_session-Serves rand id src m e =
    let s : Session = new_session rand id src m.opts m.profile (next_epoch id m) in
    let (open', same) = new_session-open rand id src m.opts m.profile (next_epoch id m) e in
    record {
      session = s;
      there = get_elem?-last m.heap s;
      active = lookup-insert_self id (length m.heap) m.sessions;
      running = open';
      same_transcode = same;
    }

-- The session to stop is not the one that serves.
abbrev pub Apart : ℕ → Option ℕ → Type 0
Apart p none = Unit
Apart p (some q) = (q == p) ≡ false

-- What the session picked for a viewer is when it is picked, and the one to stop is another.
abbrev pub Obtained : Text → Source → Manager × ℕ × Option ℕ → Type 0
Obtained id src t = Serves id src.transcode t.0 t.1 × Apart t.1 t.2

obtain-reuses :
    (rand : ℕ → ℕ) (id : Text) (src : Source) (m : Manager) (p : ℕ) (s : Session)
    → lookup id m.sessions ≡ some p
    → get_elem? m.heap p ≡ some s
    → s.stopped ≡ false
    → differs s.source.transcode src.transcode ≡ false
    → Obtained id src (obtain rand id src (reuses p) m)
unfolding obtain
obtain-reuses rand id src m p s e f o d =
    (record { session = s; there = f; active = e; running = o; same_transcode = ground arith }, tt)

obtain-replaces :
    (rand : ℕ → ℕ) (id : Text) (src : Source) (m : Manager)
    → normalize src ≡ ok src
    → Obtained id src (obtain rand id src replaces m)
unfolding obtain start_session
obtain-replaces rand id src m e =
    let m' : Manager = record m { sessions = delete id m.sessions } in
    (unfold start_session in start_session-Serves rand id src m' e, tt)

obtain-retires :
    (rand : ℕ → ℕ) (id : Text) (src : Source) (m : Manager) (p : ℕ) {s : Session}
    → normalize src ≡ ok src
    → lookup id m.sessions ≡ some p
    → get_elem? m.heap p ≡ some s
    → Obtained id src (obtain rand id src retires m)
unfolding obtain start_session retire_session
obtain-retires rand id src m p e f g =
    let m' : Manager = (retire_session id m).0 in
    let less : p < length m.heap = get_elem?-lt m.heap p g in
    (
      unfold start_session in start_session-Serves rand id src m' e,
      subst (Apart (length m.heap)) (sym f) (ground arith),
    )

reuse-Obtained :
    (rand : ℕ → ℕ) (id : Text) (src : Source) (m : Manager) (o : Option (ℕ × Session))
    → normalize src ≡ ok src
    → ((p : ℕ) (s : Session)
        → o ≡ some (p, s)
        → (lookup id m.sessions ≡ some p) × (get_elem? m.heap p ≡ some s))
    → Obtained id src (obtain rand id src (reuse src o) m)
unfolding reuse
reuse-Obtained rand id src m none e h = obtain-replaces rand id src m e
reuse-Obtained rand id src m (some (p, s)) e h =
    let (f, g) = h p s refl in
    elim (Bool-cases s.stopped) [
      | inl o ↦ rw o (obtain-replaces rand id src m e)
      | inr o ↦ elim (Bool-cases (differs s.source.transcode src.transcode)) [
        | inl d ↦ rw o (rw d (obtain-retires rand id src m p e f g))
        | inr d ↦ rw o (rw d (obtain-reuses rand id src m p s f g o d))
      ]
    ]

at_pointer-back :
    (m : Manager) (o : Option ℕ) (p : ℕ) (s : Session)
    → at_pointer m o ≡ some (p, s)
    → (o ≡ some p) × (get_elem? m.heap p ≡ some s)
at_pointer-back m none p s e = absurd (some_ne_none (sym e))
at_pointer-back m (some q) p s e = (ground (arith, e), ground (arith, e))

-- The session that `Subscribe` picks for its viewer, for a source that is already normal, is the channel's in the map and on
-- the heap, is not stopped when it is looked at, transcodes just when the source asks for it, and is not the one to stop.
pub obtain-Obtained :
    (rand : ℕ → ℕ) (id : Text) (src : Source) (m : Manager)
    → normalize src ≡ ok src
    → Obtained id src (obtain rand id src (reuse src (at_pointer m (lookup id m.sessions))) m)
obtain-Obtained rand id src m e =
    reuse-Obtained rand id src m (at_pointer m (lookup id m.sessions)) e
      (at_pointer-back m (lookup id m.sessions))
