-- ===== src/Stream/Manager/Flags.antt =====
-- internal/core/stream/manager.go: which calls leave the flag of a closed manager and the blocked channels alone.
use tvr.Base.{
  ℕ, Bool, true, false, ◌||◌, List, [], ◌∷◌, Option, none, some, get_elem?, ◌≡◌, refl, ◌∙◌, inl,
  inr, arith, Bool-cases, Text, is_empty, Dict, lookup, text_key, Result, ok, err, Result-cases,
}
use tvr.Upstream.Source.{Source, normalize}
use tvr.Transcode.Profile.{Profile}
use tvr.Transcode.Profile as ProfileCode
use tvr.Stream.Session.{Session, StreamError}
use tvr.Stream.Ready.{Status, stop}
use tvr.Stream.Calls.{Call}
use tvr.Stream.Manager.{
  Manager, change, retire_session, start_session, stop_stale, stop_each, is_some, passes,
  note_revision, obtain, join, admit, reuse, at_pointer, Reuse, reuses, replaces, retires,
  subscribe, subscribe_normal, retire_where, apply_profile, close, remember_finish, remove_session,
}
use tvr.Stream.Manager.Steps.{subscribed}

abbrev pub is_err {ℓ} : {A : Type ℓ} → Result StreamError A → Bool
is_err (ok a) = false
is_err (err e) = true

-- The channel is shut out: the manager is closed, or the channel is blocked.
abbrev pub shut_out : Text → Manager → Bool
shut_out id m = m.closed || is_some (lookup id m.blocked)

pub subscribe-shut_out :
    (rand : ℕ → ℕ) (cs : List Call) (id : Text) (src : Source) (m : Manager)
    → shut_out id m ≡ true
    → is_err (subscribe rand cs id src m) ≡ true
unfolding subscribe subscribe_normal
subscribe-shut_out rand cs id src m h = elim (Bool-cases (is_empty id)) [
  | inl e ↦ rw e refl
  | inr e ↦ elim (Result-cases (normalize src)) [
    | inr (x, q) ↦ rw (e, q) refl
    | inl (src', q) ↦ rw (e, q) (ground arith)
  ]
]

-- What a step leaves alone of the two flags.
abbrev SameFlags : Manager → Manager → Type 0
SameFlags m n = (n.closed ≡ m.closed) × (n.blocked ≡ m.blocked)

stop_each-SameFlags : (ps : List ℕ) (m : Manager) → SameFlags m (stop_each ps m)
stop_each-SameFlags [] m = (refl, refl)
stop_each-SameFlags (p ∷ ps) m = stop_each-SameFlags ps (change p stop m)

pub stop_stale-SameFlags : (o : Option ℕ) (m : Manager) → SameFlags m (stop_stale o m)
stop_stale-SameFlags none m = (refl, refl)
stop_stale-SameFlags (some p) m = (refl, refl)

retire_where-SameFlags :
    (test : Session → Bool) (l : Dict Text ℕ) (m : Manager) → SameFlags m (retire_where test l m).0
unfolding retire_where retire_session
retire_where-SameFlags test [] m = (refl, refl)
retire_where-SameFlags test ((k, p) ∷ l) m =
    let rest = retire_where-SameFlags test l (retire_session k m).0 in
    elim (Bool-cases (passes test (get_elem? m.heap p))) [
      | inl e ↦ rw e rest
      | inr e ↦ rw e (retire_where-SameFlags test l m)
    ]

pub note_revision-SameFlags : (id rev : Text) (m : Manager) → SameFlags m (note_revision id rev m)
note_revision-SameFlags id rev m = (ground arith, ground arith)

obtain-SameFlags :
    (rand : ℕ → ℕ) (id : Text) (src : Source) (r : Reuse) (m : Manager)
    → SameFlags m (obtain rand id src r m).0
unfolding obtain start_session retire_session
obtain-SameFlags rand id src (reuses p) m = (refl, refl)
obtain-SameFlags rand id src replaces m = (refl, refl)
obtain-SameFlags rand id src retires m = (refl, refl)

join-SameFlags :
    (cs : List Call) (m : Manager) (p : ℕ) (stale : Option ℕ)
    → SameFlags m (join cs (m, p, stale)).0
unfolding join
join-SameFlags cs m p none = (refl, refl)
join-SameFlags cs m p (some q) = (refl, refl)

admit-SameFlags :
    (rand : ℕ → ℕ) (cs : List Call) (id : Text) (src : Source) (m : Manager)
    → SameFlags m (admit rand cs id src m).0
unfolding admit
admit-SameFlags rand cs id src m =
    let n : Manager = note_revision id src.revision m in
    let r : Reuse = reuse src (at_pointer n (lookup id n.sessions)) in
    let t : Manager × ℕ × Option ℕ = obtain rand id src r n in
    let (c1, b1) = note_revision-SameFlags id src.revision m in
    let (c2, b2) = obtain-SameFlags rand id src r n in
    let (c3, b3) = join-SameFlags cs t.0 t.1 t.2 in (c3 ∙ c2 ∙ c1, b3 ∙ b2 ∙ b1)

-- A subscription changes none of the two flags, whatever it returns.
pub subscribe-SameFlags :
    (rand : ℕ → ℕ) (cs : List Call) (id : Text) (src : Source) (m : Manager)
    → SameFlags m (subscribed m (subscribe rand cs id src m))
unfolding subscribe subscribe_normal
subscribe-SameFlags rand cs id src m = elim (Bool-cases (is_empty id)) [
  | inl e ↦ rw e (refl, refl)
  | inr e ↦ elim (Result-cases (normalize src)) [
    | inr (x, q) ↦ rw (e, q) (refl, refl)
    | inl (src', q) ↦
        let (c, b) = admit-SameFlags rand cs id src' m in rw (e, q) (ground arith, ground arith)
  ]
]

pub apply_profile-SameFlags : (pr : Profile) (m : Manager) → SameFlags m (apply_profile pr m)
unfolding apply_profile
apply_profile-SameFlags pr m =
    let n : Manager = record m { profile = ProfileCode.normalize pr } in
    let t : Manager × List ℕ = retire_where (λ s. s.source.transcode) m.sessions n in
    let (c1, b1) = retire_where-SameFlags (λ s. s.source.transcode) m.sessions n in
    let (c2, b2) = stop_each-SameFlags t.1 t.0 in (c2 ∙ c1, b2 ∙ b1)

pub remember_finish-SameFlags :
    (s : Session) (st : Status) (m : Manager) → SameFlags m (remember_finish s st m)
unfolding remember_finish
remember_finish-SameFlags s st m = (ground arith, ground arith)

pub remove_session-SameFlags :
    (p : ℕ) (s : Session) (m : Manager) → SameFlags m (remove_session p s m)
unfolding remove_session
remove_session-SameFlags p s m = (ground arith, ground arith)

pub close-closed : (m : Manager) → (close m).closed ≡ true
unfolding close
close-closed m =
    let n : Manager = record m { closed = true } in
    let t : Manager × List ℕ = retire_where (λ s. true) m.sessions n in
    (stop_each-SameFlags t.1 t.0).0 ∙ (retire_where-SameFlags (λ s. true) m.sessions n).0
