-- ===== src/Stream/Manager/Admission.antt =====
-- `Subscribe` on a closed manager and on a blocked channel.
use tvr.Base.{
  ℕ, Bool, true, false, ◌||◌, List, [], ◌∷◌, get_elem?, ◌≡◌, refl, sym, ap, ◌∙◌, inl, inr, arith,
  if◌then◌else◌, Bool-cases, Option-cases, Text, text_eq, is_empty, Dict, lookup,
  lookup-insert_self, lookup-insert, lookup-delete, insert, delete, text_key, All, ok,
}
use tvr.Upstream.Source.{Source}
use tvr.Stream.Calls.{Call}
use tvr.Stream.Manager.{
  Manager, retire_session, is_some, note_revision, subscribe, publish_channel, block_channel,
  apply_profile, close, remember_finish, remove_session,
}
use tvr.Stream.Manager.Keeps.{Inv}
use tvr.Stream.Manager.Closing.{close-rest, close-Inv}
use tvr.Stream.Manager.Safety.{msteps-Inv}
use tvr.Stream.Manager.Steps.{
  Op, subscribes, publishes, blocks, applies, closes, acts, reports, removes, subscribed, changed,
  mstep, msteps,
}
use tvr.Stream.Manager.Flags.{
  is_err, shut_out, subscribe-shut_out, stop_stale-SameFlags, note_revision-SameFlags,
  subscribe-SameFlags, apply_profile-SameFlags, remember_finish-SameFlags, remove_session-SameFlags,
  close-closed,
}

-- The steps that can let viewers in again.
abbrev pub reopens : Text → Op → Bool
reopens id (publishes j revision invalidate) = text_eq j id
reopens id o = false

-- The two flags after `m` changed to `n` and the blocked channels to `d`.
abbrev Flags : Manager → Manager → Dict Text (Unit {0}) → Type 0
Flags m n d = (n.closed ≡ m.closed) × (n.blocked ≡ d)

block_channel-Flags :
    (j : Text) (m : Manager)
    → Flags m
        (changed m (block_channel j m))
        (if is_empty j then m.blocked else insert j tt m.blocked)
unfolding block_channel retire_session
block_channel-Flags j m = elim (Bool-cases (is_empty j)) [
  | inl e ↦ rw e (refl, refl)
  | inr e ↦ rw e (stop_stale-SameFlags (lookup j m.sessions) _)
]

publish_channel-Flags :
    (j rev : Text) (i : Bool) (m : Manager)
    → Flags m
        (changed m (publish_channel j rev i m))
        (if is_empty j then m.blocked else delete j m.blocked)
unfolding publish_channel
publish_channel-Flags j rev i m =
    let n : Manager = note_revision j rev (record m { blocked = delete j m.blocked }) in
    let (c1, b1) = note_revision-SameFlags j rev (record m { blocked = delete j m.blocked }) in
    let (c2, b2) = stop_stale-SameFlags (retire_session j n).1 (retire_session j n).0 in
    elim (Bool-cases (is_empty j)) [
      | inl e ↦ rw e (refl, refl)
      | inr e ↦ elim (Bool-cases i) [
        | inl t ↦ rw (e, t) (c2 ∙ unfold retire_session in c1, b2 ∙ unfold retire_session in b1)
        | inr t ↦ rw (e, t) (c1, b1)
      ]
    ]

-- A channel that stays blocked when the blocked channels change to `d`.
shut_out-Flags :
    (id : Text) (m n : Manager) (d : Dict Text (Unit {0}))
    → Flags m n d
    → (is_some (lookup id m.blocked) ≡ true → is_some (lookup id d) ≡ true)
    → shut_out id m ≡ true
    → shut_out id n ≡ true
shut_out-Flags id m n d (c, b) f h =
    ap (λ x. x || is_some (lookup id n.blocked)) c
    ∙ ap (λ x. m.closed || is_some (lookup id x)) b
    ∙ ground (arith, f)

mstep-shut_out :
    (id : Text) (o : Op) (m : Manager)
    → reopens id o ≡ false
    → shut_out id m ≡ true
    → shut_out id (mstep o m) ≡ true
unfolding mstep
mstep-shut_out id (subscribes rand cs j src) m r h =
    shut_out-Flags id m (subscribed m (subscribe rand cs j src m)) m.blocked
      (subscribe-SameFlags rand cs j src m) (λ x. x) h
mstep-shut_out id (publishes j rev i) m r h =
    shut_out-Flags id m (changed m (publish_channel j rev i m)) _ (publish_channel-Flags j rev i m)
      (λ x. ground (arith, lookup-delete j id m.blocked)) h
mstep-shut_out id (blocks j) m r h =
    shut_out-Flags id m (changed m (block_channel j m)) _ (block_channel-Flags j m)
      (λ x. ground (arith, lookup-insert j id tt m.blocked)) h
mstep-shut_out id (applies pr) m r h =
    shut_out-Flags id m (apply_profile pr m) m.blocked (apply_profile-SameFlags pr m) (λ x. x) h
mstep-shut_out id closes m r h = ground (arith, close-closed m)
mstep-shut_out id (acts p call) m r h = h
mstep-shut_out id (reports p st) m r h = elim (Option-cases (get_elem? m.heap p)) [
  | inl e ↦ simp e h
  | inr (s, e) ↦ simp e (
      shut_out-Flags id m (remember_finish s st m) m.blocked (remember_finish-SameFlags s st m)
        (λ x. x) h)
]
mstep-shut_out id (removes p) m r h = elim (Option-cases (get_elem? m.heap p)) [
  | inl e ↦ simp e h
  | inr (s, e) ↦ simp e (
      shut_out-Flags id m (remove_session p s m) m.blocked (remove_session-SameFlags p s m) (λ x. x)
        h)
]

msteps-shut_out :
    (id : Text) (os : List Op) (m : Manager)
    → All (λ o. reopens id o ≡ false) os
    → shut_out id m ≡ true
    → shut_out id (msteps os m) ≡ true
unfolding msteps
msteps-shut_out id [] m r h = h
msteps-shut_out id (o ∷ os) m r h =
    msteps-shut_out id os (mstep o m) r.1 (mstep-shut_out id o m r.0 h)

block_channel-ok :
    (id : Text) (m : Manager) {n : Manager} → block_channel id m ≡ ok n → is_empty id ≡ false
unfolding block_channel
block_channel-ok id m e = ground arith

block_channel-shut_out :
    (id : Text) (m n : Manager) → block_channel id m ≡ ok n → shut_out id n ≡ true
block_channel-shut_out id m n e =
    let full = block_channel-ok id m e in
    let (c, b) = block_channel-Flags id m in
    let here : (changed m (block_channel id m)).blocked ≡ insert id tt m.blocked =
      b ∙ ap (λ x. if x then m.blocked else insert id tt m.blocked) full in
    let there : n.blocked ≡ insert id tt m.blocked =
      ap (λ x. (changed m x).blocked) (sym e) ∙ here in
    ap (λ x. n.closed || is_some (lookup id x)) there
    ∙ ground (arith, lookup-insert_self id tt m.blocked)

-- A channel that is blocked takes no viewer, whatever happens, until it is published again.
pub blocked_until_published :
    (rand : ℕ → ℕ) (cs : List Call) (id : Text) (src : Source) (os : List Op) (m n : Manager)
    → block_channel id m ≡ ok n
    → All (λ o. reopens id o ≡ false) os
    → is_err (subscribe rand cs id src (msteps os n)) ≡ true
blocked_until_published rand cs id src os m n e r =
    subscribe-shut_out rand cs id src _
      (msteps-shut_out id os n r (block_channel-shut_out id m n e))

mstep-closed : (o : Op) (m : Manager) → m.closed ≡ true → (mstep o m).closed ≡ true
unfolding mstep
mstep-closed (subscribes rand cs j src) m h = (subscribe-SameFlags rand cs j src m).0 ∙ h
mstep-closed (publishes j rev i) m h = (publish_channel-Flags j rev i m).0 ∙ h
mstep-closed (blocks j) m h = (block_channel-Flags j m).0 ∙ h
mstep-closed (applies pr) m h = (apply_profile-SameFlags pr m).0 ∙ h
mstep-closed closes m h = close-closed m
mstep-closed (acts p call) m h = h
mstep-closed (reports p st) m h = elim (Option-cases (get_elem? m.heap p)) [
  | inl e ↦ simp e h
  | inr (s, e) ↦ simp e ((remember_finish-SameFlags s st m).0 ∙ h)
]
mstep-closed (removes p) m h = elim (Option-cases (get_elem? m.heap p)) [
  | inl e ↦ simp e h
  | inr (s, e) ↦ simp e ((remove_session-SameFlags p s m).0 ∙ h)
]

-- A closed manager that keeps the invariant has no session.
no_sessions : (m : Manager) → m.closed ≡ true → Inv m → m.sessions ≡ []
no_sessions m c v = elim v.shut [ inl o ↦ absurd (ground arith) | inr e ↦ e ]

msteps-closed : (os : List Op) (m : Manager) → m.closed ≡ true → (msteps os m).closed ≡ true
unfolding msteps
msteps-closed [] m h = h
msteps-closed (o ∷ os) m h = msteps-closed os (mstep o m) (mstep-closed o m h)

-- After `Close` of a manager that keeps the invariant, whatever happens: no channel takes a viewer, and the map has no
-- session.
pub closed_for_good :
    (rand : ℕ → ℕ) (cs : List Call) (id : Text) (src : Source) (os : List Op) (m : Manager)
    → Inv m
    → (is_err (subscribe rand cs id src (msteps os (close m))) ≡ true)
      × ((msteps os (close m)).sessions ≡ [])
closed_for_good rand cs id src os m v =
    let n : Manager = msteps os (close m) in
    let c : n.closed ≡ true = msteps-closed os (close m) (close-rest m v).1 in
    (
      subscribe-shut_out rand cs id src n (ground arith),
      no_sessions n c (msteps-Inv os (close m) (close-Inv m v)),
    )
