-- ===== src/Stream/Manager/Entering.antt =====
-- internal/core/stream/manager.go: `Subscribe`, `PublishChannel` and `ApplyProfile` keep the sessions of a manager in order.
use tvr.Base.{
  ℕ, Bool, false, List, Option, ◌≡◌, refl, ap, ◌∙◌, inl, inr, arith, Bool-cases, Text, is_empty,
  lookup, delete, text_key, lookup-delete, Result-cases,
}
use tvr.Upstream.Source.{Source, normalize}
use tvr.Transcode.Profile.{Profile}
use tvr.Transcode.Profile as ProfileCode
use tvr.Stream.Calls.{Call}
use tvr.Stream.Manager.{
  Manager, retire_session, is_some, is_stale, at_pointer, note_revision, obtain, admit, reuse,
  Reuse, reuses, replaces, retires, subscribe, subscribe_normal, publish_channel, retire_where,
  apply_profile,
}
use tvr.Stream.Manager.Keeps.{
  Active, Inv, All-map, retire_session-Inv, start_session-Inv, drop_session-Inv, same_core-Inv,
  stop_stale-Inv, stop_each-Inv, retire_where-Inv, note_revision-Inv, join-Inv,
}
use tvr.Stream.Manager.Steps.{subscribed, changed}

obtain-Inv :
    (rand : ℕ → ℕ) (id : Text) (src : Source) (r : Reuse) (m : Manager)
    → m.closed ≡ false
    → is_some (lookup id m.blocked) ≡ false
    → Inv m
    → Inv (obtain rand id src r m).0
unfolding obtain
obtain-Inv rand id src (reuses p) m c b v = v
obtain-Inv rand id src replaces m c b v =
    start_session-Inv rand id src _ c b (drop_session-Inv id m v)
obtain-Inv rand id src retires m c b v =
    start_session-Inv rand id src _ (unfold retire_session in c) (unfold retire_session in b)
      (retire_session-Inv id m v)

note_revision-closed : (id rev : Text) (m : Manager) → (note_revision id rev m).closed ≡ m.closed
note_revision-closed id rev m = ground arith

note_revision-blocked : (id rev : Text) (m : Manager) → (note_revision id rev m).blocked ≡ m.blocked
note_revision-blocked id rev m = ground arith

admit-Inv :
    (rand : ℕ → ℕ) (cs : List Call) (id : Text) (src : Source) (m : Manager)
    → m.closed ≡ false
    → is_some (lookup id m.blocked) ≡ false
    → Inv m
    → Inv (admit rand cs id src m).0
unfolding admit
admit-Inv rand cs id src m c b v =
    let n : Manager = note_revision id src.revision m in
    let r : Reuse = reuse src (at_pointer n (lookup id n.sessions)) in
    let t : Manager × ℕ × Option ℕ = obtain rand id src r n in
    join-Inv cs t.0 t.1 t.2 (
      obtain-Inv rand id src r n (note_revision-closed id src.revision m ∙ c)
        (ap (λ d. is_some (lookup id d)) (note_revision-blocked id src.revision m) ∙ b)
        (note_revision-Inv id src.revision m v))

subscribe_normal-Inv :
    (rand : ℕ → ℕ) (cs : List Call) (id : Text) (src : Source) (m : Manager)
    → Inv m
    → Inv (subscribed m (subscribe_normal rand cs id src m))
unfolding subscribe_normal
subscribe_normal-Inv rand cs id src m v = elim (Bool-cases m.closed) [
  | inl c ↦ simp c v
  | inr c ↦ elim (Bool-cases (is_some (lookup id m.blocked))) [
    | inl b ↦ simp (c, b) v
    | inr b ↦ elim (Bool-cases (is_stale (lookup id m.revisions) src.revision)) [
      | inl r ↦ simp (c, b, r) v
      | inr r ↦ simp (c, b, r) (admit-Inv rand cs id src m c b v)
    ]
  ]
]

pub subscribe-Inv :
    (rand : ℕ → ℕ) (cs : List Call) (id : Text) (src : Source) (m : Manager)
    → Inv m
    → Inv (subscribed m (subscribe rand cs id src m))
unfolding subscribe
subscribe-Inv rand cs id src m v = elim (Bool-cases (is_empty id)) [
  | inl e ↦ rw e v
  | inr e ↦ elim (Result-cases (normalize src)) [
    | inl (src', q) ↦ rw (e, q) (subscribe_normal-Inv rand cs id src' m v)
    | inr (x, q) ↦ rw (e, q) v
  ]
]

-- Unblocking and blocking touch one channel.
unblock-Inv : (id : Text) (m : Manager) → Inv m → Inv (record m { blocked = delete id m.blocked })
unblock-Inv id m v = record {
  active =
      All-map (Active m) (Active (record m { blocked = delete id m.blocked })) m.sessions
        (λ x a. record {
          session = a.session;
          there = a.there;
          of_channel = a.of_channel;
          latest = a.latest;
          no_sticky = a.no_sticky;
          not_blocked = ground (arith, lookup-delete id x.0 m.blocked, a.not_blocked);
        })
        v.active;
  past = v.past;
  shut = v.shut;
}

pub publish_channel-Inv :
    (id rev : Text) (invalidate : Bool) (m : Manager)
    → Inv m
    → Inv (changed m (publish_channel id rev invalidate m))
unfolding publish_channel
publish_channel-Inv id rev invalidate m v =
    let n : Manager = note_revision id rev (record m { blocked = delete id m.blocked }) in
    let w : Inv n = note_revision-Inv id rev _ (unblock-Inv id m v) in
    elim (Bool-cases (is_empty id)) [
      | inl e ↦ rw e v
      | inr e ↦ elim (Bool-cases invalidate) [
        | inl i ↦ rw (e, i) (stop_stale-Inv _ _ (retire_session-Inv id n w))
        | inr i ↦ rw (e, i) w
      ]
    ]

pub apply_profile-Inv : (pr : Profile) (m : Manager) → Inv m → Inv (apply_profile pr m)
unfolding apply_profile
apply_profile-Inv pr m v =
    let n : Manager = record m { profile = ProfileCode.normalize pr } in
    let t : Manager × List ℕ = retire_where (λ s. s.source.transcode) m.sessions n in
    stop_each-Inv t.1 t.0 (
      retire_where-Inv (λ s. s.source.transcode) m.sessions n
        (same_core-Inv m n refl refl refl refl refl refl v))
