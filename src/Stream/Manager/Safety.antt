-- ===== src/Stream/Manager/Safety.antt =====
-- The invariant of the manager after any sequence of steps.
use tvr.Base.{
  ℕ, false, not, ◌&&◌, List, [], ◌∷◌, none, get_elem?, ◌≡◌, refl, sym, ap, ◌∙◌, inl, inr, ◌==◌,
  Bool-cases, Option-cases, Text, is_empty, trim_space, text_eq, Dict, lookup, insert, delete,
  text_key, All-absent, All-delete, lookup-insert_ne, lookup-delete_ne,
}
use tvr.Transcode.Profile.{Profile}
use tvr.Stream.Session.{Session, Options}
use tvr.Stream.Ready.{Status, is_error}
use tvr.Stream.Calls.{step}
use tvr.Stream.Calls.Identity.{step-SameIdentity}
use tvr.Stream.Manager.{
  Manager, new_manager, epoch_of, next_epoch, retire_session, is_some, block_channel,
  remember_finish, remove_session, is_pointer,
}
use tvr.Stream.Manager.Keeps.{
  Active, Inv, change-Inv, retire_session-Inv, drop_session-Inv, stop_stale-Inv,
}
use tvr.Stream.Manager.Closing.{close-Inv}
use tvr.Stream.Manager.Steps.{
  Op, subscribes, publishes, blocks, applies, closes, acts, reports, removes, changed, mstep,
  msteps,
}
use tvr.Stream.Manager.Entering.{subscribe-Inv, publish_channel-Inv, apply_profile-Inv}

abbrev block : Text → Manager → Manager
block id m = record m { blocked = insert id tt m.blocked; revisions = delete id m.revisions }

-- The channel's session goes as the channel is blocked.
blocked-Inv : (id : Text) (m : Manager) → Inv m → Inv (retire_session id (block id m)).0
unfolding retire_session
blocked-Inv id m v = record {
  active =
      All-delete (Active m) (Active (retire_session id (block id m)).0) id m.sessions
        (λ j p ne a. record {
          session = a.session;
          there = a.there;
          of_channel = a.of_channel;
          latest =
              a.latest ∙ ap epoch_of (sym (lookup-insert_ne id j (next_epoch id m) m.epochs ne));
          no_sticky = lookup-delete_ne id j m.sticky ne ∙ a.no_sticky;
          not_blocked = ap is_some (lookup-insert_ne id j tt m.blocked ne) ∙ a.not_blocked;
        })
        v.active;
  past = unfold retire_session in (retire_session-Inv id m v).past;
  shut = unfold retire_session in (retire_session-Inv id m v).shut;
}

block_channel-Inv : (id : Text) (m : Manager) → Inv m → Inv (changed m (block_channel id m))
unfolding block_channel retire_session
block_channel-Inv id m v = elim (Bool-cases (is_empty id)) [
  | inl e ↦ rw e v
  | inr e ↦ rw e (stop_stale-Inv (lookup id m.sessions) _ (blocked-Inv id m v))
]

-- The sticky status of a channel without a session.
sticky-Inv :
    (k : Text) (d : Dict Text Status) (m : Manager)
    → lookup k m.sessions ≡ none
    → ((j : Text) → text_eq j k ≡ false → lookup j d ≡ lookup j m.sticky)
    → Inv m
    → Inv (record m { sticky = d })
sticky-Inv k d m q f v = record {
  active =
      All-absent (Active m) (Active (record m { sticky = d })) k m.sessions q
        (λ j p ne a. record {
          session = a.session;
          there = a.there;
          of_channel = a.of_channel;
          latest = a.latest;
          no_sticky = f j ne ∙ a.no_sticky;
          not_blocked = a.not_blocked;
        })
        v.active;
  past = v.past;
  shut = v.shut;
}

remember_finish-Inv :
    (s : Session) (st : Status) (m : Manager) → Inv m → Inv (remember_finish s st m)
unfolding remember_finish
remember_finish-Inv s st m v =
    elim (Bool-cases (epoch_of (lookup s.channel_id m.epochs) == s.epoch)) [
      | inr e ↦ simp e v
      | inl e ↦ elim (Option-cases (lookup s.channel_id m.sessions)) [
        | inr (p, q) ↦ simp (e, q) v
        | inl q ↦
            elim (Bool-cases (is_error st.state && not (is_empty (trim_space st.last_error)))) [
              | inl f ↦
                  simp (e, q, f)
                    (sticky-Inv s.channel_id _ m q
                      (λ j ne. lookup-insert_ne s.channel_id j _ m.sticky ne) v)
              | inr f ↦
                  simp (e, q, f)
                    (sticky-Inv s.channel_id _ m q
                      (λ j ne. lookup-delete_ne s.channel_id j m.sticky ne) v)
            ]
      ]
    ]

remove_session-Inv : (p : ℕ) (s : Session) (m : Manager) → Inv m → Inv (remove_session p s m)
unfolding remove_session
remove_session-Inv p s m v = elim (Bool-cases (is_pointer p (lookup s.channel_id m.sessions))) [
  | inl e ↦ simp e (drop_session-Inv s.channel_id m v)
  | inr e ↦ simp e v
]

mstep-Inv : (o : Op) (m : Manager) → Inv m → Inv (mstep o m)
unfolding mstep
mstep-Inv (subscribes rand cs id src) m v = subscribe-Inv rand cs id src m v
mstep-Inv (publishes id revision invalidate) m v = publish_channel-Inv id revision invalidate m v
mstep-Inv (blocks id) m v = block_channel-Inv id m v
mstep-Inv (applies profile) m v = apply_profile-Inv profile m v
mstep-Inv closes m v = close-Inv m v
mstep-Inv (acts p call) m v = change-Inv p (step call) (step-SameIdentity call) m v
mstep-Inv (reports p st) m v = elim (Option-cases (get_elem? m.heap p)) [
  | inl e ↦ simp e v
  | inr (s, e) ↦ simp e (remember_finish-Inv s st m v)
]
mstep-Inv (removes p) m v = elim (Option-cases (get_elem? m.heap p)) [
  | inl e ↦ simp e v
  | inr (s, e) ↦ simp e (remove_session-Inv p s m v)
]

pub msteps-Inv : (os : List Op) (m : Manager) → Inv m → Inv (msteps os m)
unfolding msteps
msteps-Inv [] m v = v
msteps-Inv (o ∷ os) m v = msteps-Inv os (mstep o m) (mstep-Inv o m v)

new_manager-Inv : (o : Options) (pr : Profile) → Inv (new_manager o pr)
unfolding new_manager
new_manager-Inv o pr = record { active = tt; past = tt; shut = inl refl }

-- Whatever reaches a new manager, in any order: each session in its map is on the heap, belongs to its channel and has the
-- channel's latest epoch, and the channel has no sticky status and is not blocked; no session has an epoch that
-- its channel has not reached; and a closed manager has no session.
pub new_manager-msteps-Inv :
    (o : Options) (pr : Profile) (os : List Op) → Inv (msteps os (new_manager o pr))
new_manager-msteps-Inv o pr os = msteps-Inv os (new_manager o pr) (new_manager-Inv o pr)
