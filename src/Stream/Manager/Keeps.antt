-- ===== src/Stream/Manager/Keeps.antt =====
-- What holds of the manager whatever happens.
use tvr.Base.{
  ℕ, zero, suc, ◌≤◌, Bool, false, List, [], ◌∷◌, Option, none, some, length, get_elem?, ◌≡◌, refl,
  sym, ap, ◌∙◌, ◌⊎◌, inl, inr, arith, ◌==◌, if◌then◌else◌, Bool-cases, subst, Text, is_empty,
  text_eq, text_eq_iff, Dict, lookup, insert, delete, text_key, All, All-append, All-insert,
  All-delete, lookup-insert_self, lookup-insert_ne, lookup-delete_self, lookup-delete_ne,
}
use tvr.Upstream.Source.{Source}
use tvr.Transcode.Profile.{Profile}
use tvr.Stream.Session.{Session, Options}
use tvr.Stream.Ready.{stop}
use tvr.Stream.Viewers.{add_viewer}
use tvr.Stream.Calls.Identity.{
  SameIdentity, stop-SameIdentity, add_viewer-SameIdentity, apply-SameIdentity, step-SameIdentity,
}
use tvr.Stream.Calls.{Call, step, steps}
use tvr.Stream.Manager.Heap.{get_elem?-update_at, get_elem?-append, get_elem?-last}
use tvr.Stream.Manager.{
  Manager, new_session, epoch_of, update_at, change, next_epoch, retire_session, start_session,
  stop_stale, stop_each, is_some, note_revision, join, passes, retire_where,
}

-- An active session belongs to its channel, has the channel's latest epoch, and the channel has no
-- sticky status and is not blocked.
pub record Active (m : Manager) (entry : Text × ℕ) : Type 0 where
  pub session : Session
  pub there : get_elem? m.heap entry.1 ≡ some session
  pub of_channel : session.channel_id ≡ entry.0
  pub latest : session.epoch ≡ epoch_of (lookup entry.0 m.epochs)
  pub no_sticky : lookup entry.0 m.sticky ≡ none
  pub not_blocked : is_some (lookup entry.0 m.blocked) ≡ false

-- No session has an epoch that its channel has not reached.
abbrev pub Past : Dict Text ℕ → Session → Type 0
Past epochs s = s.epoch ≤ epoch_of (lookup s.channel_id epochs)

pub record Inv (m : Manager) : Type 0 where
  pub active : All (Active m) m.sessions
  pub past : All (Past m.epochs) m.heap
  pub shut : (m.closed ≡ false) ⊎ (m.sessions ≡ [])

pub All-map {ℓ κ μ} :
    {A : Type ℓ} (P : A → Type κ) (Q : A → Type μ) (xs : List A)
    → ((x : A) → P x → Q x)
    → All P xs
    → All Q xs
All-map P Q [] f h = tt
All-map P Q (x ∷ xs) f h = (f x h.0, All-map P Q xs f h.1)

module _ (p : ℕ) (f : Session → Session) (same : (s : Session) → SameIdentity s (f s)) where
  Active-change : (m : Manager) (x : Text × ℕ) → Active m x → Active (change p f m) x
  Active-change m x a = record {
    session = if p == x.1 then f a.session else a.session;
    there = get_elem?-update_at p x.1 f m.heap a.there;
    of_channel = ground (arith, same a.session, a.of_channel);
    latest = ground (arith, same a.session, a.latest);
    no_sticky = a.no_sticky;
    not_blocked = a.not_blocked;
  }

  Past-same : (epochs : Dict Text ℕ) (s : Session) → Past epochs s → Past epochs (f s)
  Past-same epochs s h =
      let (c, e) = same s in
      subst (λ k. (f s).epoch ≤ epoch_of (lookup k epochs)) (sym c) (omega (arith, e))

  pub Past-update_at :
      (q : ℕ) (epochs : Dict Text ℕ) (h : List Session)
      → All (Past epochs) h
      → All (Past epochs) (update_at q f h)
  unfolding update_at
  Past-update_at q epochs [] k = tt
  Past-update_at zero epochs (s ∷ h) k = (Past-same epochs s k.0, k.1)
  Past-update_at (suc q) epochs (s ∷ h) k = (k.0, Past-update_at q epochs h k.1)

  pub change-Inv : (m : Manager) → Inv m → Inv (change p f m)
  change-Inv m v = record {
    active = All-map (Active m) (Active (change p f m)) m.sessions (Active-change m) v.active;
    past = Past-update_at p m.epochs m.heap v.past;
    shut = v.shut;
  }

-- A channel's epoch never falls.
pub Past-next :
    (id : Text) (m : Manager) (s : Session)
    → Past m.epochs s
    → Past (insert id (next_epoch id m) m.epochs) s
Past-next id m s h = elim (Bool-cases (text_eq s.channel_id id)) [
  | inl e ↦
      let same = (text_eq_iff s.channel_id id).0 e in
      let old : s.epoch ≤ epoch_of (lookup id m.epochs) =
        subst (λ k. s.epoch ≤ epoch_of (lookup k m.epochs)) same h in
      subst (λ k. s.epoch ≤ epoch_of (lookup k (insert id (next_epoch id m) m.epochs))) (sym same)
        (rw (lookup-insert_self id (next_epoch id m) m.epochs) (omega arith))
  | inr e ↦ rw (lookup-insert_ne id s.channel_id (next_epoch id m) m.epochs e) h
]

delete_shut :
    (id : Text) (m : Manager)
    → (m.closed ≡ false) ⊎ (m.sessions ≡ [])
    → (m.closed ≡ false) ⊎ (delete id m.sessions ≡ [])
delete_shut id m (inl e) = inl e
delete_shut id m (inr e) = inr (ap (delete id) e ∙ unfold delete in refl)

pub retire_session-Inv : (id : Text) (m : Manager) → Inv m → Inv (retire_session id m).0
unfolding retire_session
retire_session-Inv id m v = record {
  active =
      All-delete (Active m) (Active (retire_session id m).0) id m.sessions
        (λ j p ne a. record {
          session = a.session;
          there = a.there;
          of_channel = a.of_channel;
          latest =
              a.latest ∙ ap epoch_of (sym (lookup-insert_ne id j (next_epoch id m) m.epochs ne));
          no_sticky = lookup-delete_ne id j m.sticky ne ∙ a.no_sticky;
          not_blocked = a.not_blocked;
        })
        v.active;
  past =
      All-map (Past m.epochs) (Past (insert id (next_epoch id m) m.epochs)) m.heap (Past-next id m)
        v.past;
  shut = delete_shut id m v.shut;
}

new_session-SameIdentity :
    (rand : ℕ → ℕ) (id : Text) (src : Source) (o : Options) (pr : Profile) (n : ℕ)
    → ((new_session rand id src o pr n).channel_id ≡ id)
      × ((new_session rand id src o pr n).epoch ≡ n)
unfolding new_session
new_session-SameIdentity rand id src o pr n = apply-SameIdentity _

pub start_session-Inv :
    (rand : ℕ → ℕ) (id : Text) (src : Source) (m : Manager)
    → m.closed ≡ false
    → is_some (lookup id m.blocked) ≡ false
    → Inv m
    → Inv (start_session rand id src m).0
unfolding start_session
start_session-Inv rand id src m c b v =
    let n : ℕ = next_epoch id m in
    let s : Session = new_session rand id src m.opts m.profile n in
    let (chan, ep) = new_session-SameIdentity rand id src m.opts m.profile n in
    record {
      active =
          All-insert (Active m) (Active (start_session rand id src m).0) id (length m.heap)
            m.sessions
            (record {
              session = s;
              there = get_elem?-last m.heap s;
              of_channel = chan;
              latest = ep ∙ ap epoch_of (sym (lookup-insert_self id n m.epochs));
              no_sticky = lookup-delete_self id m.sticky;
              not_blocked = b;
            })
            (λ j p ne a. record {
              session = a.session;
              there = get_elem?-append m.heap (s ∷ []) p a.there;
              of_channel = a.of_channel;
              latest = a.latest ∙ ap epoch_of (sym (lookup-insert_ne id j n m.epochs ne));
              no_sticky = lookup-delete_ne id j m.sticky ne ∙ a.no_sticky;
              not_blocked = a.not_blocked;
            })
            v.active;
      past =
          All-append (Past (insert id n m.epochs)) m.heap (s ∷ [])
            (All-map (Past m.epochs) (Past (insert id n m.epochs)) m.heap (Past-next id m) v.past)
            (
              subst (λ k. s.epoch ≤ epoch_of (lookup k (insert id n m.epochs))) (sym chan)
                  (rw (lookup-insert_self id n m.epochs) (omega (arith, ep))),
              tt,
            );
      shut = inl c;
    }

-- The session is only taken out of the map.
pub drop_session-Inv :
    (id : Text) (m : Manager) → Inv m → Inv (record m { sessions = delete id m.sessions })
drop_session-Inv id m v = record {
  active =
      All-delete (Active m) (Active (record m { sessions = delete id m.sessions })) id m.sessions
        (λ j p ne a. record {
          session = a.session;
          there = a.there;
          of_channel = a.of_channel;
          latest = a.latest;
          no_sticky = a.no_sticky;
          not_blocked = a.not_blocked;
        })
        v.active;
  past = v.past;
  shut = delete_shut id m v.shut;
}

-- Fields that the invariant does not speak of.
pub same_core-Inv :
    (m n : Manager)
    → n.heap ≡ m.heap
    → n.sessions ≡ m.sessions
    → n.blocked ≡ m.blocked
    → n.sticky ≡ m.sticky
    → n.epochs ≡ m.epochs
    → n.closed ≡ m.closed
    → Inv m
    → Inv n
same_core-Inv m n h s b st e c v = record {
  active = subst (All (Active n)) (sym s) (
      All-map (Active m) (Active n) m.sessions
        (λ x a. record {
          session = a.session;
          there = ap (λ l. get_elem? l x.1) h ∙ a.there;
          of_channel = a.of_channel;
          latest = a.latest ∙ ap (λ d. epoch_of (lookup x.0 d)) (sym e);
          no_sticky = ap (lookup x.0) st ∙ a.no_sticky;
          not_blocked = ap (λ d. is_some (lookup x.0 d)) b ∙ a.not_blocked;
        })
        v.active);
  past = rw (h, e) v.past;
  shut = rw (s, c) v.shut;
}

pub stop_stale-Inv : (stale : Option ℕ) (m : Manager) → Inv m → Inv (stop_stale stale m)
stop_stale-Inv none m v = v
stop_stale-Inv (some p) m v = change-Inv p stop stop-SameIdentity m v

pub stop_each-Inv : (ps : List ℕ) (m : Manager) → Inv m → Inv (stop_each ps m)
stop_each-Inv [] m v = v
stop_each-Inv (p ∷ ps) m v =
    stop_each-Inv ps (change p stop m) (change-Inv p stop stop-SameIdentity m v)

pub retire_where-Inv :
    (test : Session → Bool) (l : Dict Text ℕ) (m : Manager) → Inv m → Inv (retire_where test l m).0
unfolding retire_where
retire_where-Inv test [] m v = v
retire_where-Inv test ((id, p) ∷ l) m v = elim (Bool-cases (passes test (get_elem? m.heap p))) [
  | inl e ↦ rw e (retire_where-Inv test l _ (retire_session-Inv id m v))
  | inr e ↦ rw e (retire_where-Inv test l m v)
]

pub note_revision-Inv : (id rev : Text) (m : Manager) → Inv m → Inv (note_revision id rev m)
note_revision-Inv id rev m v = elim (Bool-cases (is_empty rev)) [
  | inl e ↦ rw e v
  | inr e ↦ rw e (same_core-Inv m _ refl refl refl refl refl refl v)
]

steps-SameIdentity : (cs : List Call) (s : Session) → SameIdentity s (steps cs s)
unfolding steps
steps-SameIdentity [] s = (refl, refl)
steps-SameIdentity (c ∷ cs) s =
    let (a, b) = step-SameIdentity c s in
    let (a', b') = steps-SameIdentity cs (step c s) in (a' ∙ a, b' ∙ b)

pub join-Inv :
    (cs : List Call) (m : Manager) (p : ℕ) (stale : Option ℕ)
    → Inv m
    → Inv (join cs (m, p, stale)).0
unfolding join
join-Inv cs m p stale v =
    let n : Manager = change p (steps cs) m in
    stop_stale-Inv stale _ (
      change-Inv p (λ s. (add_viewer m.opts.buffer_size s).0)
        (add_viewer-SameIdentity m.opts.buffer_size) n
        (change-Inv p (steps cs) (steps-SameIdentity cs) m v))
