-- ===== src/Stream/Manager/Closing.antt =====
-- `Close` retires every session.
use tvr.Base.{
  ℕ, Bool, true, List, [], ◌∷◌, Option, none, some, get_elem?, ◌≡◌, refl, subst, sym, ap, ◌∙◌, inl,
  inr, arith, Bool-cases, Text, Dict, lookup, insert, delete, text_key, All, All-delete,
  text_eq_self, text_eq_iff,
}
use tvr.Stream.Session.{Session}
use tvr.Stream.Ready.{stop}
use tvr.Stream.Calls.Identity.{stop-SameIdentity}
use tvr.Stream.Manager.{
  Manager, change, next_epoch, retire_session, is_some, passes, retire_where, stop_each, close,
}
use tvr.Stream.Manager.Keeps.{Active, Past, Inv, All-map, Past-next, Past-update_at}

abbrev every : Session → Bool
every s = true

delete_all : Dict Text ℕ → Dict Text ℕ → Dict Text ℕ
delete_all [] d = d
delete_all ((k, p) ∷ l) d = delete_all l (delete k d)

abbrev Key : Dict Text ℕ → Text × ℕ → Type 0
Key l x = is_some (lookup x.0 l) ≡ true

Key-self : (d : Dict Text ℕ) → All (Key d) d
unfolding lookup
Key-self [] = tt
Key-self ((k, p) ∷ d) = (
  ground (arith, text_eq_self k),
  All-map (Key d) (Key ((k, p) ∷ d)) d (λ x h. ground arith) (Key-self d),
)

delete_all-Key : (l d : Dict Text ℕ) → All (Key l) d → delete_all l d ≡ []
unfolding delete_all lookup
delete_all-Key [] [] h = refl
delete_all-Key [] (x ∷ d) h = ground arith
delete_all-Key ((k, p) ∷ l) d h = delete_all-Key l (delete k d) (
    All-delete (Key ((k, p) ∷ l)) (Key l) k d
      (λ j q ne a. ground (arith, text_eq_iff k j, text_eq_iff j k)) h)

passes-every : (o : Option Session) → is_some o ≡ true → passes every o ≡ true
passes-every none h = h
passes-every (some s) h = refl

retire_where-sessions :
    (l : Dict Text ℕ) (m : Manager)
    → All (λ x. is_some (get_elem? m.heap x.1) ≡ true) l
    → (retire_where every l m).0.sessions ≡ delete_all l m.sessions
unfolding retire_where delete_all retire_session
retire_where-sessions [] m h = refl
retire_where-sessions ((k, p) ∷ l) m h =
    rw (passes-every (get_elem? m.heap p) h.0) (retire_where-sessions l (retire_session k m).0 h.1)

retire_where-Past :
    (test : Session → Bool) (l : Dict Text ℕ) (m : Manager)
    → All (Past m.epochs) m.heap
    → All (Past (retire_where test l m).0.epochs) (retire_where test l m).0.heap
unfolding retire_where
retire_where-Past test [] m h = h
retire_where-Past test ((k, p) ∷ l) m h =
    let rest = retire_where-Past test l (retire_session k m).0 (
      unfold retire_session in
      All-map (Past m.epochs) (Past (insert k (next_epoch k m) m.epochs)) m.heap (Past-next k m)
        h) in
    elim (Bool-cases (passes test (get_elem? m.heap p))) [
      | inl e ↦ rw e rest
      | inr e ↦ rw e (retire_where-Past test l m h)
    ]

retire_where-closed :
    (test : Session → Bool) (l : Dict Text ℕ) (m : Manager)
    → (retire_where test l m).0.closed ≡ m.closed
unfolding retire_where
retire_where-closed test [] m = refl
retire_where-closed test ((k, p) ∷ l) m = elim (Bool-cases (passes test (get_elem? m.heap p))) [
  | inl e ↦ rw e (retire_where-closed test l (retire_session k m).0 ∙ unfold retire_session in refl)
  | inr e ↦ rw e (retire_where-closed test l m)
]

-- Stopping sessions changes them and nothing else.
stop_each-rest :
    (ps : List ℕ) (m : Manager)
    → ((stop_each ps m).sessions ≡ m.sessions) × ((stop_each ps m).closed ≡ m.closed)
stop_each-rest [] m = (refl, refl)
stop_each-rest (p ∷ ps) m = stop_each-rest ps (change p stop m)

stop_each-Past :
    (ps : List ℕ) (m : Manager)
    → All (Past m.epochs) m.heap
    → All (Past (stop_each ps m).epochs) (stop_each ps m).heap
stop_each-Past [] m h = h
stop_each-Past (p ∷ ps) m h =
    stop_each-Past ps (change p stop m)
      (Past-update_at p stop stop-SameIdentity p m.epochs m.heap h)

-- `Close` leaves no session in the map.
pub close-rest : (m : Manager) → Inv m → ((close m).sessions ≡ []) × ((close m).closed ≡ true)
unfolding close
close-rest m v =
    let n : Manager = record m { closed = true } in
    let t : Manager × List ℕ = retire_where every m.sessions n in
    let (s, c) = stop_each-rest t.1 t.0 in
    let there =
      All-map (Active m) (λ x. is_some (get_elem? m.heap x.1) ≡ true) m.sessions
        (λ x a. ap is_some a.there) v.active in
    (
      s
          ∙ retire_where-sessions m.sessions n there
          ∙ delete_all-Key m.sessions m.sessions (Key-self m.sessions),
      c ∙ retire_where-closed every m.sessions n,
    )

pub close-Inv : (m : Manager) → Inv m → Inv (close m)
close-Inv m v =
    let n : Manager = record m { closed = true } in
    let t : Manager × List ℕ = retire_where every m.sessions n in
    record {
      active = subst (All (Active (close m))) (sym (close-rest m v).0) tt;
      past = unfold close in stop_each-Past t.1 t.0 (retire_where-Past every m.sessions n v.past);
      shut = inr (close-rest m v).0;
    }
