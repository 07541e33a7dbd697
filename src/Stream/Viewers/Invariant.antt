-- ===== src/Stream/Viewers/Invariant.antt =====
-- What holds of the viewers of a session whatever calls are made.
use tvr.Base.{
  ℕ, ◌+◌, ◌≤◌, Bool, true, false, List, [], ◌∷◌, ◌++◌, Option, none, some, length, ◌==◌, ◌≡◌, refl,
  inl, inr, arith, tests, All, All-append, Bool-cases, Option-cases, length-append, Dict, lookup,
  insert, delete, nat_eq, lookup-delete, lookup-delete_self,
}
use tvr.Stream.Session.{Session, Viewer}
use tvr.Stream.Packets.{startup_packets, keyframe_suffix}
use tvr.Stream.Ready.{stop}
use tvr.Stream.Viewers.{
  add_viewer, remove_viewer, broadcast, settle, greet, Delivery, new_viewer, has_room, close,
  deliver, deliver_all, sort_delivery, send_or_drop, at_keyframe, keeps, drops, close_all,
}
use tvr.Stream.Viewers.Sending.{
  deliver-live, deliver-waiting, lookup-deliver_all-none, KeysDistinct,
}

-- A viewer under its key: it was handed out, is open or not, and its buffer is within its capacity.
abbrev pub IsGood : Bool → ℕ → ℕ × Viewer → Type 0
IsGood closed top (k, v) = (k ≤ top) × (v.id ≡ k) × (v.closed ≡ closed) × (length v.queue ≤ v.cap)

-- The map holds open viewers under different ids, none above the last one handed out; a viewer
-- that left is closed.
pub record Inv (s : Session) : Type 0 where
  pub live : All (IsGood false s.next_id) s.viewers
  pub left : All (IsGood true s.next_id) s.gone
  pub distinct : KeysDistinct s.viewers

All-mono :
    (c : Bool) (m : Dict ℕ Viewer) {a b : ℕ} → a ≤ b → All (IsGood c a) m → All (IsGood c b) m
All-mono c [] h l = tt
All-mono c ((k, v) ∷ m) h l = ((omega arith, l.0.1, l.0.2, l.0.3), All-mono c m h l.1)

delete-All :
    (c : Bool) (top k : ℕ) (m : Dict ℕ Viewer)
    → All (IsGood c top) m
    → All (IsGood c top) (delete k m)
unfolding delete
delete-All c top k [] h = tt
delete-All c top k ((j, w) ∷ m) h = ground (arith, delete-All c top k m h.1)

delete-Distinct : (k : ℕ) (m : Dict ℕ Viewer) → KeysDistinct m → KeysDistinct (delete k m)
unfolding delete
delete-Distinct k [] d = tt
delete-Distinct k ((j, w) ∷ m) d = ground (arith, lookup-delete k j m, delete-Distinct k m d.1)

insert-All :
    (c : Bool) (top k : ℕ) (v : Viewer) (m : Dict ℕ Viewer)
    → IsGood c top (k, v)
    → All (IsGood c top) m
    → All (IsGood c top) (insert k v m)
unfolding insert
insert-All c top k v m g h = (g, delete-All c top k m h)

insert-Distinct :
    (k : ℕ) (v : Viewer) (m : Dict ℕ Viewer) → KeysDistinct m → KeysDistinct (insert k v m)
unfolding insert
insert-Distinct k v m d = (lookup-delete_self k m, delete-Distinct k m d)

greet-IsGood :
    (s : Session) (v : Viewer) (top : ℕ)
    → IsGood false top (v.id, v)
    → IsGood false top (v.id, greet s v)
greet-IsGood s v top g = ground (arith, length-append v.queue (startup_packets s ∷ []))

pub add_viewer-Inv : (cap : ℕ) (s : Session) → Inv s → Inv (add_viewer cap s).0
unfolding add_viewer
add_viewer-Inv cap s h = record {
  live =
      insert-All false (s.next_id + 1) (s.next_id + 1) _ s.viewers
        (greet-IsGood s (new_viewer (s.next_id + 1) cap) (s.next_id + 1)
          (omega arith, refl, refl, omega arith))
        (All-mono false s.viewers (omega arith) h.live);
  left = All-mono true s.gone (omega arith) h.left;
  distinct = insert-Distinct (s.next_id + 1) _ s.viewers h.distinct;
}

-- What the end of a call does when nobody is left.
pub settle-Inv : (s : Session) → Inv s → Inv (settle s)
unfolding settle
settle-Inv s h = record {
  live = ground (arith, h.live);
  left = ground (arith, h.left);
  distinct = ground (arith, h.distinct);
}

lookup-All :
    (c : Bool) (top k : ℕ) (m : Dict ℕ Viewer) {v : Viewer}
    → All (IsGood c top) m
    → lookup k m ≡ some v
    → IsGood c top (k, v)
unfolding lookup
lookup-All c top k [] h e = absurd (cc)
lookup-All c top k ((j, w) ∷ m) {v} h e = elim (Bool-cases (j == k)) [
  | inl q ↦ ground (arith, q, h.0)
  | inr q ↦ lookup-All c top k m h.1 (rw q at e)
]

pub remove_viewer-Inv : (id : ℕ) (s : Session) → Inv s → Inv (remove_viewer id s)
unfolding remove_viewer
remove_viewer-Inv id s h = elim (Option-cases (lookup id s.viewers)) [
  | inl e ↦ rw (e, remove_viewer) (settle-Inv s h)
  | inr (v, e) ↦
      let g = lookup-All false s.next_id id s.viewers h.live e in
      let s' : Session = record s {
        viewers = delete id s.viewers;
        gone = (id, close v) ∷ s.gone;
      } in
      rw (e, remove_viewer)
        (settle-Inv s' (record {
          live = delete-All false s.next_id id s.viewers h.live;
          left = ((g.0, g.1, refl, g.3), h.left);
          distinct = delete-Distinct id s.viewers h.distinct;
        }))
]

-- What a delivery leaves of a viewer is as good as the viewer was.
abbrev GoodDelivery : ℕ → ℕ → Delivery → Type 0
GoodDelivery top k (keeps v) = IsGood false top (k, v)
GoodDelivery top k (drops v) = IsGood true top (k, v)

send-GoodDelivery :
    (chunk : List ℕ) (top k : ℕ) (v : Viewer)
    → IsGood false top (k, v)
    → GoodDelivery top k (send_or_drop chunk v)
send-GoodDelivery chunk top k v g = elim (Bool-cases (has_room v)) [
  | inl e ↦ rw e (g.0, g.1, g.2, omega (tests, e, length-append v.queue (chunk ∷ [])))
  | inr e ↦ rw e (g.0, g.1, refl, g.3)
]

at_keyframe-GoodDelivery :
    (startup : List ℕ) (top k : ℕ) (v : Viewer) (cut : Option (List ℕ))
    → IsGood false top (k, v)
    → GoodDelivery top k (at_keyframe startup v cut)
at_keyframe-GoodDelivery startup top k v none g = g
at_keyframe-GoodDelivery startup top k v (some cut) g =
    send-GoodDelivery (startup ++ cut) top k (record v { wait_keyframe = false }) g

deliver-GoodDelivery :
    (startup pkt : List ℕ) (top k : ℕ) (v : Viewer)
    → IsGood false top (k, v)
    → GoodDelivery top k (deliver startup pkt v)
deliver-GoodDelivery startup pkt top k v g = elim (Bool-cases v.wait_keyframe) [
  | inr e ↦ rw (deliver-live startup pkt v e) (send-GoodDelivery pkt top k v g)
  | inl e ↦
      rw (deliver-waiting startup pkt v e)
        (at_keyframe-GoodDelivery startup top k v (keyframe_suffix pkt) g)
]

deliver_all-All :
    (startup pkt : List ℕ) (top : ℕ) (m : Dict ℕ Viewer)
    → All (IsGood false top) m
    → All (IsGood false top) (deliver_all startup pkt m).0
      × All (IsGood true top) (deliver_all startup pkt m).1
unfolding deliver_all
deliver_all-All startup pkt top [] h = (tt, tt)
deliver_all-All startup pkt top ((j, v) ∷ m) h =
    sorted j (deliver startup pkt v) (deliver_all startup pkt m)
      (deliver-GoodDelivery startup pkt top j v h.0) (deliver_all-All startup pkt top m h.1)
  where
    sorted :
        (k : ℕ) (d : Delivery) (r : Dict ℕ Viewer × Dict ℕ Viewer)
        → GoodDelivery top k d
        → All (IsGood false top) r.0 × All (IsGood true top) r.1
        → All (IsGood false top) (sort_delivery k d r).0
          × All (IsGood true top) (sort_delivery k d r).1
    sorted k (keeps w) (kept, dropped) g r = ((g, r.0), r.1)
    sorted k (drops w) (kept, dropped) g r = (r.0, (g, r.1))

deliver_all-Distinct :
    (startup pkt : List ℕ) (m : Dict ℕ Viewer)
    → KeysDistinct m
    → KeysDistinct (deliver_all startup pkt m).0
unfolding deliver_all
deliver_all-Distinct startup pkt [] d = tt
deliver_all-Distinct startup pkt ((j, v) ∷ m) d =
    sorted (deliver startup pkt v) (deliver_all startup pkt m)
      (lookup-deliver_all-none startup pkt j m d.0) (deliver_all-Distinct startup pkt m d.1)
  where
    sorted :
        (d' : Delivery) (r : Dict ℕ Viewer × Dict ℕ Viewer)
        → lookup j r.0 ≡ none
        → KeysDistinct r.0
        → KeysDistinct (sort_delivery j d' r).0
    sorted (keeps w) (kept, dropped) e r = (e, r)
    sorted (drops w) (kept, dropped) e r = r

pub broadcast-Inv : (pkt : List ℕ) (s : Session) → Inv s → Inv (broadcast pkt s)
unfolding broadcast
broadcast-Inv pkt s h =
    let startup = startup_packets s in
    let (kept, dropped) = deliver_all-All startup pkt s.next_id s.viewers h.live in
    settle-Inv
      (record s {
        bytes_sent = s.bytes_sent + length pkt;
        viewers = (deliver_all startup pkt s.viewers).0;
        gone = (deliver_all startup pkt s.viewers).1 ++ s.gone;
      })
      (record {
        live = kept;
        left =
            All-append (IsGood true s.next_id) (deliver_all startup pkt s.viewers).1 s.gone dropped
              h.left;
        distinct = deliver_all-Distinct startup pkt s.viewers h.distinct;
      })

close_all-All :
    (top : ℕ) (m : Dict ℕ Viewer) → All (IsGood false top) m → All (IsGood true top) (close_all m)
close_all-All top [] h = tt
close_all-All top ((k, v) ∷ m) h = ((h.0.0, h.0.1, refl, h.0.3), close_all-All top m h.1)

pub stop-Inv : (s : Session) → Inv s → Inv (stop s)
unfolding stop
stop-Inv s h = record {
  live = ground (arith, h.live);
  left = ground (arith, h.left, all_left);
  distinct = ground (arith, h.distinct);
}
  where
    all_left : All (IsGood true s.next_id) (close_all s.viewers ++ s.gone)
    all_left =
        All-append (IsGood true s.next_id) (close_all s.viewers) s.gone
          (close_all-All s.next_id s.viewers h.live) h.left
