-- ===== src/Stream/Viewers/Sending.antt =====
-- What each viewer gets of a chunk.
use tvr.Base.{
  ℕ, ◌+◌, true, false, List, [], ◌∷◌, ◌++◌, Option, none, some, length, ◌==◌, if◌then◌else◌, ◌≡◌,
  refl, ap, ◌∙◌, ◌⊎◌, inl, inr, arith, Bool-cases, Dict, lookup, nat_eq, subst, ltb→lt, ◌<◌, ◌≤◌,
}
use tvr.Stream.Session.{Session, Viewer}
use tvr.Stream.Packets.{startup_packets, keyframe_suffix}
use tvr.Stream.Packets.Keyframe.{FirstFlag, keyframe_suffix-some}
use tvr.Stream.Viewers.{
  broadcast, settle, Delivery, keeps, drops, send_or_drop, at_keyframe, deliver, deliver_all,
  sort_delivery, has_room,
}

pub deliver-live :
    (startup pkt : List ℕ) (v : Viewer)
    → v.wait_keyframe ≡ false
    → deliver startup pkt v ≡ send_or_drop pkt v
unfolding deliver
deliver-live startup pkt v e =
    ap (λ b. if b then at_keyframe startup v (keyframe_suffix pkt) else send_or_drop pkt v) e

pub deliver-waiting :
    (startup pkt : List ℕ) (v : Viewer)
    → v.wait_keyframe ≡ true
    → deliver startup pkt v ≡ at_keyframe startup v (keyframe_suffix pkt)
unfolding deliver
deliver-waiting startup pkt v e =
    ap (λ b. if b then at_keyframe startup v (keyframe_suffix pkt) else send_or_drop pkt v) e

-- The viewer that stays in the map.
abbrev pub kept : Delivery → Option Viewer
kept (keeps v) = some v
kept (drops v) = none

abbrev pub after_delivery : List ℕ → List ℕ → Option Viewer → Option Viewer
after_delivery startup pkt none = none
after_delivery startup pkt (some v) = kept (deliver startup pkt v)

pub lookup-deliver_all-none :
    (startup pkt : List ℕ) (k : ℕ) (m : Dict ℕ Viewer)
    → lookup k m ≡ none
    → lookup k (deliver_all startup pkt m).0 ≡ none
unfolding lookup deliver_all
lookup-deliver_all-none startup pkt k [] e = refl
lookup-deliver_all-none startup pkt k ((j, v) ∷ m) e =
    go (deliver startup pkt v) (deliver_all startup pkt m) ne
      (lookup-deliver_all-none startup pkt k m (rw ne at e))
  where
    ne : (j == k) ≡ false
    ne = ground arith

    go :
        (d : Delivery) (r : Dict ℕ Viewer × Dict ℕ Viewer)
        → (j == k) ≡ false
        → lookup k r.0 ≡ none
        → lookup k (sort_delivery j d r).0 ≡ none
    go (keeps w) (kept', dropped) n l = rw n l
    go (drops w) (kept', dropped) n l = l

sort_delivery-kept :
    (j : ℕ) (d : Delivery) (r : Dict ℕ Viewer × Dict ℕ Viewer)
    → lookup j r.0 ≡ none
    → lookup j (sort_delivery j d r).0 ≡ kept d
unfolding lookup
sort_delivery-kept j (keeps w) (kept', dropped) l = ground arith
sort_delivery-kept j (drops w) (kept', dropped) l = l

sort_delivery-other :
    (k j : ℕ) (d : Delivery) (r : Dict ℕ Viewer × Dict ℕ Viewer)
    → (j == k) ≡ false
    → lookup k (sort_delivery j d r).0 ≡ lookup k r.0
unfolding lookup
sort_delivery-other k j (keeps w) (kept', dropped) n = rw n refl
sort_delivery-other k j (drops w) (kept', dropped) n = refl

-- No two entries have the same key.
abbrev pub KeysDistinct : Dict ℕ Viewer → Type 0
KeysDistinct [] = Unit
KeysDistinct ((k, v) ∷ m) = (lookup k m ≡ none) × KeysDistinct m

lookup-deliver_all :
    (startup pkt : List ℕ) (k : ℕ) (m : Dict ℕ Viewer)
    → KeysDistinct m
    → lookup k (deliver_all startup pkt m).0 ≡ after_delivery startup pkt (lookup k m)
unfolding lookup deliver_all
lookup-deliver_all startup pkt k [] d = refl
lookup-deliver_all startup pkt k ((j, v) ∷ m) d = elim (Bool-cases (j == k)) [
  | inl e ↦
      let same : j ≡ k = ground arith in
      rw e (
        subst
          (λ i.
            lookup i (sort_delivery j (deliver startup pkt v) (deliver_all startup pkt m)).0
            ≡ kept (deliver startup pkt v))
          same
          (sort_delivery-kept j (deliver startup pkt v) (deliver_all startup pkt m)
            (lookup-deliver_all-none startup pkt j m d.0)))
  | inr e ↦ rw e (
      sort_delivery-other k j (deliver startup pkt v) (deliver_all startup pkt m) e
      ∙ lookup-deliver_all startup pkt k m d.1)
]

settle-viewers : (s : Session) → (settle s).viewers ≡ s.viewers
unfolding settle
settle-viewers s = ground arith

-- What a viewer that takes a chunk is sent.
abbrev pub Sent : List ℕ → List ℕ → Viewer → List ℕ → Type 0
Sent startup pkt v chunk =
    ((v.wait_keyframe ≡ false) × (chunk ≡ pkt))
    ⊎ ((v.wait_keyframe ≡ true) × ((cut : List ℕ) × FirstFlag pkt cut × (chunk ≡ startup ++ cut)))

-- What becomes of a viewer: it waits on, it has the chunk behind what it had, or it is dropped.
pub data Outcome (startup pkt : List ℕ) (v : Viewer) (after : Option Viewer) : Type 0 where
  waits :
      v.wait_keyframe ≡ true
      → keyframe_suffix pkt ≡ none
      → after ≡ some v
      → Outcome startup pkt v after
  gets :
      (chunk : List ℕ)
      → length v.queue < v.cap
      → Sent startup pkt v chunk
      → after ≡ some (record v { queue = v.queue ++ chunk ∷ []; wait_keyframe = false })
      → Outcome startup pkt v after
  too_slow : v.cap ≤ length v.queue → after ≡ none → Outcome startup pkt v after

live-Outcome :
    (startup pkt : List ℕ) (v : Viewer)
    → v.wait_keyframe ≡ false
    → Outcome startup pkt v (kept (send_or_drop pkt v))
live-Outcome startup pkt v e = elim (Bool-cases (has_room v)) [
  | inl r ↦ rw r (gets pkt (ltb→lt _ _ r) (inl (e, refl)) (ground arith))
  | inr r ↦ rw r (too_slow (ground arith) refl)
]

keyframe-Outcome :
    (startup pkt : List ℕ) (v : Viewer) (found : Option (List ℕ))
    → v.wait_keyframe ≡ true
    → keyframe_suffix pkt ≡ found
    → Outcome startup pkt v (kept (at_keyframe startup v found))
keyframe-Outcome startup pkt v none e f = waits e f refl
keyframe-Outcome startup pkt v (some cut) e f = elim (Bool-cases (has_room v)) [
  | inl r ↦
      rw r (
        gets (startup ++ cut) (ltb→lt _ _ r) (inr (e, (cut, keyframe_suffix-some pkt f, refl)))
          refl)
  | inr r ↦ rw r (too_slow (ground arith) refl)
]

deliver-Outcome :
    (startup pkt : List ℕ) (v : Viewer) → Outcome startup pkt v (kept (deliver startup pkt v))
deliver-Outcome startup pkt v = elim (Bool-cases v.wait_keyframe) [
  | inl e ↦
      rw (deliver-waiting startup pkt v e)
        (keyframe-Outcome startup pkt v (keyframe_suffix pkt) e refl)
  | inr e ↦ rw (deliver-live startup pkt v e) (live-Outcome startup pkt v e)
]

-- Where the viewers have different ids, a broadcast treats each by itself. One that waits for a keyframe is sent nothing before a chunk that has one, and
-- then the tables and the chunk from its first flagged packet on; any other gets the chunk behind what
-- it had. A viewer leaves the map just when the chunk is for it and its buffer is full.
pub broadcast-Outcome :
    (pkt : List ℕ) (s : Session) (k : ℕ) (v : Viewer)
    → KeysDistinct s.viewers
    → lookup k s.viewers ≡ some v
    → Outcome (startup_packets s) pkt v (lookup k (broadcast pkt s).viewers)
unfolding broadcast
broadcast-Outcome pkt s k v d e =
    let startup = startup_packets s in
    let after : lookup k (broadcast pkt s).viewers ≡ kept (deliver startup pkt v) =
      ap (lookup k) (
        settle-viewers (record s {
          bytes_sent = s.bytes_sent + length pkt;
          viewers = (deliver_all startup pkt s.viewers).0;
          gone = (deliver_all startup pkt s.viewers).1 ++ s.gone;
        }))
      ∙ lookup-deliver_all startup pkt k s.viewers d
      ∙ ap (after_delivery startup pkt) e in
    rw after (deliver-Outcome startup pkt v)

-- Nobody new enters by a broadcast.
pub broadcast-absent :
    (pkt : List ℕ) (s : Session) (k : ℕ)
    → lookup k s.viewers ≡ none
    → lookup k (broadcast pkt s).viewers ≡ none
unfolding broadcast
broadcast-absent pkt s k e =
    ap (lookup k) (
      settle-viewers (record s {
        bytes_sent = s.bytes_sent + length pkt;
        viewers = (deliver_all (startup_packets s) pkt s.viewers).0;
        gone = (deliver_all (startup_packets s) pkt s.viewers).1 ++ s.gone;
      }))
    ∙ lookup-deliver_all-none (startup_packets s) pkt k s.viewers e
