-- ===== src/Mpegts/Frame/Carry.antt =====
-- internal/core/mpegts/frame.go: what more data behind a carry changes in the framing of it.
use tvr.Base.{
  ℕ, zero, suc, ◌+◌, ◌-◌, ◌≤◌, ◌<◌, true, false, none, some, List, [], ◌∷◌, ◌++◌, length, take,
  drop, ltb, ◌==◌, ◌≡◌, refl, sym, ap, ◌∙◌, inl, inr, arith, tests, ltb→lt, Bool-cases,
  Option-cases, length-drop, length-append, drop-add, drop-append_le, subst,
}
use native.Mathlib.Nat.{zero-add, add_assoc}
use tvr.Mpegts.Header.{sync_byte, packet_size}
use tvr.Mpegts.Frame.Split.{
  run_fuel, run_step_true, run_step_false, has_packet-le, has_packet_short, find_sync-some,
}
use tvr.Mpegts.Frame.{find_sync, has_packet, run, run_all, extract_framed, keep_tail}

-- What a sequence of reads frames, and the carry that is left.
unfoldable pub feed : List ℕ → List (List ℕ) → List ℕ × List ℕ
feed carry [] = ([], carry)
feed carry (chunk ∷ chunks) =
    let (packets, rest) = extract_framed (carry ++ chunk) in
    let (later, last) = feed rest chunks in (packets ++ later, last)

abbrev pub concat : List (List ℕ) → List ℕ
concat [] = []
concat (c ∷ cs) = c ++ concat cs

pub find_sync-append_none : (a b : List ℕ) → find_sync a ≡ none → find_sync (a ++ b) ≡ find_sync b
unfolding find_sync
find_sync-append_none [] b h = refl
find_sync-append_none (x ∷ a) b h = ground (arith, find_sync-append_none a b)

pub find_sync-append_some :
    (a b : List ℕ) {from : List ℕ} → find_sync a ≡ some from → find_sync (a ++ b) ≡ some (from ++ b)
unfolding find_sync
find_sync-append_some [] b h = cc
find_sync-append_some (x ∷ a) b {from} h = elim (Bool-cases (x == sync_byte)) [
  | inl e ↦ ground arith
  | inr e ↦ rw e (find_sync-append_some a b (rw e at h))
]

find_sync-drop : (n : ℕ) (a : List ℕ) → find_sync a ≡ none → find_sync (drop n a) ≡ none
unfolding find_sync
find_sync-drop zero a h = h
find_sync-drop (suc n) [] h = refl
find_sync-drop (suc n) (x ∷ a) h = find_sync-drop n a (ground arith)

pub find_sync-keep_tail : (a : List ℕ) → find_sync a ≡ none → find_sync (keep_tail a) ≡ none
find_sync-keep_tail a h = elim (Bool-cases (ltb (packet_size - 1) (length a))) [
  | inl e ↦ rw e (find_sync-drop (length a - (packet_size - 1)) a h)
  | inr e ↦ rw e h
]

pub length-keep_tail : (a : List ℕ) → length (keep_tail a) < packet_size
length-keep_tail a = elim (Bool-cases (ltb (packet_size - 1) (length a))) [
  | inl e ↦ rw e (omega (tests, e, length-drop (length a - (packet_size - 1)) a))
  | inr e ↦ rw e (ground arith)
]

-- A run over more data goes on where the run over less stopped.
has_packet-append : (a b : List ℕ) → has_packet a ≡ true → has_packet (a ++ b) ≡ true
unfolding has_packet
has_packet-append [] b h = ground arith
has_packet-append (x ∷ a) b h = ground (arith, length-append a b)

run-append_stop :
    (f g h : ℕ) (a b : List ℕ)
    → has_packet a ≡ false
    → length (a ++ b) ≤ g
    → length (drop (run f a) a ++ b) ≤ h
    → run g (a ++ b) ≡ run f a + run h (drop (run f a) a ++ b)
run-append_stop f g h a b e lg lh =
    let stop = run_step_false f a e in
    rw stop (run_fuel g h (a ++ b) lg (rw stop at lh) ∙ sym (zero-add _))

pub run-append :
    (f g h : ℕ) (a b : List ℕ)
    → length a ≤ f
    → length (a ++ b) ≤ g
    → length (drop (run f a) a ++ b) ≤ h
    → run g (a ++ b) ≡ run f a + run h (drop (run f a) a ++ b)
run-append zero g h a b la lg lh = elim (Bool-cases (has_packet a)) [
  | inl e ↦ absurd (omega (arith, has_packet-le a e))
  | inr e ↦ run-append_stop zero g h a b e lg lh
]
run-append (suc f) zero h a b la lg lh = elim (Bool-cases (has_packet a)) [
  | inl e ↦ absurd (omega (arith, has_packet-le a e, length-append a b))
  | inr e ↦ run-append_stop (suc f) zero h a b e lg lh
]
run-append (suc f) (suc g) h a b la lg lh = elim (Bool-cases (has_packet a)) [
  | inl e ↦
      let here = has_packet-le a e in
      let m : ℕ = run f (drop packet_size a) in
      let step = run_step_true f a e in
      let more = drop-add packet_size m a in
      let shift = drop-append_le packet_size a b here in
      let short : length (drop packet_size (a ++ b)) ≤ g =
        omega (arith, length-drop packet_size (a ++ b), length-append a b) in
      let ih =
        run-append f g h (drop packet_size a) b (omega (arith, length-drop packet_size a))
          (subst (λ l. length l ≤ g) shift short)
          (subst (λ l. length (l ++ b) ≤ h) (ap (λ n. drop n a) step ∙ more) lh) in
      run_step_true g (a ++ b) (has_packet-append a b e)
      ∙ ap (λ l. packet_size + run g l) shift
      ∙ ap (λ n. packet_size + n) ih
      ∙ rw (step, more) (sym (add_assoc packet_size m _))
  | inr e ↦ run-append_stop (suc f) (suc g) h a b e lg lh
]

pub extract_framed-none : (y : List ℕ) → find_sync y ≡ none → extract_framed y ≡ ([], keep_tail y)
unfolding extract_framed
extract_framed-none y e = rw (e, extract_framed)

pub extract_framed-some :
    (y : List ℕ) {z : List ℕ}
    → find_sync y ≡ some z
    → extract_framed y ≡ (take (run_all z) z, drop (run_all z) z)
unfolding extract_framed
extract_framed-some y e = rw (e, extract_framed)

find_sync-packet : (y : List ℕ) → has_packet y ≡ true → find_sync y ≡ some y
unfolding find_sync has_packet
find_sync-packet [] h = ground arith
find_sync-packet (x ∷ y) h = ground arith

-- Where a run stops short of a packet, starting over on the data gives that run.
pub extract_framed_restart :
    (y : List ℕ)
    → length (drop (run_all y) y) < packet_size
    → ((extract_framed y).0 ≡ take (run_all y) y) × (length (extract_framed y).1 < packet_size)
extract_framed_restart y h = elim (Bool-cases (has_packet y)) [
  | inl e ↦ rw (extract_framed-some y (find_sync-packet y e)) (refl, h)
  | inr e ↦
      let stop = run_step_false (length y) y e in
      let short : length y < packet_size = rw stop at h in
      elim (Option-cases (find_sync y)) [
        | inl none' ↦ rw (extract_framed-none y none', stop) (refl, length-keep_tail y)
        | inr (z, found) ↦
            let (junk, split, _) = find_sync-some y found in
            let small : length z < packet_size =
              omega (arith, ap length split, length-append junk z) in
            let stop_z = run_step_false (length z) z (has_packet_short z small) in
            rw (extract_framed-some y found, stop, stop_z) (refl, small)
      ]
]

has_packet-append_false :
    (r b : List ℕ) → packet_size ≤ length r → has_packet r ≡ false → has_packet (r ++ b) ≡ false
unfolding has_packet
has_packet-append_false [] b h e = absurd (omega arith)
has_packet-append_false (x ∷ r) b h e = ground (arith, length-append r b)

-- What is left before a read is short if what is left after it is.
pub carry_short :
    (r b : List ℕ)
    → has_packet r ≡ false
    → length (drop (run_all (r ++ b)) (r ++ b)) < packet_size
    → length r < packet_size
carry_short r b e h = elim (Bool-cases (ltb (length r) packet_size)) [
  | inl small ↦ ltb→lt _ _ small
  | inr large ↦
      let le : packet_size ≤ length r = ground arith in
      let stop = run_step_false (length (r ++ b)) (r ++ b) (has_packet-append_false r b le e) in
      let all : length (r ++ b) < packet_size = rw stop at h in omega (arith, length-append r b)
]
