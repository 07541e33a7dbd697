-- ===== src/Mpegts/Frame/Split.antt =====
-- How `extract_framed` splits its data.
use tvr.Base.{
  ℕ, zero, suc, ◌+◌, ◌-◌, ◌≤◌, ◌<◌, true, false, none, some, List, [], ◌∷◌, ◌++◌, length, take,
  drop, All, ltb, tests, take-add, drop-add, ◌==◌, ◌≡◌, ◌≢◌, refl, sym, ap, ◌∙◌, inl, inr, arith,
  Bool-cases, Option-cases, length-drop, length-take, take-append-drop,
}
use tvr.Mpegts.Header.{sync_byte, packet_size, byte_at}
use tvr.Mpegts.Frame.{find_sync, has_packet, run, run_all, extract_framed, keep_tail}

-- Whole packets: each has 188 bytes, the first of them a sync byte.
pub data IsPackets : List ℕ → Type 0 where
  nil : IsPackets []
  cons :
      (p : List ℕ) {rest : List ℕ}
      → length p ≡ packet_size
      → byte_at p 0 ≡ sync_byte
      → IsPackets rest
      → IsPackets (p ++ rest)

pub has_packet-le : (bs : List ℕ) → has_packet bs ≡ true → packet_size ≤ length bs
unfolding has_packet
has_packet-le bs h = ground arith

pub has_packet-sync : (bs : List ℕ) → has_packet bs ≡ true → byte_at bs 0 ≡ sync_byte
unfolding has_packet
has_packet-sync bs h = ground arith

pub run_step_true :
    (f : ℕ) (bs : List ℕ)
    → has_packet bs ≡ true
    → run (suc f) bs ≡ packet_size + run f (drop packet_size bs)
unfolding run
run_step_true f bs h = rw h

pub run_step_false : (f : ℕ) (bs : List ℕ) → has_packet bs ≡ false → run f bs ≡ 0
unfolding run
run_step_false zero bs h = refl
run_step_false (suc f) bs h = rw h

-- Any two fuels that are at least the length of the data give the same run.
pub run_fuel : (f g : ℕ) (bs : List ℕ) → length bs ≤ f → length bs ≤ g → run f bs ≡ run g bs
run_fuel zero g bs h k = elim (Bool-cases (has_packet bs)) [
  | inl e ↦ absurd (omega (arith, has_packet-le bs e))
  | inr e ↦ run_step_false zero bs e ∙ sym (run_step_false g bs e)
]
run_fuel (suc f) zero bs h k = elim (Bool-cases (has_packet bs)) [
  | inl e ↦ absurd (omega (arith, has_packet-le bs e))
  | inr e ↦ run_step_false (suc f) bs e ∙ sym (run_step_false zero bs e)
]
run_fuel (suc f) (suc g) bs h k = elim (Bool-cases (has_packet bs)) [
  | inl e ↦
      let l = length-drop packet_size bs in
      rw (run_step_true f bs e, run_step_true g bs e)
        (ap (λ n. packet_size + n)
          (run_fuel f g (drop packet_size bs) (omega (arith, has_packet-le bs e, l))
            (omega (arith, has_packet-le bs e, l))))
  | inr e ↦ run_step_false (suc f) bs e ∙ sym (run_step_false (suc g) bs e)
]

pub run-le : (f : ℕ) (bs : List ℕ) → run f bs ≤ length bs
unfolding run
run-le zero bs = omega arith
run-le (suc f) bs = elim (Bool-cases (has_packet bs)) [
  | inl e ↦ rw (run_step_true f bs e) (
      omega (arith, has_packet-le bs e, length-drop packet_size bs, run-le f (drop packet_size bs)))
  | inr e ↦ rw (run_step_false (suc f) bs e) (omega arith)
]

byte_at-take : (n : ℕ) (bs : List ℕ) → 0 < n → byte_at (take n bs) 0 ≡ byte_at bs 0
byte_at-take zero bs h = elim h [ ]
byte_at-take (suc n) [] h = refl
byte_at-take (suc n) (b ∷ bs) h = refl

-- A run takes whole packets.
run-IsPackets : (f : ℕ) (bs : List ℕ) → IsPackets (take (run f bs) bs)
unfolding run
run-IsPackets zero bs = nil
run-IsPackets (suc f) bs = elim (Bool-cases (has_packet bs)) [
  | inl e ↦
      rw (run_step_true f bs e, take-add packet_size (run f (drop packet_size bs)) bs)
        (cons (take packet_size bs) (length-take packet_size bs (has_packet-le bs e))
          (byte_at-take packet_size bs (omega arith) ∙ has_packet-sync bs e)
          (run-IsPackets f (drop packet_size bs)))
  | inr e ↦ rw (run_step_false (suc f) bs e) nil
]

-- No packet stands where a run ends.
pub run_stops : (f : ℕ) (bs : List ℕ) → length bs ≤ f → has_packet (drop (run f bs) bs) ≡ false
run_stops zero bs h = elim (Bool-cases (has_packet bs)) [
  | inl e ↦ absurd (omega (arith, has_packet-le bs e))
  | inr e ↦ rw (run_step_false zero bs e) e
]
run_stops (suc f) bs h = elim (Bool-cases (has_packet bs)) [
  | inl e ↦
      rw (run_step_true f bs e, drop-add packet_size (run f (drop packet_size bs)) bs)
        (run_stops f (drop packet_size bs)
          (omega (arith, has_packet-le bs e, length-drop packet_size bs)))
  | inr e ↦ rw (run_step_false (suc f) bs e) e
]

abbrev pub NoSync : List ℕ → Type 0
NoSync = All (λ b. b ≢ sync_byte)

pub find_sync-none : (bs : List ℕ) → find_sync bs ≡ none → NoSync bs
unfolding find_sync
find_sync-none [] h = tt
find_sync-none (b ∷ bs) h = elim (Bool-cases (b == sync_byte)) [
  | inl e ↦ absurd (ground arith)
  | inr e ↦ (ground arith, find_sync-none bs (rw e at h))
]

pub find_sync-some :
    (bs : List ℕ) {from : List ℕ}
    → find_sync bs ≡ some from
    → (junk : List ℕ) × (bs ≡ junk ++ from) × NoSync junk
unfolding find_sync
find_sync-some [] h = cc
find_sync-some (b ∷ bs) h = elim (Bool-cases (b == sync_byte)) [
  | inl e ↦ ([], ground arith, tt)
  | inr e ↦
      let (junk, split, clean) = find_sync-some bs (rw e at h) in
      (b ∷ junk, ap (◌∷◌ b) split, (ground arith, clean))
]

-- What the data is split into, and where the framed part ends.
pub record Splits (bs packets carry : List ℕ) : Type 0 where
  pub junk : List ℕ
  pub splits : bs ≡ junk ++ (packets ++ carry)
  pub skipped : NoSync junk
  pub whole : IsPackets packets
  pub longest : has_packet carry ≡ false

All-take {ℓ κ} : {A : Type ℓ} (P : A → Type κ) (n : ℕ) (xs : List A) → All P xs → All P (take n xs)
All-take P zero xs h = tt
All-take P (suc n) [] h = tt
All-take P (suc n) (x ∷ xs) h = (h.0, All-take P n xs h.1)

pub has_packet_short : (bs : List ℕ) → length bs < packet_size → has_packet bs ≡ false
has_packet_short bs h = elim (Bool-cases (has_packet bs)) [
  | inl e ↦ absurd (omega (arith, has_packet-le bs e))
  | inr e ↦ e
]

NoSync-Splits : (bs : List ℕ) → NoSync bs → Splits bs [] (keep_tail bs)
NoSync-Splits bs h = elim (Bool-cases (ltb (packet_size - 1) (length bs))) [
  | inl e ↦
      let n : ℕ = length bs - (packet_size - 1) in
      rw e (record {
        junk = take n bs;
        splits = sym (take-append-drop n bs);
        skipped = All-take (λ b. b ≢ sync_byte) n bs h;
        whole = nil;
        longest = has_packet_short (drop n bs) (omega (tests, e, length-drop n bs));
      })
  | inr e ↦ rw e (record {
    junk = [];
    splits = refl;
    skipped = tt;
    whole = nil;
    longest = has_packet_short bs (ground arith);
  })
]

-- `extract_framed` splits any data into bytes that hold no sync byte, whole packets in order, and a
-- carry at whose start no complete packet stands.
pub extract_framed-Splits : (bs : List ℕ) → Splits bs (extract_framed bs).0 (extract_framed bs).1
unfolding extract_framed
extract_framed-Splits bs = elim (Option-cases (find_sync bs)) [
  | inl e ↦ rw (e, extract_framed) (NoSync-Splits bs (find_sync-none bs e))
  | inr (from, e) ↦
      let (junk, split, clean) = find_sync-some bs e in
      rw (e, extract_framed)
        (record {
          junk = junk;
          splits = split ∙ ap (◌++◌ junk) (sym (take-append-drop (run_all from) from));
          skipped = clean;
          whole = run-IsPackets (length from) from;
          longest = run_stops (length from) from (omega arith);
        })
]
