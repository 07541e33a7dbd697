-- ===== src/Stream/Packets/Keyframe.antt =====
-- What `keyframe_suffix` finds.
use tvr.Base.{
  ℕ, zero, suc, ◌≤◌, ◌<◌, Bool, true, false, List, none, some, length, take, drop, leb, leb→le, ◌≡◌,
  refl, sym, ◌∙◌, inl, inr, arith, some_inj, some_ne_none, Bool-cases, length-drop,
}
use tvr.Mpegts.Header.{packet_size, has_random_access}
use tvr.Stream.Packets.{keyframe_loop, keyframe_suffix}

-- The data from its packet number `n` on.
abbrev pub packets_from : ℕ → List ℕ → List ℕ
packets_from zero bytes = bytes
packets_from (suc n) bytes = packets_from n (drop packet_size bytes)

-- Packet number `n` of the data has the random-access flag.
abbrev pub flag_at : ℕ → List ℕ → Bool
flag_at n bytes = has_random_access (take packet_size (packets_from n bytes))

abbrev pub IsWhole : ℕ → List ℕ → Type 0
IsWhole n bytes = packet_size ≤ length (packets_from n bytes)

length-packets_from : (n : ℕ) (bytes : List ℕ) → length (packets_from n bytes) ≤ length bytes
length-packets_from zero bytes = omega arith
length-packets_from (suc n) bytes =
    omega (arith, length-packets_from n (drop packet_size bytes), length-drop packet_size bytes)

loop_short :
    (fuel : ℕ) (bytes : List ℕ)
    → leb packet_size (length bytes) ≡ false
    → keyframe_loop fuel bytes ≡ none
unfolding keyframe_loop
loop_short zero bytes e = refl
loop_short (suc fuel) bytes e = rw e refl

loop_hit :
    (fuel : ℕ) (bytes : List ℕ)
    → leb packet_size (length bytes) ≡ true
    → has_random_access (take packet_size bytes) ≡ true
    → keyframe_loop (suc fuel) bytes ≡ some bytes
unfolding keyframe_loop
loop_hit fuel bytes e f = rw e (rw f refl)

loop_miss :
    (fuel : ℕ) (bytes : List ℕ)
    → leb packet_size (length bytes) ≡ true
    → has_random_access (take packet_size bytes) ≡ false
    → keyframe_loop (suc fuel) bytes ≡ keyframe_loop fuel (drop packet_size bytes)
unfolding keyframe_loop
loop_miss fuel bytes e f = rw e (rw f refl)

-- The first flagged packet that is whole, with all that follows it.
pub record FirstFlag (bytes cut : List ℕ) : Type 0 where
  pub place : ℕ
  pub cut_there : cut ≡ packets_from place bytes
  pub whole : IsWhole place bytes
  pub flagged : flag_at place bytes ≡ true
  pub first : (m : ℕ) → m < place → flag_at m bytes ≡ false

first_later :
    (bytes : List ℕ) (place : ℕ)
    → has_random_access (take packet_size bytes) ≡ false
    → ((m : ℕ) → m < place → flag_at m (drop packet_size bytes) ≡ false)
    → (m : ℕ) → m < suc place
    → flag_at m bytes ≡ false
first_later bytes place e h zero l = e
first_later bytes place e h (suc m) l = h m (omega arith)

keyframe_loop-FirstFlag :
    (fuel : ℕ) (bytes : List ℕ) {cut : List ℕ}
    → keyframe_loop fuel bytes ≡ some cut
    → FirstFlag bytes cut
keyframe_loop-FirstFlag zero bytes h = absurd (no_fuel bytes h)
  where
    no_fuel : (bs : List ℕ) {c : List ℕ} → keyframe_loop zero bs ≡ some c → ⊥
    no_fuel bs e = unfold keyframe_loop in cc
keyframe_loop-FirstFlag (suc fuel) bytes h = elim (Bool-cases (leb packet_size (length bytes))) [
  | inr e ↦ absurd (some_ne_none (sym h ∙ loop_short (suc fuel) bytes e))
  | inl e ↦ elim (Bool-cases (has_random_access (take packet_size bytes))) [
    | inl f ↦ record {
      place = 0;
      cut_there = some_inj (sym h ∙ loop_hit fuel bytes e f);
      whole = leb→le _ _ e;
      flagged = f;
      first = λ m l. absurd (omega arith);
    }
    | inr f ↦
        let r =
          keyframe_loop-FirstFlag fuel (drop packet_size bytes)
            (sym (loop_miss fuel bytes e f) ∙ h) in
        record {
          place = suc r.place;
          cut_there = r.cut_there;
          whole = r.whole;
          flagged = r.flagged;
          first = first_later bytes r.place f r.first;
        }
  ]
]

keyframe_loop-none :
    (fuel : ℕ) (bytes : List ℕ) (n : ℕ)
    → length bytes ≤ fuel
    → keyframe_loop fuel bytes ≡ none
    → IsWhole n bytes
    → flag_at n bytes ≡ false
keyframe_loop-none zero bytes n l h w = absurd (omega (arith, length-packets_from n bytes))
keyframe_loop-none (suc fuel) bytes n l h w = elim (Bool-cases (leb packet_size (length bytes))) [
  | inr e ↦
      let short : length bytes < packet_size = ground arith in
      absurd (omega (arith, length-packets_from n bytes))
  | inl e ↦ elim (Bool-cases (has_random_access (take packet_size bytes))) [
    | inl f ↦ absurd (some_ne_none (sym (loop_hit fuel bytes e f) ∙ h))
    | inr f ↦
        later n w
          (λ m v.
            keyframe_loop-none fuel (drop packet_size bytes) m
              (omega (arith, length-drop packet_size bytes, leb→le _ _ e))
              (sym (loop_miss fuel bytes e f) ∙ h) v)
          f
  ]
]
  where
    later :
        (m : ℕ)
        → IsWhole m bytes
        → ((k : ℕ)
            → IsWhole k (drop packet_size bytes)
            → flag_at k (drop packet_size bytes) ≡ false)
        → has_random_access (take packet_size bytes) ≡ false
        → flag_at m bytes ≡ false
    later zero v ih f = f
    later (suc m) v ih f = ih m v

-- `keyframe_suffix` cuts at the first whole packet that is flagged.
pub keyframe_suffix-some :
    (bytes : List ℕ) {cut : List ℕ} → keyframe_suffix bytes ≡ some cut → FirstFlag bytes cut
unfolding keyframe_suffix
keyframe_suffix-some bytes h = keyframe_loop-FirstFlag (length bytes) bytes h

-- `keyframe_suffix` finds nothing only where no whole packet is flagged.
pub keyframe_suffix-none :
    (bytes : List ℕ) (n : ℕ)
    → keyframe_suffix bytes ≡ none
    → IsWhole n bytes
    → flag_at n bytes ≡ false
unfolding keyframe_suffix
keyframe_suffix-none bytes n h w = keyframe_loop-none (length bytes) bytes n (omega arith) h w
