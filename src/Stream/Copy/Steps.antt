-- ===== src/Stream/Copy/Steps.antt =====
-- internal/core/stream/copy.go: what a copy that still reads has sent.
use tvr.Base.{
  ℕ, ◌+◌, ◌≤◌, false, true, ◌||◌, List, [], ◌∷◌, ◌++◌, Option, none, length, ltb, ◌==◌, ◌≡◌, ◌⊎◌,
  refl, sym, ap, ◌∙◌, subst, inl, inr, arith, Bool-cases, Option-cases, ok, Result-cases,
  length-append, if◌then◌else◌,
}
use tvr.Stream.Session.{Session, streaming, StreamError}
use tvr.Stream.Viewers.{viewer_count}
use tvr.Stream.Calls.{Call, media, sets, ready, step, steps}
use tvr.Mpegts.Frame.{extract_framed}
use tvr.Mpegts.Frame.Carry.{feed}
use tvr.Stream.Copy.{
  CopyOptions, Pass, Copying, reads_on, returns, is_nonempty, over_limit, send_media, take_bytes,
  copy_loop, copy_mpegts,
}

-- What reaches the session: media, each followed by the state and by readiness. The list is the media together.
pub data IsSent : List Call → List ℕ → Type 0 where
  nothing : IsSent [] []
  sends :
      {cs : List Call} {rest : List ℕ} (framed : List ℕ) (now : ℕ)
      → is_nonempty framed ≡ true
      → IsSent cs rest
      → IsSent (media framed ∷ sets streaming [] ∷ ready now ∷ cs) (framed ++ rest)

abbrev pub all_bytes : List Pass → List ℕ
all_bytes [] = []
all_bytes (r ∷ rs) = r.bytes ++ all_bytes rs

-- The reads that bring bytes.
abbrev pub chunks : List Pass → List (List ℕ)
chunks [] = []
chunks (r ∷ rs) = if is_nonempty r.bytes then r.bytes ∷ chunks rs else chunks rs

-- The copy from `c` to `c'` over the passes.
pub record Copied (opts : CopyOptions) (rs : List Pass) (c c' : Copying) : Type 0 where
  pub calls : List Call
  pub reached : c'.session ≡ steps calls c.session
  pub sent : IsSent calls (feed c.carry (chunks rs)).0
  pub left : c'.carry ≡ (feed c.carry (chunks rs)).1
  pub counted : ltb 0 opts.max_bytes ≡ true → c'.total ≡ c.total + length (all_bytes rs)
  pub limited : ltb 0 opts.max_bytes ≡ true → c.total ≤ opts.max_bytes → c'.total ≤ opts.max_bytes

send_media-steps :
    (now : ℕ) (framed : List ℕ) (cs : List Call) (s : Session)
    → steps (media framed ∷ sets streaming [] ∷ ready now ∷ cs) s
      ≡ steps cs (send_media now framed s)
unfolding send_media steps step
send_media-steps now framed cs s = refl

-- What a pass that brings bytes and does not fail leaves.
record Took (opts : CopyOptions) (r : Pass) (c c' : Copying) : Type 0 where
  carried : c'.carry ≡ (extract_framed (c.carry ++ r.bytes)).1
  totalled : ltb 0 opts.max_bytes ≡ true → c'.total ≡ c.total + length r.bytes
  within : ltb 0 opts.max_bytes ≡ true → c.total + length r.bytes ≤ opts.max_bytes
  told :
      ((is_nonempty (extract_framed (c.carry ++ r.bytes)).0 ≡ true)
        × (c'.session ≡ send_media r.now (extract_framed (c.carry ++ r.bytes)).0 c.session))
      ⊎ ((is_nonempty (extract_framed (c.carry ++ r.bytes)).0 ≡ false) × (c'.session ≡ c.session))

take_bytes-empty :
    (opts : CopyOptions) (r : Pass) (c c' : Copying)
    → is_nonempty r.bytes ≡ false
    → take_bytes opts r c ≡ ok c'
    → c' ≡ c
unfolding take_bytes
take_bytes-empty opts r c c' e h = ground arith

take_bytes-Took :
    (opts : CopyOptions) (r : Pass) (c c' : Copying)
    → is_nonempty r.bytes ≡ true
    → take_bytes opts r c ≡ ok c'
    → Took opts r c c'
unfolding take_bytes over_limit
take_bytes-Took opts r c c' e h = record {
  carried = ground arith;
  totalled = λ m. ground arith;
  within = λ m. ground arith;
  told = ground arith;
}

empty_front : (xs ys : List ℕ) → is_nonempty xs ≡ false → ys ≡ xs ++ ys
empty_front [] ys e = refl
empty_front (x ∷ xs) ys e = cc

Copied-empty :
    (opts : CopyOptions) (r : Pass) (rs : List Pass) (c c' : Copying)
    → is_nonempty r.bytes ≡ false
    → Copied opts rs c c'
    → Copied opts (r ∷ rs) c c'
Copied-empty opts r rs c c' e h = record {
  calls = h.calls;
  reached = h.reached;
  sent = rw e h.sent;
  left = rw e h.left;
  counted =
      λ m. h.counted m ∙ ap (λ xs. c.total + length xs) (empty_front r.bytes (all_bytes rs) e);
  limited = h.limited;
}

ends : (e : Option StreamError) → returns e ≡ reads_on → ⊥
ends e h = cc

-- One more pass in front.
Copied-cons :
    (opts : CopyOptions) (r : Pass) (rs : List Pass) (c c1 c' : Copying)
    → is_nonempty r.bytes ≡ true
    → Took opts r c c1
    → Copied opts rs c1 c'
    → Copied opts (r ∷ rs) c c'
unfolding feed
Copied-cons opts r rs c c1 c' e k h =
    let split = extract_framed (c.carry ++ r.bytes) in
    let same : feed c1.carry (chunks rs) ≡ feed split.1 (chunks rs) =
      ap (λ y. feed y (chunks rs)) k.carried in
    let counted : ltb 0 opts.max_bytes ≡ true → c'.total ≡ c.total + length (all_bytes (r ∷ rs)) =
      λ m. omega (arith, h.counted m, k.totalled m, length-append r.bytes (all_bytes rs)) in
    let limited : ltb 0 opts.max_bytes ≡ true
        → c.total ≤ opts.max_bytes
        → c'.total ≤ opts.max_bytes =
      λ m l. h.limited m (omega (arith, k.totalled m, k.within m)) in
    let sent : IsSent h.calls (feed split.1 (chunks rs)).0 =
      subst (λ x. IsSent h.calls x.0) same h.sent in
    let left : c'.carry ≡ (feed split.1 (chunks rs)).1 = h.left ∙ ap (λ x. x.1) same in
    elim k.told [
      | inl (full, told) ↦ record {
        calls = media split.0 ∷ sets streaming [] ∷ ready r.now ∷ h.calls;
        reached =
            h.reached
            ∙ ap (steps h.calls) told
            ∙ sym (send_media-steps r.now split.0 h.calls c.session);
        sent = rw e (sends split.0 r.now full sent);
        left = rw e left;
        counted = counted;
        limited = limited;
      }
      | inr (none', told) ↦ record {
        calls = h.calls;
        reached = h.reached ∙ ap (steps h.calls) told;
        sent = rw e (subst (IsSent h.calls) (empty_front split.0 _ none') sent);
        left = rw e left;
        counted = counted;
        limited = limited;
      }
    ]

copy_loop-Copied :
    (opts : CopyOptions) (rs : List Pass) (c : Copying)
    → (copy_loop opts rs c).1 ≡ reads_on
    → Copied opts rs c (copy_loop opts rs c).0
unfolding copy_loop feed steps
copy_loop-Copied opts [] c h = record {
  calls = [];
  reached = refl;
  sent = nothing;
  left = refl;
  counted = λ m. omega arith;
  limited = λ m l. l;
}
copy_loop-Copied opts (r ∷ rs) c h = elim (Bool-cases (r.quits || viewer_count c.session == 0)) [
  | inl q ↦ absurd (ends none (rw q at h))
  | inr q ↦ elim (Result-cases (take_bytes opts r c)) [
    | inr (x, e) ↦ absurd (ground (arith, q, e, h))
    | inl (c', e) ↦ elim (Option-cases r.read_err) [
      | inr (x, f) ↦ absurd (ground (arith, q, e, f, h))
      | inl f ↦
          let go : copy_loop opts (r ∷ rs) c ≡ copy_loop opts rs c' = rw (q, e, f) refl in
          let rest = copy_loop-Copied opts rs c' (ap (λ x. x.1) (sym go) ∙ h) in
          let last = (copy_loop opts rs c').0 in
          subst (λ x. Copied opts (r ∷ rs) c x.0) (sym go)
            elim (Bool-cases (is_nonempty r.bytes)) [
              | inl b ↦ Copied-cons opts r rs c c' last b (take_bytes-Took opts r c c' b e) rest
              | inr b ↦
                  Copied-empty opts r rs c last b
                    (subst (λ x. Copied opts rs x last) (take_bytes-empty opts r c c' b e) rest)
            ]
    ]
  ]
]

-- A copy that has not returned has sent the viewers just what framing its reads one after another gives, the carry of each in
-- front of the next, where each framed part is followed by the state `streaming` and by readiness; reads without bytes
-- count for nothing. Its carry is what the framing leaves, and under a limit the reads have no more bytes together.
pub copy_mpegts-Copied :
    (opts : CopyOptions) (rs : List Pass) (s : Session)
    → (copy_mpegts opts rs s).1 ≡ reads_on
    → (cs : List Call) × ((copy_mpegts opts rs s).0.session ≡ steps cs s)
      × IsSent cs (feed [] (chunks rs)).0
      × ((copy_mpegts opts rs s).0.carry ≡ (feed [] (chunks rs)).1)
      × (ltb 0 opts.max_bytes ≡ true → length (all_bytes rs) ≤ opts.max_bytes)
unfolding copy_mpegts
copy_mpegts-Copied opts rs s h =
    let start : Copying = record {
      session = s;
      carry = [];
      probed = 0;
      total = 0;
      got_media = false;
    } in
    let k = copy_loop-Copied opts rs start h in
    (k.calls, k.reached, k.sent, k.left, λ m. omega (arith, k.counted m, k.limited m (omega arith)))
