-- ===== src/Mpegts/Frame/Chunks.antt =====
-- Reading in chunks: the carry of one read is put in front of the next, as `copyMPEGTS` does.
use tvr.Base.{
  ℕ, ◌+◌, ◌<◌, none, some, List, [], ◌∷◌, ◌++◌, length, take, drop, ◌≡◌, refl, sym, ap, ◌∙◌, inl,
  inr, arith, Option-cases, take-add, drop-add, take-append_le, drop-append_le, append_assoc,
  append-nil, subst,
}
use tvr.Mpegts.Header.{packet_size}
use tvr.Mpegts.Frame.Split.{run-le, run_step_false, has_packet_short, run_stops}
use tvr.Mpegts.Frame.{find_sync, run_all, extract_framed, keep_tail}
use tvr.Mpegts.Frame.Carry.{
  feed, concat, find_sync-append_none, find_sync-append_some, find_sync-keep_tail, length-keep_tail,
  run-append, extract_framed-none, extract_framed-some, extract_framed_restart, carry_short,
}

module _ (a b : List ℕ) where
  -- Data with no sync byte leaves nothing that matters behind.
  skip-append :
      find_sync a ≡ none
      → let next = extract_framed (keep_tail a ++ b) in
        length (extract_framed (a ++ b)).1 < packet_size
        → ((extract_framed (a ++ b)).0 ≡ next.0)
          × (length next.1 < packet_size)
          × (length (keep_tail a) < packet_size)
  skip-append e h =
      let all = find_sync-append_none a b e in
      let kept = find_sync-append_none (keep_tail a) b (find_sync-keep_tail a e) in
      elim (Option-cases (find_sync b)) [
        | inl none' ↦
            rw
              (
                extract_framed-none (a ++ b) (all ∙ none'),
                extract_framed-none (keep_tail a ++ b) (kept ∙ none'),
              )
              (refl, length-keep_tail (keep_tail a ++ b), length-keep_tail a)
        | inr (w, found) ↦
            let whole = extract_framed-some (a ++ b) (all ∙ found) in
            rw (whole, extract_framed-some (keep_tail a ++ b) (kept ∙ found))
              (
                refl,
                subst (λ (r : List ℕ × List ℕ). length r.1 < packet_size) whole h,
                length-keep_tail a,
              )
      ]

  -- Data with a sync byte: the longer run begins with the shorter one.
  framed-append :
      {x : List ℕ}
      → find_sync a ≡ some x
      → let n = run_all x in
        let next = extract_framed (drop n x ++ b) in
        length (extract_framed (a ++ b)).1 < packet_size
        → ((extract_framed (a ++ b)).0 ≡ take n x ++ next.0)
          × (length next.1 < packet_size)
          × (length (drop n x) < packet_size)
  framed-append {x} e h =
      let n : ℕ = run_all x in
      let y : List ℕ = drop n x ++ b in
      let k : ℕ = run_all y in
      let le = run-le (length x) x in
      let grows : run_all (x ++ b) ≡ n + k =
        run-append (length x) (length (x ++ b)) (length y) x b (omega arith) (omega arith)
          (omega arith) in
      let over : drop n (x ++ b) ≡ y = drop-append_le n x b le in
      let whole = extract_framed-some (a ++ b) (find_sync-append_some a b e) in
      let first : take (run_all (x ++ b)) (x ++ b) ≡ take n x ++ take k y =
        ap (λ m. take m (x ++ b)) grows
        ∙ take-add n k (x ++ b)
        ∙ rw (over, take-append_le n x b le) refl in
      let second : drop (run_all (x ++ b)) (x ++ b) ≡ drop k y =
        ap (λ m. drop m (x ++ b)) grows ∙ drop-add n k (x ++ b) ∙ ap (drop k) over in
      let short : length (drop k y) < packet_size =
        subst (λ l. length l < packet_size) (ap (λ (r : List ℕ × List ℕ). r.1) whole ∙ second) h in
      let (same, less) = extract_framed_restart y short in
      (
        ap (λ (r : List ℕ × List ℕ). r.0) whole ∙ first ∙ ap (λ l. take n x ++ l) (sym same),
        less,
        carry_short (drop n x) b (run_stops (length x) x (omega arith)) short,
      )

-- Extraction of more data is that of the first part, and then that of its carry with the rest.
extract_framed-append :
    (a b : List ℕ)
    → length (extract_framed (a ++ b)).1 < packet_size
    → let next = extract_framed ((extract_framed a).1 ++ b) in
      ((extract_framed (a ++ b)).0 ≡ (extract_framed a).0 ++ next.0)
      × (length next.1 < packet_size)
      × (length (extract_framed a).1 < packet_size)
extract_framed-append a b h = elim (Option-cases (find_sync a)) [
  | inl e ↦ rw (extract_framed-none a e) (skip-append a b e h)
  | inr (x, e) ↦ rw (extract_framed-some a e) (framed-append a b e h)
]

extract_framed_short : (y : List ℕ) → length y < packet_size → (extract_framed y).0 ≡ []
extract_framed_short y h =
    let stop = run_step_false (length y) y (has_packet_short y h) in
    (extract_framed_restart y (rw stop h)).0 ∙ rw stop refl

feed_lem :
    (carry : List ℕ) (chunks : List (List ℕ))
    → length (extract_framed (carry ++ concat chunks)).1 < packet_size
    → length carry < packet_size
    → (feed carry chunks).0 ≡ (extract_framed (carry ++ concat chunks)).0
unfolding feed
feed_lem carry [] h c = rw append-nil (sym (extract_framed_short carry c))
feed_lem carry (chunk ∷ chunks) h c =
    let regroup = append_assoc carry chunk (concat chunks) in
    let (same, less, short) =
      extract_framed-append (carry ++ chunk) (concat chunks)
        (subst (λ l. length (extract_framed l).1 < packet_size) (sym regroup) h) in
    ap (λ l. (extract_framed (carry ++ chunk)).0 ++ l)
      (feed_lem (extract_framed (carry ++ chunk)).1 chunks less short)
    ∙ sym same
    ∙ ap (λ l. (extract_framed l).0) regroup

-- Where the data taken at once leaves less than a packet over, reading it in chunks of any sizes
-- frames the same bytes.
pub feed-extract_framed :
    (chunks : List (List ℕ))
    → length (extract_framed (concat chunks)).1 < packet_size
    → (feed [] chunks).0 ≡ (extract_framed (concat chunks)).0
feed-extract_framed chunks h = feed_lem [] chunks h (omega arith)
