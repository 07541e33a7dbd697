-- ===== src/Stream/Hls/Refused.antt =====
-- What the parser of playlists refuses, and the variant that is picked.
use tvr.Base.{
  ℕ, zero, suc, get_elem?, some, ◌≤◌, Bool, true, false, List, [], ◌∷◌, ltb, if◌then◌else◌, ◌≡◌,
  refl, inl, inr, arith, Text, All, trim_space, ok, Result-cases, codes, to_upper, has_prefix,
  is_empty, ◌++◌, ◌==◌, Bool-cases,
}
use tvr.Stream.Hls.Playlist.{
  HlsVariant, HlsPlaylist, Numbers, Line, key, byterange, map_tag, classify, Scan, scan_line,
  scan_lines, start, parse_hls_playlist, pick_variant,
}

-- The tags that the program cannot play.
abbrev pub unsupported : Line → Bool
unsupported key = true
unsupported byterange = true
unsupported map_tag = true
unsupported _ = false

-- A line that carries none of the three tags, in upper or lower case and behind spaces.
abbrev pub Supported : Text → Type 0
Supported raw =
    let line = to_upper (trim_space raw) in
    (has_prefix line (codes "#EXT-X-KEY:") ≡ false)
    × (has_prefix line (codes "#EXT-X-BYTERANGE:") ≡ false)
    × (has_prefix line (codes "#EXT-X-MAP:") ≡ false)

-- No text has two prefixes that part at some place.
prefixes_part :
    (w x y s : Text) (a b : ℕ)
    → (a == b) ≡ false
    → has_prefix s (w ++ a ∷ x) ≡ true
    → has_prefix s (w ++ b ∷ y) ≡ false
unfolding has_prefix
prefixes_part [] x y [] a b n h = refl
prefixes_part [] x y (c ∷ s) a b n h = ground arith
prefixes_part (v ∷ w) x y [] a b n h = refl
prefixes_part (v ∷ w) x y (c ∷ s) a b n h = elim (Bool-cases (c == v)) [
  | inl e ↦ rw e (prefixes_part w x y s a b n (rw e at h))
  | inr e ↦ rw e refl
]

-- Neither of the two tags that are looked for first is one of the three.
stream_inf_parts :
    (s : Text)
    → has_prefix s (codes "#EXT-X-STREAM-INF:") ≡ true
    → (has_prefix s (codes "#EXT-X-KEY:") ≡ false)
      × (has_prefix s (codes "#EXT-X-BYTERANGE:") ≡ false)
      × (has_prefix s (codes "#EXT-X-MAP:") ≡ false)
stream_inf_parts s h = (
  prefixes_part (codes "#EXT-X-") (codes "TREAM-INF:") (codes "EY:") s b'S' b'K' refl h,
  prefixes_part (codes "#EXT-X-") (codes "TREAM-INF:") (codes "YTERANGE:") s b'S' b'B' refl h,
  prefixes_part (codes "#EXT-X-") (codes "TREAM-INF:") (codes "AP:") s b'S' b'M' refl h,
)

media_parts :
    (s : Text)
    → has_prefix s (codes "#EXT-X-MEDIA:") ≡ true
    → (has_prefix s (codes "#EXT-X-KEY:") ≡ false)
      × (has_prefix s (codes "#EXT-X-BYTERANGE:") ≡ false)
      × (has_prefix s (codes "#EXT-X-MAP:") ≡ false)
media_parts s h = (
  prefixes_part (codes "#EXT-X-") (codes "EDIA:") (codes "EY:") s b'M' b'K' refl h,
  prefixes_part (codes "#EXT-X-") (codes "EDIA:") (codes "YTERANGE:") s b'M' b'B' refl h,
  prefixes_part (codes "#EXT-X-M") (codes "DIA:") (codes "P:") s b'E' b'A' refl h,
)

empty_parts :
    (line : Text)
    → is_empty line ≡ true
    → (has_prefix (to_upper line) (codes "#EXT-X-KEY:") ≡ false)
      × (has_prefix (to_upper line) (codes "#EXT-X-BYTERANGE:") ≡ false)
      × (has_prefix (to_upper line) (codes "#EXT-X-MAP:") ≡ false)
unfolding has_prefix to_upper
empty_parts [] h = (refl, refl, refl)
empty_parts (b ∷ line) h = cc

classify-Supported : (raw : Text) → unsupported (classify (trim_space raw)) ≡ false → Supported raw
unfolding classify
classify-Supported raw h =
    let line = trim_space raw in
    let s = to_upper line in
    elim (Bool-cases (is_empty line)) [
      | inl e ↦ empty_parts line e
      | inr e ↦ elim (Bool-cases (has_prefix s (codes "#EXT-X-STREAM-INF:"))) [
        | inl f ↦ stream_inf_parts s f
        | inr f ↦ elim (Bool-cases (has_prefix s (codes "#EXT-X-MEDIA:"))) [
          | inl g ↦ media_parts s g
          | inr g ↦ (ground arith, ground arith, ground arith)
        ]
      ]
    ]

module _ {F : Type 0} (num : Numbers F) where
  scan_line-ok :
      (l : Line) (line : Text) (c d : Scan num)
      → scan_line num l line c ≡ ok d
      → unsupported l ≡ false
  unfolding scan_line
  scan_line-ok l line c d e = ground arith

  scan_lines-ok :
      (lines : List Text) (c d : Scan num) → scan_lines num lines c ≡ ok d → All Supported lines
  unfolding scan_lines
  scan_lines-ok [] c d e = tt
  scan_lines-ok (raw ∷ lines) c d e =
      elim (Result-cases (scan_line num (classify (trim_space raw)) (trim_space raw) c)) [
        | inl (c', q) ↦ (
          classify-Supported raw (scan_line-ok (classify (trim_space raw)) (trim_space raw) c c' q),
          scan_lines-ok lines c' d (rw (q, scan_lines) at e),
        )
        | inr (x, q) ↦ absurd (ground (arith, e, q))
      ]

-- A playlist that parses has no line that begins, behind spaces and in upper or lower case, with the tag of a key, of a
-- byte range or of a map.
pub parse_hls_playlist-Supported :
    {F : Type 0} (num : Numbers F) (text : Text) (lines : List Text) (pl : HlsPlaylist F)
    → parse_hls_playlist num text lines ≡ ok pl
    → All Supported lines
unfolding parse_hls_playlist
parse_hls_playlist-Supported num text lines pl e =
    elim (Result-cases (scan_lines num lines (start num))) [
      | inl (c, q) ↦ scan_lines-ok num lines (start num) c q
      | inr (x, q) ↦ absurd (ground arith)
    ]

pick_variant-All :
    (best : HlsVariant) (vs : List HlsVariant)
    → All (λ v. v.bandwidth ≤ (pick_variant best vs).bandwidth) (best ∷ vs)
unfolding pick_variant
pick_variant-All best [] = (omega arith, tt)
pick_variant-All best (v ∷ vs) =
    let next : HlsVariant = if ltb best.bandwidth v.bandwidth then v else best in
    let (here, others) = pick_variant-All next vs in
    (ground (arith, here), (ground (arith, here), others))

-- The place of a variant when one of the first two was left out.
place :
    (b : Bool) (x v : HlsVariant) (vs : List HlsVariant) {r : HlsVariant}
    → (i : ℕ) × (get_elem? ((if b then v else x) ∷ vs) i ≡ some r)
    → (i : ℕ) × (get_elem? (x ∷ v ∷ vs) i ≡ some r)
place true x v vs (zero, e) = (1, e)
place false x v vs (zero, e) = (0, e)
place b x v vs (suc i, e) = (suc (suc i), e)

pick_variant-get_elem? :
    (best : HlsVariant) (vs : List HlsVariant)
    → (i : ℕ) × (get_elem? (best ∷ vs) i ≡ some (pick_variant best vs))
unfolding pick_variant
pick_variant-get_elem? best [] = (0, refl)
pick_variant-get_elem? best (v ∷ vs) =
    place (ltb best.bandwidth v.bandwidth) best v vs
      (pick_variant-get_elem? (if ltb best.bandwidth v.bandwidth then v else best) vs)

-- The variant that is picked is one of those given, and none has more bandwidth.
pub pick_variant-max :
    (best : HlsVariant) (vs : List HlsVariant)
    → ((i : ℕ) × (get_elem? (best ∷ vs) i ≡ some (pick_variant best vs)))
      × All (λ v. v.bandwidth ≤ (pick_variant best vs).bandwidth) (best ∷ vs)
pick_variant-max best vs = (pick_variant-get_elem? best vs, pick_variant-All best vs)
