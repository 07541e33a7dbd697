-- ===== src/Channeltxt/Accepts.antt =====
-- What the rows of a channel list are.
use tvr.Base.{
  ℕ, suc, true, false, List, [], ◌∷◌, some, ◌≡◌, ◌⊎◌, inl, inr, arith, Bool-cases, Option-cases,
  Text, is_empty, trim_space, All, Result, ok, err, Result-cases, subst, Bool, none, sym, refl, ap,
  ◌<◌, ◌++◌, ◌&&◌, ◌||◌, ◌==◌, length, take, drop, ltb, codes, contains, any, is_space,
  last_index_by, some_inj, some_ne_none, length-take, length-drop, trim_space_idem,
}
use tvr.Upstream.Resolve.{valid_proxied_link}
use tvr.Channeltxt.{
  Entry, ParseError, is_http_target, valid_host_port, split_target, cut_row, is_skipped, parse_row,
  and_rest, parse_lines, parse,
}

-- A host and a port: no scheme, no blank, and a last colon with something before it and something behind it.
pub record IsHostPort (url : Text) : Type 0 where
  pub host : Text
  pub port : Text
  pub parts : url ≡ host ++ b':' ∷ port
  pub some_host : 0 < length host
  pub some_port : 0 < length port
  pub port_plain : All (λ b. (b == b':') ≡ false) port
  pub no_scheme : contains url (codes "://") ≡ false
  pub no_blank : All (λ b. is_space b ≡ false) url

-- A row has a name, and names a proxy only beside a host and a port.
pub record IsRow (e : Entry) : Type 0 where
  pub has_name : is_empty e.name ≡ false
  pub target : (e.proxy_name ≡ []) ⊎ (IsHostPort e.url × (is_empty e.proxy_name ≡ false))

-- Where the last byte that passes is.
last_index_by-none : (p : ℕ → Bool) (s : Text) → last_index_by p s ≡ none → All (λ b. p b ≡ false) s
unfolding last_index_by
last_index_by-none p [] h = tt
last_index_by-none p (c ∷ s) h = elim (Option-cases (last_index_by p s)) [
  | inr (k, e) ↦ absurd (some_ne_none (rw (e, last_index_by) at h))
  | inl e ↦ elim (Bool-cases (p c)) [
    | inl f ↦ absurd (some_ne_none (rw (e, f, last_index_by) at h))
    | inr f ↦ (f, last_index_by-none p s e)
  ]
]

last_index_by-parts :
    (p : ℕ → Bool) (s : Text) (i : ℕ)
    → last_index_by p s ≡ some i
    → (c : ℕ) × (p c ≡ true)
      × (s ≡ take i s ++ c ∷ drop (suc i) s)
      × All (λ b. p b ≡ false) (drop (suc i) s)
      × (i < length s)
unfolding last_index_by
last_index_by-parts p [] i h = absurd (some_ne_none (sym h))
last_index_by-parts p (c ∷ s) i h = elim (Option-cases (last_index_by p s)) [
  | inl e ↦ elim (Bool-cases (p c)) [
    | inr f ↦ absurd (some_ne_none (sym (rw (e, f, last_index_by) at h)))
    | inl f ↦
        let first : 0 ≡ i = some_inj (rw (e, f, last_index_by) at h) in
        subst
          (λ k.
            (d : ℕ) × (p d ≡ true)
            × (c ∷ s ≡ take k (c ∷ s) ++ d ∷ drop (suc k) (c ∷ s))
            × All (λ b. p b ≡ false) (drop (suc k) (c ∷ s))
            × (k < length (c ∷ s)))
          first (c, f, refl, last_index_by-none p s e, omega arith)
  ]
  | inr (k, e) ↦
      let (d, f, parts, plain, less) = last_index_by-parts p s k e in
      let next : suc k ≡ i = some_inj (rw (e, last_index_by) at h) in
      subst
        (λ k.
          (d : ℕ) × (p d ≡ true)
          × (c ∷ s ≡ take k (c ∷ s) ++ d ∷ drop (suc k) (c ∷ s))
          × All (λ b. p b ≡ false) (drop (suc k) (c ∷ s))
          × (k < length (c ∷ s)))
        next (d, f, ap (◌∷◌ c) parts, plain, omega (arith, less))
]

any-none :
    (p q : ℕ → Bool) (s : Text)
    → ((b : ℕ) → p b ≡ false → q b ≡ false)
    → any p s ≡ false
    → All (λ b. q b ≡ false) s
any-none p q [] w h = tt
any-none p q (b ∷ s) w h = elim (Bool-cases (p b)) [
  | inl e ↦ absurd (ground arith)
  | inr e ↦ (w b e, any-none p q s w (ground arith))
]

valid_host_port-IsHostPort :
    (url : Text) → trim_space url ≡ url → valid_host_port url ≡ true → IsHostPort url
unfolding valid_host_port valid_proxied_link
valid_host_port-IsHostPort url t h = elim (Option-cases (last_index_by (λ b. b == b':') url)) [
  | inl e ↦ absurd (ground arith)
  | inr (i, e) ↦
      let (c, f, parts, plain, less) = last_index_by-parts (λ b. b == b':') url i e in
      let colon : c ≡ b':' = ground arith in
      let ports : (ltb 0 i && ltb (suc i) (length url)) ≡ true = ground arith in
      let no_scheme : contains (trim_space url) (codes "://") ≡ false = ground arith in
      let no_blank : any (λ r. is_space r || r == 0) (trim_space url) ≡ false = ground arith in
      record {
        host = take i url;
        port = drop (suc i) url;
        parts = subst (λ x. url ≡ take i url ++ x ∷ drop (suc i) url) colon parts;
        some_host = ground (arith, length-take i url (omega (arith, less)));
        some_port = ground (arith, length-drop (suc i) url);
        port_plain = plain;
        no_scheme = subst (λ x. contains x (codes "://") ≡ false) t no_scheme;
        no_blank =
            any-none (λ r. is_space r || r == 0) is_space url (λ b x. ground arith)
              (subst (λ x. any (λ r. is_space r || r == 0) x ≡ false) t no_blank);
      }
]

split_target-target :
    (raw : Text) {t : Text × Text}
    → split_target raw ≡ some t
    → (t.1 ≡ []) ⊎ ((trim_space t.0 ≡ t.0) × (valid_host_port t.0 ≡ true) × (is_empty t.1 ≡ false))
unfolding split_target
split_target-target raw h = elim (Bool-cases (is_http_target raw)) [
  | inl e ↦ inl (ground arith)
  | inr e ↦ elim (Option-cases (last_index_by (λ b. b == b'@') raw)) [
    | inl f ↦ inl (ground arith)
    | inr (at, f) ↦ inr (ground (arith, trim_space_idem (take at raw)), ground arith, ground arith)
  ]
]

split_target-valid :
    (raw : Text) {t : Text × Text}
    → split_target raw ≡ some t
    → (t.1 ≡ []) ⊎ (IsHostPort t.0 × (is_empty t.1 ≡ false))
unfolding split_target
split_target-valid raw {t} h = elim (split_target-target raw {t = t} h) [
  | inl e ↦ inl e
  | inr (trimmed, valid, full) ↦ inr (valid_host_port-IsHostPort t.0 trimmed valid, full)
]

cut_row-named : (line : Text) {r : Text × Text} → cut_row line ≡ some r → is_empty r.0 ≡ false
unfolding cut_row
cut_row-named line h = ground arith

-- What holds of a result that is no error.
abbrev OnOk {ℓ} : {A : Type 0} → (A → Type ℓ) → Result ParseError A → Type ℓ
OnOk P (ok a) = P a
OnOk P (err e) = Unit

parse_row-IsRow : (n : ℕ) (line : Text) → OnOk IsRow (parse_row n line)
unfolding parse_row
parse_row-IsRow n line = elim (Option-cases (cut_row line)) [
  | inl e ↦ rw (e, OnOk) tt
  | inr (row, e) ↦ elim (Option-cases (split_target row.1)) [
    | inl f ↦ rw (e, OnOk) (rw (f, OnOk) tt)
    | inr (t, f) ↦
        rw (e, OnOk)
          (rw (f, OnOk)
            (record { has_name = cut_row-named line e; target = split_target-valid row.1 f }))
  ]
]

and_rest-IsRow :
    (e : Entry) (r : Result ParseError (List Entry))
    → IsRow e
    → OnOk (All IsRow) r
    → OnOk (All IsRow) (and_rest e r)
and_rest-IsRow e (ok es) h k = (h, k)
and_rest-IsRow e (err x) h k = tt

parse_lines-IsRow : (n : ℕ) (lines : List Text) → OnOk (All IsRow) (parse_lines n lines)
unfolding parse_lines
parse_lines-IsRow n [] = tt
parse_lines-IsRow n (raw ∷ lines) =
    let rest = parse_lines-IsRow (suc n) lines in
    elim (Bool-cases (is_skipped (trim_space raw))) [
      | inl s ↦ rw s rest
      | inr s ↦ elim (Result-cases (parse_row n (trim_space raw))) [
        | inr (x, e) ↦ rw s (rw e tt)
        | inl (row, e) ↦ rw s (
            rw e (
              and_rest-IsRow row (parse_lines (suc n) lines)
                (subst (OnOk IsRow) e (parse_row-IsRow n (trim_space raw))) rest))
      ]
    ]

-- Every row that `parse` accepts has a name, and either names no proxy or names one beside a host and a port that a
-- colon parts, with no scheme and no blank.
pub parse-IsRow : (lines : List Text) {es : List Entry} → parse lines ≡ ok es → All IsRow es
unfolding parse
parse-IsRow lines e = subst (OnOk (All IsRow)) e (parse_lines-IsRow 1 lines)
