-- ===== src/Stream/Hls/Seen.antt =====
-- internal/core/stream/hls.go, `seenSet`: the last segments seen, at most `max` of them.
use tvr.Base.{
  ℕ, suc, ◌+◌, ◌≤◌, ◌<◌, Bool, true, false, List, [], ◌∷◌, ◌++◌, Option, none, some, length, ltb,
  if◌then◌else◌, ◌≡◌, inl, inr, arith, Bool-cases, Text, text_eq, text_eq_iff, text_eq_self, Dict,
  lookup, insert, delete, text_key, lookup-insert, lookup-delete,
}

pub record SeenSet : Type 0 where
  pub max : ℕ
  pub items : Dict Text (Unit {0})
  pub order : List Text

unfoldable pub new_seen_set : ℕ → SeenSet
new_seen_set max = record { max = max; items = []; order = [] }

abbrev pub is_some {ℓ} : {A : Type ℓ} → Option A → Bool
is_some none = false
is_some (some a) = true

unfoldable pub has : Text → SeenSet → Bool
has uri s = is_some (lookup uri s.items)

-- The loop that forgets the oldest segments: `max` is not negative, so the list is not empty where it runs.
unfoldable pub forget : ℕ → List Text → Dict Text (Unit {0}) → List Text × Dict Text (Unit {0})
forget max [] items = ([], items)
forget max (old ∷ order) items =
    let rest = forget max order (delete old items) in
    if ltb max (length (old ∷ order)) then rest else (old ∷ order, items)

unfoldable pub add : Text → SeenSet → SeenSet
add uri s =
    let t = forget s.max (s.order ++ uri ∷ []) (insert uri tt s.items) in
    if has uri s then s else record s { order = t.0; items = t.1 }

abbrev pub count_of : Text → List Text → ℕ
count_of uri [] = 0
count_of uri (v ∷ vs) = if text_eq v uri then suc (count_of uri vs) else count_of uri vs

-- The two copies agree: a segment is in the map just when it stands in the list, once.
abbrev pub Agree : List Text → Dict Text (Unit {0}) → Type 0
Agree order items =
    (uri : Text) → count_of uri order ≡ (if is_some (lookup uri items) then 1 else 0)

count_of-append :
    (uri v : Text) (vs : List Text)
    → count_of uri (vs ++ v ∷ []) ≡ count_of uri vs + count_of uri (v ∷ [])
count_of-append uri v [] = omega arith
count_of-append uri v (w ∷ vs) = ground (arith, count_of-append uri v vs)

Agree-oldest :
    (old : Text) (order : List Text) (items : Dict Text (Unit {0}))
    → Agree (old ∷ order) items
    → Agree order (delete old items)
Agree-oldest old order items h uri =
    ground (arith, h uri, h old, text_eq_iff old uri, text_eq_self old, lookup-delete old uri items)

forget-Agree :
    (max : ℕ) (order : List Text) (items : Dict Text (Unit {0}))
    → Agree order items
    → Agree (forget max order items).0 (forget max order items).1
unfolding forget
forget-Agree max [] items h = h
forget-Agree max (old ∷ order) items h = elim (Bool-cases (ltb max (length (old ∷ order)))) [
  | inl e ↦ rw e (forget-Agree max order (delete old items) (Agree-oldest old order items h))
  | inr e ↦ rw e h
]

length-forget :
    (max : ℕ) (order : List Text) (items : Dict Text (Unit {0}))
    → length (forget max order items).0 ≤ max
unfolding forget
length-forget max [] items = omega arith
length-forget max (old ∷ order) items = ground (arith, length-forget max order (delete old items))

-- The newest segment is kept, where there is room for one.
forget-last :
    (max : ℕ) (order : List Text) (uri : Text) (items : Dict Text (Unit {0}))
    → 0 < max
    → 1 ≤ count_of uri (forget max (order ++ uri ∷ []) items).0
unfolding forget
forget-last max [] uri items h = ground (arith, text_eq_self uri)
forget-last max (old ∷ order) uri items h = ground (
  arith,
  forget-last max order uri (delete old items) h,
  count_of-append uri uri order,
  text_eq_self uri,
)

pub record IsSeen (s : SeenSet) : Type 0 where
  pub agree : Agree s.order s.items
  pub bounded : length s.order ≤ s.max

add-Agree :
    (uri : Text) (s : SeenSet)
    → has uri s ≡ false
    → Agree s.order s.items
    → Agree (s.order ++ uri ∷ []) (insert uri tt s.items)
unfolding has
add-Agree uri s e h v = ground (
  arith,
  count_of-append v uri s.order,
  h v,
  h uri,
  text_eq_iff uri v,
  lookup-insert uri v tt s.items,
)

-- Where the maximum is not zero, `add` keeps the map and the list in step, each segment once and no more than the
-- maximum, and the segment is seen then.
pub add-IsSeen :
    (uri : Text) (s : SeenSet)
    → IsSeen s
    → 0 < s.max
    → IsSeen (add uri s) × (has uri (add uri s) ≡ true)
unfolding add
add-IsSeen uri s h p = elim (Bool-cases (has uri s)) [
  | inl e ↦ rw e (h, e)
  | inr e ↦
      let items : Dict Text (Unit {0}) = insert uri tt s.items in
      let same = forget-Agree s.max (s.order ++ uri ∷ []) items (add-Agree uri s e h.agree) in
      rw e (
        record { agree = same; bounded = length-forget s.max (s.order ++ uri ∷ []) items },
        unfold has in ground (arith, same uri, forget-last s.max s.order uri items p),
      )
]
