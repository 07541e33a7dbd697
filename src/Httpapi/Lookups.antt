-- ===== src/Httpapi/Lookups.antt =====
-- internal/core/m3u/parser.go: what is found under a key when attributes are put in one after another.
use tvr.Base.{
  ℕ, ◌+◌, ◌<◌, Bool, true, false, List, [], ◌∷◌, All, Option, none, some, if◌then◌else◌, Text,
  is_empty, is_space, any, trim_space, text_eq, Dict, lookup, insert, lookup-insert, text_key, ◌≡◌,
  refl, ◌∙◌, arith,
}
use tvr.Stream.Copy.{decimal}
use tvr.M3u.{Entry, first_attr, or_blank}
use tvr.M3u.Attrs.{put_all}
use tvr.M3u.Numbers.{any-decimal}
use tvr.Httpapi.{unless}

-- What is found under a key that was not there before, and that a key is not among the attributes.
abbrev pub Reads : Text → List (Text × Text) → Option Text → Type 0
Reads k attrs o = (d : Dict Text Text) → lookup k d ≡ none → lookup k (put_all attrs d) ≡ o

abbrev pub Keeps : Text → List (Text × Text) → Type 0
Keeps k attrs = (d : Dict Text Text) → lookup k (put_all attrs d) ≡ lookup k d

lookup-insert_other :
    (k j v : Text) (d : Dict Text Text) → text_eq j k ≡ false → lookup k (insert j v d) ≡ lookup k d
lookup-insert_other k j v d h = lookup-insert j k v d ∙ rw h refl

pub Keeps-nil : (k : Text) → Keeps k []
Keeps-nil k d = refl

pub Keeps-unless :
    (k : Text) (skip : Bool) (j v : Text) (rest : List (Text × Text))
    → text_eq j k ≡ false
    → Keeps k rest
    → Keeps k (unless skip (j, v) rest)
Keeps-unless k true j v rest n h d = h d
Keeps-unless k false j v rest n h d = h (insert j v d) ∙ lookup-insert_other k j v d n

pub Reads-unless :
    (k : Text) (skip : Bool) (j v : Text) (rest : List (Text × Text)) (o : Option Text)
    → text_eq j k ≡ false
    → Reads k rest o
    → Reads k (unless skip (j, v) rest) o
Reads-unless k true j v rest o n h d f = h d f
Reads-unless k false j v rest o n h d f = h (insert j v d) (lookup-insert_other k j v d n ∙ f)

pub Reads-here :
    (k : Text) (skip : Bool) (v : Text) (rest : List (Text × Text))
    → text_eq k k ≡ true
    → Keeps k rest
    → Reads k (unless skip (k, v) rest) (if skip then none else some v)
Reads-here k true v rest n h d f = h d ∙ f
Reads-here k false v rest n h d f = h (insert k v d) ∙ (lookup-insert k k v d ∙ rw n refl)

-- A field that is left out where it is blank.
abbrev pub field : Bool → Text → Option Text
field skip v = if skip then none else some v

pub or_blank-field : (v : Text) → trim_space v ≡ v → or_blank (field (is_empty v) v) ≡ v
or_blank-field [] h = refl
or_blank-field (c ∷ v) h = h

first_attr-none :
    (d : Dict Text Text) (ks : List Text) → All (λ k. lookup k d ≡ none) ks → first_attr d ks ≡ []
unfolding first_attr
first_attr-none d [] h = refl
first_attr-none d (k ∷ ks) h = rw h.0 (first_attr-none d ks h.1)

pub first_attr-head :
    (d : Dict Text Text) (k v : Text) (ks : List Text)
    → or_blank (lookup k d) ≡ v
    → All (λ j. lookup j d ≡ none) ks
    → first_attr d (k ∷ ks) ≡ v
unfolding first_attr
first_attr-head d k [] ks e h = rw e (first_attr-none d ks h)
first_attr-head d k (c ∷ v) ks e h = rw e refl

digit_spaceless : (d : ℕ) → d < 10 → is_space (48 + d) ≡ false
unfolding is_space
digit_spaceless d h = ground arith

pub decimal-spaceless : (n : ℕ) → any is_space (decimal 20 n) ≡ false
decimal-spaceless n = any-decimal is_space 20 n digit_spaceless

abbrev pub bare : Text → ℕ → Text → Text → Text → Entry
bare n m i g l = record {
  name = n;
  number = m;
  tvg_id = i;
  group_title = g;
  logo_url = l;
  url = [];
  headers = [];
}

pub entry_eq :
    (n n' i i' g g' l l' : Text) (m m' : ℕ)
    → n ≡ n'
    → m ≡ m'
    → i ≡ i'
    → g ≡ g'
    → l ≡ l'
    → bare n m i g l ≡ bare n' m' i' g' l'
entry_eq n n' i i' g g' l l' m m' a b c d f = rw (a, b, c, d, f) refl
