-- ===== src/Base/Dicts.antt =====
-- A Go map as a list of keys and values. Reading it back in list order is one of the orders that a range over the
-- map may take.
use mathlib.Core.Path.{◌≡◌, refl, sym, ◌∙◌, subst₂}
use mathlib.Core.Logic.{◌↔◌, inl, inr}
use mathlib.Core.Bool.{Bool, true, false}
use mathlib.Core.List.{List, [], ◌∷◌}
use mathlib.Core.Option.{Option, none, some}
use native.Mathlib.Omega.{arith}
use Prim.Native.Nat.{ℕ}
use tvr.Base.Tests.{◌==◌, ==_iff, if◌then◌else◌, Bool-cases, some_inj, some_ne_none}
use tvr.Base.Lists.{All}
use tvr.Base.Strings.{Text, text_eq, text_eq_iff}

pub record Eq {ℓ} (K : Type ℓ) : Type ℓ where
  pub beq : K → K → Bool
  pub beq_iff : (a b : K) → (beq a b ≡ true) ↔ (a ≡ b)

instance abbrev pub nat_eq : Eq ℕ
nat_eq = record { beq = ◌==◌; beq_iff = ==_iff }

instance abbrev pub text_key : Eq Text
text_key = record { beq = text_eq; beq_iff = text_eq_iff }

abbrev pub Dict : Type 0 → Type 0 → Type 0
Dict K V = List (K × V)

module _ {K V : Type 0} ⦃e : Eq K⦄ where
  unfoldable pub lookup : K → Dict K V → Option V
  lookup k [] = none
  lookup k ((j, v) ∷ m) = if e.beq j k then some v else lookup k m

  unfoldable pub delete : K → Dict K V → Dict K V
  delete k [] = []
  delete k ((j, w) ∷ m) = if e.beq j k then delete k m else (j, w) ∷ delete k m

  unfoldable pub insert : K → V → Dict K V → Dict K V
  insert k v m = (k, v) ∷ delete k m

  pub lookup-delete :
      (k j : K) (m : Dict K V) → lookup j (delete k m) ≡ (if e.beq k j then none else lookup j m)
  unfolding lookup delete
  lookup-delete k j [] = ground arith
  lookup-delete k j ((i, w) ∷ m) =
      ground (arith, e.beq_iff k j, e.beq_iff i k, e.beq_iff i j, lookup-delete k j m)

  pub lookup-insert :
      (k j : K) (v : V) (m : Dict K V)
      → lookup j (insert k v m) ≡ (if e.beq k j then some v else lookup j m)
  unfolding lookup insert
  lookup-insert k j v m = ground (arith, lookup-delete k j m)

  pub All-delete {κ μ} :
      (P : K × V → Type κ) (Q : K × V → Type μ) (k : K) (m : Dict K V)
      → ((j : K) (v : V) → e.beq j k ≡ false → P (j, v) → Q (j, v))
      → All P m
      → All Q (delete k m)
  unfolding delete
  All-delete P Q k [] f h = tt
  All-delete P Q k ((j, v) ∷ m) f h = elim (Bool-cases (e.beq j k)) [
    | inl q ↦ rw q (All-delete P Q k m f h.1)
    | inr q ↦ rw q (f j v q h.0, All-delete P Q k m f h.1)
  ]

  pub All-insert {κ μ} :
      (P : K × V → Type κ) (Q : K × V → Type μ) (k : K) (v : V) (m : Dict K V)
      → Q (k, v)
      → ((j : K) (w : V) → e.beq j k ≡ false → P (j, w) → Q (j, w))
      → All P m
      → All Q (insert k v m)
  unfolding insert
  All-insert P Q k v m q f h = (q, All-delete P Q k m f h)

  pub All-lookup {κ} :
      (P : K × V → Type κ) (k : K) {v : V} (m : Dict K V) → All P m → lookup k m ≡ some v → P (k, v)
  unfolding lookup
  All-lookup P k [] h q = absurd (some_ne_none (sym q))
  All-lookup P k {v} ((j, w) ∷ m) h q = elim (Bool-cases (e.beq j k)) [
    | inl s ↦
        let same : j ≡ k = (e.beq_iff j k).0 s in
        let val : w ≡ v = some_inj (rw s at q) in subst₂ (λ a b. P (a, b)) same val h.0
    | inr s ↦ All-lookup P k m h.1 (rw s at q)
  ]

  pub lookup-delete_self : (k : K) (m : Dict K V) → lookup k (delete k m) ≡ none
  lookup-delete_self k m = lookup-delete k k m ∙ rw ((e.beq_iff k k).1 refl) refl

  pub lookup-delete_ne :
      (k j : K) (m : Dict K V) → e.beq j k ≡ false → lookup j (delete k m) ≡ lookup j m
  lookup-delete_ne k j m n = ground (arith, lookup-delete k j m, e.beq_iff k j, e.beq_iff j k)

  pub lookup-insert_self : (k : K) (v : V) (m : Dict K V) → lookup k (insert k v m) ≡ some v
  lookup-insert_self k v m = lookup-insert k k v m ∙ rw ((e.beq_iff k k).1 refl) refl

  pub lookup-insert_ne :
      (k j : K) (v : V) (m : Dict K V) → e.beq j k ≡ false → lookup j (insert k v m) ≡ lookup j m
  lookup-insert_ne k j v m n = ground (arith, lookup-insert k j v m, e.beq_iff k j, e.beq_iff j k)

  pub All-absent {κ μ} :
      (P : K × V → Type κ) (Q : K × V → Type μ) (k : K) (m : Dict K V)
      → lookup k m ≡ none
      → ((j : K) (v : V) → e.beq j k ≡ false → P (j, v) → Q (j, v))
      → All P m
      → All Q m
  unfolding lookup
  All-absent P Q k [] q f h = tt
  All-absent P Q k ((j, v) ∷ m) q f h = elim (Bool-cases (e.beq j k)) [
    | inl s ↦ absurd (some_ne_none (rw s at q))
    | inr s ↦ (f j v s h.0, All-absent P Q k m (rw s at q) f h.1)
  ]
