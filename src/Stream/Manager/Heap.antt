-- ===== src/Stream/Manager/Heap.antt =====
-- Reading the heap after a change or a new session.
use tvr.Base.{
  ℕ, zero, suc, List, [], ◌∷◌, ◌++◌, some, length, get_elem?, ◌≡◌, refl, sym, arith, ◌==◌,
  if◌then◌else◌, some_ne_none,
}
use tvr.Stream.Session.{Session}
use tvr.Stream.Manager.{update_at}

pub get_elem?-update_at :
    (p q : ℕ) (f : Session → Session) (h : List Session) {s : Session}
    → get_elem? h q ≡ some s
    → get_elem? (update_at p f h) q ≡ some (if p == q then f s else s)
unfolding update_at
get_elem?-update_at p q f [] e = absurd (some_ne_none (sym e))
get_elem?-update_at zero zero f (x ∷ h) e = ground arith
get_elem?-update_at zero (suc q) f (x ∷ h) e = ground arith
get_elem?-update_at (suc p) zero f (x ∷ h) e = ground arith
get_elem?-update_at (suc p) (suc q) f (x ∷ h) {s} e =
    ground (arith, get_elem?-update_at p q f h {s = s} e)

pub get_elem?-append :
    (h k : List Session) (q : ℕ) {s : Session}
    → get_elem? h q ≡ some s
    → get_elem? (h ++ k) q ≡ some s
get_elem?-append [] k q e = absurd (some_ne_none (sym e))
get_elem?-append (x ∷ h) k zero e = e
get_elem?-append (x ∷ h) k (suc q) e = get_elem?-append h k q e

pub get_elem?-last : (h : List Session) (s : Session) → get_elem? (h ++ s ∷ []) (length h) ≡ some s
get_elem?-last [] s = refl
get_elem?-last (x ∷ h) s = get_elem?-last h s
