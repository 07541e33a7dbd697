-- ===== src/Upstream/Resolve.antt =====
-- internal/core/upstream/resolve.go: the fetch URLs of a link behind an optional proxy.
use tvr.Base.{
  ℕ, Bool, false, not, ◌&&◌, ◌||◌, ◌≡◌, refl, arith, ◌==◌, if◌then◌else◌, Text, text_eq, trim_space,
  trim_left, trim_right, is_empty, is_space, contains, codes, any, List, [], ◌∷◌, ◌++◌, map, length,
  get_or, Option, none, some,
}
use tvr.Base.Int.{ℤ, pos}
use tvr.Upstream.Policy.{policy_fixed, policy_random, pick_index}

pub record ProxyRef : Type 0 where
  pub policy : Text
  pub servers : List Text
  pub fixed_index : ℤ

abbrev is_slash : ℕ → Bool
is_slash c = c == b'/'

unfoldable pub join : Text → Text → Text
join server link =
    trim_right is_slash (trim_space server) ++ (b'/' ∷ trim_left is_slash (trim_space link))

-- A Go index into `proxy.Servers`, in range by `pick_index`.
abbrev pub server_at : ProxyRef → ℕ → Text
server_at proxy i = get_or proxy.servers i []

-- `proxy == nil || len(proxy.Servers) == 0`.
unfoldable pub in_use : Option ProxyRef → Option ProxyRef
in_use none = none
in_use (some proxy) = if length proxy.servers == 0 then none else some proxy

unfoldable pub stable_primary : (ℕ → ℕ) → Text → Option ProxyRef → Text
stable_primary rand link proxy = elim (in_use proxy) [
  | none ↦ trim_space link
  | some p ↦
      let idx =
        if text_eq p.policy policy_fixed
        then pick_index rand policy_fixed (length p.servers) p.fixed_index
        else 0 in
      join (server_at p idx) (trim_space link)
]

abbrev pub resolve_with : (ℕ → ℕ) → Text → ProxyRef → List Text
resolve_with rand link p =
    if text_eq p.policy policy_random
    then join (server_at p (pick_index rand policy_random (length p.servers) (pos 0))) link ∷ []
    else if text_eq p.policy policy_fixed
    then join (server_at p (pick_index rand policy_fixed (length p.servers) p.fixed_index)) link
      ∷ []
    else map (λ srv. join srv link) p.servers

unfoldable pub resolve : (ℕ → ℕ) → Text → Option ProxyRef → List Text
resolve rand link proxy = elim (in_use proxy) [
  | none ↦ if is_empty (trim_space link) then [] else trim_space link ∷ []
  | some p ↦ resolve_with rand (trim_space link) p
]

unfoldable pub valid_proxied_link : Text → Bool
valid_proxied_link raw =
    let t = trim_space raw in
    not (is_empty t) && not (contains t (codes "://")) && not (any (λ r. is_space r || r == 0) t)

abbrev pub head_or : List Text → Text → Text
head_or [] d = d
head_or (x ∷ xs) d = x

in_use-nil : (p : ProxyRef) → p.servers ≡ [] → in_use (some p) ≡ none
unfolding in_use
in_use-nil p e = ground arith

in_use-cons :
    (p : ProxyRef) (srv : Text) (srvs : List Text)
    → p.servers ≡ srv ∷ srvs
    → in_use (some p) ≡ some p
unfolding in_use
in_use-cons p srv srvs e = ground arith

in_use-none : in_use none ≡ none
unfolding in_use
in_use-none = refl

head-resolve_with :
    (rand : ℕ → ℕ) (link d : Text) (p : ProxyRef) (srv : Text) (srvs : List Text)
    → p.servers ≡ srv ∷ srvs
    → text_eq p.policy policy_random ≡ false
    → head_or (resolve_with rand link p) d
      ≡ join
          (server_at p (
            if text_eq p.policy policy_fixed
            then pick_index rand policy_fixed (length p.servers) p.fixed_index
            else 0))
          link
head-resolve_with rand link d p srv srvs e h = ground arith

-- Of a link that is not blank, the URL that is stored for the channel is the first that a session fetches,
-- unless the proxy picks at random.
pub head-resolve-stable_primary :
    (rand : ℕ → ℕ) (link d : Text) (proxy : Option ProxyRef)
    → is_empty (trim_space link) ≡ false
    → ((p : ProxyRef) → proxy ≡ some p → text_eq p.policy policy_random ≡ false)
    → head_or (resolve rand link proxy) d ≡ stable_primary rand link proxy
unfolding resolve stable_primary
head-resolve-stable_primary rand link d none h fixed =
    rw (in_use-none, resolve, stable_primary, head_or) (rw h refl)
head-resolve-stable_primary rand link d (some p) h fixed = go p.servers refl
  where
    go :
        (srvs : List Text)
        → p.servers ≡ srvs
        → head_or (resolve rand link (some p)) d ≡ stable_primary rand link (some p)
    go [] e = rw (in_use-nil p e, resolve, stable_primary, head_or) (rw h refl)
    go (srv ∷ srvs) e =
        rw (in_use-cons p srv srvs e, resolve, stable_primary, head_or)
          (head-resolve_with rand (trim_space link) d p srv srvs e (fixed p refl))
