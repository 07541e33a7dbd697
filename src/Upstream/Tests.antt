-- ===== src/Upstream/Tests.antt =====
-- internal/core/upstream on two sources and a proxy.
use tvr.Base.{
  List, ℕ, ◌<◌, false, [], ◌∷◌, some, length, ◌≡◌, refl, ◌⊎◌, inr, arith, Text, codes, trim_space,
  text_eq, ok, err, some_inj, ap, sym, ◌∙◌,
}
use tvr.Base.Int.{pos, negsuc}
use tvr.Upstream.Policy.{policy_random}
use tvr.Upstream.Source.{
  Upstream, Source, empty_source, normalize, start_index, IsNormal, Unblanked, normalize-IsNormal,
  normalize-IsNormal-eq, start_index-lt,
}
use tvr.Upstream.Resolve.{ProxyRef, resolve, stable_primary, head_or, head-resolve-stable_primary}

abbrev upstream_of : Text → Upstream
upstream_of url = record {
  id = codes "u";
  url = url;
  headers = [];
  candidates = [];
  transcode = false;
  revision = [];
}

-- A stored source with a blank URL and an index that is out of range.
abbrev stored : Source
stored = record {
  policy = codes "failover";
  upstreams = upstream_of (codes "http://a/1") ∷ upstream_of (codes " ") ∷ [];
  fixed_index = negsuc 2;
  transcode = false;
  revision = codes "r1";
}

abbrev normal : Source
normal = record stored { upstreams = upstream_of (codes "http://a/1") ∷ []; fixed_index = pos 0 }

normal-IsNormal : IsNormal normal
unfolding trim_space
normal-IsNormal = record {
  some_upstream = omega arith;
  no_blank = (refl, tt);
  policy_known = inr (inr refl);
  in_range = refl;
}

normalize-IsNormal_example :
    (kept : List Upstream) × Unblanked stored.upstreams kept
    × (((kept ≡ []) × (normalize stored ≡ err empty_source))
        ⊎ ((s : Source) × (normalize stored ≡ ok s) × IsNormal s × (s.upstreams ≡ kept)))
normalize-IsNormal_example = normalize-IsNormal stored

normalize-IsNormal-eq_example : normalize normal ≡ ok normal
normalize-IsNormal-eq_example = normalize-IsNormal-eq normal normal-IsNormal

abbrev first_of : ℕ → ℕ
first_of n = 0

first_of-lt : (m : ℕ) → 0 < m → first_of m < m
first_of-lt m h = h

start_index-lt_example : start_index first_of normal < length normal.upstreams
start_index-lt_example = start_index-lt first_of normal first_of-lt normal-IsNormal

abbrev proxy : ProxyRef
proxy = record {
  policy = codes "fixed";
  servers = codes "http://p1/" ∷ codes "http://p2" ∷ [];
  fixed_index = pos 1;
}

proxy_not_random : (p : ProxyRef) → some proxy ≡ some p → text_eq p.policy policy_random ≡ false
proxy_not_random p e =
    ap (λ q. text_eq q.policy policy_random) (sym (some_inj e)) ∙ unfold text_eq in refl

head-resolve-stable_primary_example :
    head_or (resolve first_of (codes " udp/239.0.0.1:1234 ") (some proxy)) []
    ≡ stable_primary first_of (codes " udp/239.0.0.1:1234 ") (some proxy)
head-resolve-stable_primary_example =
    head-resolve-stable_primary first_of (codes " udp/239.0.0.1:1234 ") [] (some proxy)
      (unfold trim_space in refl) proxy_not_random
