-- ===== src/Stream/Run/Budget.antt =====
-- The walk of a failover session over failed attempts: after `k` of them it stands where `k` steps lead.
use tvr.Base.{
  ℕ, zero, suc, ◌+◌, ◌≤◌, ◌<◌, true, false, some, length, ltb, ◌≡◌, refl, sym, ap, ◌∙◌, arith,
  subst, Bool-cases, inl, inr, ltb→lt,
}
use tvr.Upstream.Source.{is_fallback}
use tvr.Stream.Session.{Session, StreamError, failed_by}
use tvr.Stream.Ready.{fail_ready}
use tvr.Stream.Walk.{fail_or_advance, attempt_budget, total_urls, advance}
use tvr.Stream.Walk.Order.{cost, advance_by, next_url, next_upstream}
use tvr.Stream.Run.Attempt.{Kept, InRange, Waiting, Defeat, attempted, attempted-Kept}

Kept-trans : {t u w : Session} → Kept t u → Kept u w → Kept t w
Kept-trans h k = record {
  source_kept = k.source_kept ∙ h.source_kept;
  viewers_kept = k.viewers_kept ∙ h.viewers_kept;
  stopped_kept = k.stopped_kept ∙ h.stopped_kept;
  ever_kept = k.ever_kept ∙ h.ever_kept;
  open_kept = k.open_kept ∙ h.open_kept;
  attempts_kept = k.attempts_kept ∙ h.attempts_kept;
  current_kept = k.current_kept ∙ h.current_kept;
  candidate_kept = k.candidate_kept ∙ h.candidate_kept;
}

advance-Kept : (t u : Session) → Kept t u → Kept (advance t) (advance u)
unfolding advance
advance-Kept t u k = record {
  source_kept = ground (arith, k.source_kept);
  viewers_kept = ground (arith, k.viewers_kept);
  stopped_kept = ground (arith, k.stopped_kept);
  ever_kept = ground (arith, k.ever_kept);
  open_kept = ground (arith, k.open_kept);
  attempts_kept = ground (arith, k.attempts_kept);
  current_kept = ground (arith, k.source_kept, k.current_kept, k.candidate_kept);
  candidate_kept = ground (arith, k.source_kept, k.current_kept, k.candidate_kept);
}

Kept-InRange : (t u : Session) → Kept t u → InRange t → InRange u
Kept-InRange t u k r = rw (k.source_kept, k.current_kept, k.candidate_kept) r

advance-InRange : (t : Session) → is_fallback t.source ≡ true → InRange t → InRange (advance t)
advance-InRange t f r =
    let i : ℕ = t.current_index in
    let c : ℕ = t.candidate_index in
    let n : ℕ = length t.source.upstreams in
    elim (Bool-cases (ltb (c + 1) (cost t.source.upstreams i))) [
      | inl e ↦ subst InRange (sym (next_url t i c r.0 (ltb→lt _ _ e))) (r.0, ltb→lt _ _ e)
      | inr e ↦
          let last : cost t.source.upstreams i ≤ c + 1 = ground arith in
          subst InRange (sym (next_upstream t i c r.0 last f)) (grind (arith, r.0), omega arith)
    ]

-- The session as its walk goes, with the attempts counted.
abbrev pub counted : ℕ → Session → Session
counted k s = record (advance_by k s) { attempts_before_ready = k }

advance_by-suc : (k : ℕ) (s : Session) → advance_by (suc k) s ≡ advance (advance_by k s)
advance_by-suc zero s = refl
advance_by-suc (suc k) s = advance_by-suc k (advance s)

advance-source : (t : Session) → (advance t).source ≡ t.source
unfolding advance
advance-source t = ground arith

advance_by-InRange :
    (k : ℕ) (s : Session) → is_fallback s.source ≡ true → InRange s → InRange (advance_by k s)
advance_by-InRange zero s f r = r
advance_by-InRange (suc k) s f r =
    advance_by-InRange k (advance s) (ap is_fallback (advance-source s) ∙ f) (advance-InRange s f r)

advance-attempts :
    (k n : ℕ) (s : Session)
    → Kept
        (record (advance (advance_by k s)) { attempts_before_ready = n })
        (record (advance_by (suc k) s) { attempts_before_ready = n })
advance-attempts k n s =
    let e = advance_by-suc k s in
    record {
      source_kept = ap (λ (t : Session). t.source) e;
      viewers_kept = ap (λ (t : Session). t.viewers) e;
      stopped_kept = ap (λ (t : Session). t.stopped) e;
      ever_kept = ap (λ (t : Session). t.ever_ready) e;
      open_kept = ap (λ (t : Session). t.ready_closed) e;
      attempts_kept = refl;
      current_kept = ap (λ (t : Session). t.current_index) e;
      candidate_kept = ap (λ (t : Session). t.candidate_index) e;
    }

abbrev pub once_more : Session → Session
once_more u = record u { attempts_before_ready = u.attempts_before_ready + 1 }

pub fail_or_advance-next :
    (e : StreamError) (u : Session)
    → is_fallback u.source ≡ true
    → u.attempts_before_ready + 1 < total_urls u.source.upstreams
    → fail_or_advance e u ≡ (false, advance (once_more u))
unfolding fail_or_advance attempt_budget
fail_or_advance-next e u f h = ground arith

pub fail_or_advance-fails :
    (e : StreamError) (u : Session)
    → is_fallback u.source ≡ true
    → total_urls u.source.upstreams ≤ u.attempts_before_ready + 1
    → fail_or_advance e u ≡ (true, fail_ready (some (failed_by e)) (once_more u))
unfolding fail_or_advance attempt_budget
fail_or_advance-fails e u f h = ground arith

-- Where the walk from `s` stands after `k` failed attempts.
pub record Trying (s : Session) (k : ℕ) (t : Session) : Type 0 where
  pub kept : Kept (counted k s) t
  pub waiting : Waiting t
  pub placed : InRange t
  pub same_source : t.source ≡ s.source

pub Kept-Waiting : (t u : Session) → Kept t u → Waiting t → Waiting u
Kept-Waiting t u k (v, st, ev, op, f) = (
  rw (k.viewers_kept) v,
  k.stopped_kept ∙ st,
  k.ever_kept ∙ ev,
  k.open_kept ∙ op,
  ap is_fallback k.source_kept ∙ f,
)

advance-Waiting : (t : Session) → Waiting t → Waiting (advance t)
unfolding advance
advance-Waiting t w = (ground arith, ground arith, ground arith, ground arith, ground arith)

once_more-Kept :
    (k : ℕ) (t u : Session)
    → t.attempts_before_ready ≡ k
    → Kept t u
    → Kept (record t { attempts_before_ready = k + 1 }) (once_more u)
once_more-Kept k t u e h = record {
  source_kept = h.source_kept;
  viewers_kept = h.viewers_kept;
  stopped_kept = h.stopped_kept;
  ever_kept = h.ever_kept;
  open_kept = h.open_kept;
  attempts_kept = ap (λ n. n + 1) (h.attempts_kept ∙ e);
  current_kept = h.current_kept;
  candidate_kept = h.candidate_kept;
}

advance-attempts_Kept :
    (n : ℕ) (t : Session)
    → Kept
        (advance (record t { attempts_before_ready = n }))
        (record (advance t) { attempts_before_ready = n })
unfolding advance
advance-attempts_Kept n t = record {
  source_kept = ground arith;
  viewers_kept = ground arith;
  stopped_kept = ground arith;
  ever_kept = ground arith;
  open_kept = ground arith;
  attempts_kept = ground arith;
  current_kept = ground arith;
  candidate_kept = ground arith;
}

Kept-symm : {t u : Session} → Kept t u → Kept u t
Kept-symm h = record {
  source_kept = sym h.source_kept;
  viewers_kept = sym h.viewers_kept;
  stopped_kept = sym h.stopped_kept;
  ever_kept = sym h.ever_kept;
  open_kept = sym h.open_kept;
  attempts_kept = sym h.attempts_kept;
  current_kept = sym h.current_kept;
  candidate_kept = sym h.candidate_kept;
}

pub Trying-next :
    (o : Defeat) (s : Session) (k : ℕ) (t : Session)
    → Trying s k t
    → Trying s (k + 1) (advance (once_more (attempted o t)))
Trying-next o s k t h =
    let one : k + 1 ≡ suc k = omega arith in
    let tried = Kept-trans h.kept (attempted-Kept o t h.placed) in
    let more = once_more-Kept k (counted k s) (attempted o t) refl tried in
    let stepped = advance-Kept (record (advance_by k s) { attempts_before_ready = k + 1 }) _ more in
    let reached = Kept-trans (Kept-symm (advance-attempts_Kept (k + 1) (advance_by k s))) stepped in
    let w = Kept-Waiting t (attempted o t) (attempted-Kept o t h.placed) h.waiting in
    let r = Kept-InRange t (attempted o t) (attempted-Kept o t h.placed) h.placed in
    record {
      kept = rw one (Kept-trans (Kept-symm (advance-attempts k (suc k) s)) (rw one at reached));
      waiting = advance-Waiting (once_more (attempted o t)) w;
      placed = advance-InRange (once_more (attempted o t)) w.4 r;
      same_source =
          advance-source (once_more (attempted o t))
          ∙ (attempted-Kept o t h.placed).source_kept
          ∙ h.same_source;
    }
