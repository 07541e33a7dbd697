-- ===== src/Epg/Cleanup/Slugs.antt =====
-- internal/core/epg/worker.go, `processCleanup`: what the loop over the slugs does to the caches and to the list.
use tvr.Base.{
  Bool, true, false, [], ◌∷◌, none, some, Text, text_eq, text_eq_iff, text_eq_self, is_empty,
  trim_space, Dict, lookup, insert, delete, lookup-delete, lookup-insert, lookup-insert_self,
  text_key, nat_eq, ◌≡◌, ◌≢◌, ◌⊎◌, inl, inr, refl, sym, ◌∙◌, subst, Bool-cases, some_ne_none,
}
use tvr.Epg.Documents.{TvDocument}
use tvr.Epg.Queue.{add_all}
use tvr.Epg.Refresh.{found, Lookup-cases}
use tvr.Epg.Relays.{RelayRow}
use tvr.Epg.Cleanup.{
  CleanupAnswers, Verdict, keeps, retries, removes_it, verdict, apply_verdict, clean_slugs,
  has_cache,
}

Verdict-cases : (v : Verdict) → (v ≡ keeps) ⊎ ((v ≡ retries) ⊎ (v ≡ removes_it))
Verdict-cases keeps = inl refl
Verdict-cases retries = inr (inl refl)
Verdict-cases removes_it = inr (inr refl)

pub verdict-found :
    (a : CleanupAnswers) (t : Text) (c : Dict Text TvDocument) (r : RelayRow)
    → a.by_slug t ≡ found r
    → verdict a t c ≡ keeps
unfolding verdict
verdict-found a t c r h = elim (Bool-cases (is_empty t)) [
  | inl e ↦ rw e refl
  | inr e ↦ rw (e, h) refl
]

pub verdict-own :
    (a : CleanupAnswers) (t : Text) (c : Dict Text TvDocument) (r : RelayRow)
    → a.relay ≡ found r
    → r.slug ≡ t
    → verdict a t c ≢ removes_it
unfolding verdict
verdict-own a t c r h q = elim (Bool-cases (is_empty t)) [
  | inl e ↦ rw e (λ w. cc)
  | inr e ↦ elim (Lookup-cases (a.by_slug t)) [
    | inl (r', f) ↦ rw (e, f) (λ w. cc)
    | inr (inl f) ↦ rw (e, f, h, q, text_eq_self t) (λ w. cc)
    | inr (inr (m, f)) ↦ rw (e, f) (λ w. cc)
  ]
]

-- The slug of no relay: no row has it, and the relay of the request has another.
abbrev pub IsSpare : CleanupAnswers → Text → Type 0
IsSpare a t =
    (is_empty t ≡ false)
    × ((r : RelayRow) → a.by_slug t ≢ found r)
    × ((r : RelayRow) → a.relay ≡ found r → text_eq r.slug t ≡ false)

verdict-spare :
    (a : CleanupAnswers) (t : Text) (c : Dict Text TvDocument) → IsSpare a t → verdict a t c ≢ keeps
unfolding verdict
verdict-spare a t c (n, b, o) = elim (Lookup-cases (a.by_slug t)) [
  | inl (r, f) ↦ absurd (b r f)
  | inr (inr (m, f)) ↦ rw (n, f) (λ w. cc)
  | inr (inl f) ↦ elim (Lookup-cases a.relay) [
    | inl (r, g) ↦ elim (Bool-cases (has_cache r.slug c)) [
      | inl e ↦ rw (n, f, g, o r g, e) (λ w. cc)
      | inr e ↦ rw (n, f, g, o r g, e) (λ w. cc)
    ]
    | inr (inl g) ↦ rw (n, f, g) (λ w. cc)
    | inr (inr (m, g)) ↦ rw (n, f, g) (λ w. cc)
  ]
]

apply-keeps :
    (removed : Bool) (v : Verdict) (slug t : Text)
    (st : Dict Text TvDocument × Dict Text (Unit {0}))
    → (text_eq slug t ≡ true → v ≢ removes_it)
    → lookup t (apply_verdict removed v slug st).0 ≡ lookup t st.0
apply-keeps removed keeps slug t st h = refl
apply-keeps removed retries slug t st h = refl
apply-keeps false removes_it slug t st h = refl
apply-keeps true removes_it slug t st h = elim (Bool-cases (text_eq slug t)) [
  | inl e ↦ absurd (h e refl)
  | inr e ↦ lookup-delete slug t st.0 ∙ rw e refl
]

pub clean_slugs-keeps :
    (a : CleanupAnswers) (t : Text) (slugs : Dict Text (Unit {0}))
    (st : Dict Text TvDocument × Dict Text (Unit {0}))
    → ((c : Dict Text TvDocument) → verdict a t c ≢ removes_it)
    → lookup t (clean_slugs a slugs st).0 ≡ lookup t st.0
unfolding clean_slugs
clean_slugs-keeps a t [] st h = refl
clean_slugs-keeps a t ((old, w) ∷ rest) st h =
    let slug = trim_space old in
    let v = verdict a slug st.0 in
    clean_slugs-keeps a t rest (apply_verdict (a.removes slug) v slug st) h
    ∙ apply-keeps (a.removes slug) v slug t st
        (λ e. subst (λ x. verdict a x st.0 ≢ removes_it) (sym ((text_eq_iff slug t).0 e)) (h st.0))

-- What has become of a slug: its cache is gone, or it is still on the list.
abbrev pub IsDone : Text → Dict Text TvDocument × Dict Text (Unit {0}) → Type 0
IsDone t st = (lookup t st.0 ≡ none) ⊎ (lookup t st.1 ≡ some tt)

apply-IsDone_self :
    (removed : Bool) (v : Verdict) (t : Text) (st : Dict Text TvDocument × Dict Text (Unit {0}))
    → v ≢ keeps
    → IsDone t (apply_verdict removed v t st)
apply-IsDone_self removed keeps t st h = absurd (h refl)
apply-IsDone_self removed retries t st h = inr (lookup-insert_self t tt st.1)
apply-IsDone_self false removes_it t st h = inr (lookup-insert_self t tt st.1)
apply-IsDone_self true removes_it t st h = inl (lookup-delete t t st.0 ∙ rw (text_eq_self t) refl)

lookup-delete_absent :
    (k t : Text) (c : Dict Text TvDocument) → lookup t c ≡ none → lookup t (delete k c) ≡ none
lookup-delete_absent k t c h = elim (Bool-cases (text_eq k t)) [
  | inl e ↦ lookup-delete k t c ∙ rw e refl
  | inr e ↦ lookup-delete k t c ∙ rw (e, h) refl
]

lookup-insert_tt :
    (k t : Text) (d : Dict Text (Unit {0}))
    → lookup t d ≡ some tt
    → lookup t (insert k tt d) ≡ some tt
lookup-insert_tt k t d h = elim (Bool-cases (text_eq k t)) [
  | inl e ↦ lookup-insert k t tt d ∙ rw e refl
  | inr e ↦ lookup-insert k t tt d ∙ rw (e, h) refl
]

apply-IsDone :
    (removed : Bool) (v : Verdict) (slug t : Text)
    (st : Dict Text TvDocument × Dict Text (Unit {0}))
    → IsDone t st
    → IsDone t (apply_verdict removed v slug st)
apply-IsDone removed keeps slug t st h = h
apply-IsDone removed retries slug t st (inl h) = inl h
apply-IsDone removed retries slug t st (inr h) = inr (lookup-insert_tt slug t st.1 h)
apply-IsDone false removes_it slug t st (inl h) = inl h
apply-IsDone false removes_it slug t st (inr h) = inr (lookup-insert_tt slug t st.1 h)
apply-IsDone true removes_it slug t st (inl h) = inl (lookup-delete_absent slug t st.0 h)
apply-IsDone true removes_it slug t st (inr h) = inr h

clean_slugs-IsDone_past :
    (a : CleanupAnswers) (t : Text) (slugs : Dict Text (Unit {0}))
    (st : Dict Text TvDocument × Dict Text (Unit {0}))
    → IsDone t st
    → IsDone t (clean_slugs a slugs st)
unfolding clean_slugs
clean_slugs-IsDone_past a t [] st h = h
clean_slugs-IsDone_past a t ((old, w) ∷ rest) st h =
    let slug = trim_space old in
    let v = verdict a slug st.0 in
    clean_slugs-IsDone_past a t rest (apply_verdict (a.removes slug) v slug st)
      (apply-IsDone (a.removes slug) v slug t st h)

pub clean_slugs-IsDone :
    (a : CleanupAnswers) (old : Text) (slugs : Dict Text (Unit {0}))
    (st : Dict Text TvDocument × Dict Text (Unit {0}))
    → IsSpare a (trim_space old)
    → lookup old slugs ≡ some tt
    → IsDone (trim_space old) (clean_slugs a slugs st)
unfolding clean_slugs lookup
clean_slugs-IsDone a old [] st sp h = absurd (some_ne_none (sym h))
clean_slugs-IsDone a old ((o, w) ∷ rest) st sp h =
    let slug = trim_space o in
    let v = verdict a slug st.0 in
    let st' = apply_verdict (a.removes slug) v slug st in
    elim (Bool-cases (text_eq o old)) [
      | inl e ↦ clean_slugs-IsDone_past a (trim_space old) rest st' (
          subst (λ x. IsDone (trim_space x) st') ((text_eq_iff o old).0 e)
            (apply-IsDone_self (a.removes slug) v slug st (
              verdict-spare a slug st.0
                (subst (λ x. IsSpare a (trim_space x)) (sym ((text_eq_iff o old).0 e)) sp))))
      | inr e ↦ clean_slugs-IsDone a old rest st' sp (rw e at h)
    ]

lookup-add_all_right :
    (t : Text) (slugs d : Dict Text (Unit {0}))
    → lookup t d ≡ some tt
    → lookup t (add_all slugs d) ≡ some tt
lookup-add_all_right t [] d h = h
lookup-add_all_right t ((slug, u) ∷ slugs) d h =
    lookup-add_all_right t slugs (insert slug tt d) (lookup-insert_tt slug t d h)

pub lookup-add_all :
    (t : Text) (slugs d : Dict Text (Unit {0}))
    → lookup t slugs ≡ some tt
    → lookup t (add_all slugs d) ≡ some tt
unfolding lookup
lookup-add_all t [] d h = absurd (some_ne_none (sym h))
lookup-add_all t ((slug, u) ∷ slugs) d h = elim (Bool-cases (text_eq slug t)) [
  | inl e ↦ lookup-add_all_right t slugs (insert slug tt d) (lookup-insert slug t tt d ∙ rw e refl)
  | inr e ↦ lookup-add_all t slugs (insert slug tt d) (rw e at h)
]
