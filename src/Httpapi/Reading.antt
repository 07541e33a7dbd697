-- ===== src/Httpapi/Reading.antt =====
-- internal/core/m3u/parser.go: each field of an entry is found under its key.
use tvr.Base.{
  false, List, [], ◌∷◌, Option, none, ◌==◌, ==_iff, if◌then◌else◌, Text, codes, is_empty, text_eq,
  Dict, lookup, text_key, ◌≡◌, refl, sym, ap, ◌∙◌, inl, inr, Bool-cases,
}
use tvr.Stream.Copy.{decimal}
use tvr.M3u.{entry_of_attrs, first_attr, or_blank, atoi, number_or_zero}
use tvr.M3u.Attrs.{put_all}
use tvr.M3u.Numbers.{atoi-decimal}
use tvr.M3u.Cuts.{trim_space-plain}
use tvr.Httpapi.{LineupEntry, unless, public_id}
use tvr.Httpapi.Keys.{IsReadable, plain_attrs}
use tvr.Httpapi.Lookups.{
  Reads, Keeps, Keeps-nil, Keeps-unless, Reads-unless, Reads-here, field, or_blank-field,
  first_attr-head, decimal-spaceless, bare, entry_eq,
}

module _ (base : Text) (e : LineupEntry) (h : IsReadable base e) where
  abbrev pub found : Dict Text Text
  found = put_all (plain_attrs e) []

  abbrev from_group : List (Text × Text)
  from_group = unless (is_empty e.group_title) (codes "group-title", e.group_title) []

  abbrev from_chno : List (Text × Text)
  from_chno = unless (e.number == 0) (codes "tvg-chno", decimal 20 e.number) from_group

  abbrev from_logo : List (Text × Text)
  from_logo = unless (is_empty e.logo_url) (codes "tvg-logo", e.logo_url) from_chno

  Keeps-group : (k : Text) → text_eq (codes "group-title") k ≡ false → Keeps k from_group
  Keeps-group k f =
      Keeps-unless k (is_empty e.group_title) (codes "group-title") e.group_title [] f (Keeps-nil k)

  Keeps-chno :
      (k : Text) → text_eq (codes "tvg-chno") k ≡ false → Keeps k from_group → Keeps k from_chno
  Keeps-chno k n h =
      Keeps-unless k (e.number == 0) (codes "tvg-chno") (decimal 20 e.number) from_group n h

  Keeps-logo :
      (k : Text) → text_eq (codes "tvg-logo") k ≡ false → Keeps k from_chno → Keeps k from_logo
  Keeps-logo k n h =
      Keeps-unless k (is_empty e.logo_url) (codes "tvg-logo") e.logo_url from_chno n h

  Keeps-name :
      (k : Text)
      → text_eq (codes "tvg-name") k ≡ false
      → Keeps k from_logo
      → Keeps k ((codes "tvg-name", e.name) ∷ from_logo)
  Keeps-name k n h = Keeps-unless k false (codes "tvg-name") e.name from_logo n h

  Reads-behind_name :
      (k : Text) (o : Option Text)
      → text_eq (codes "tvg-id") k ≡ false
      → text_eq (codes "tvg-name") k ≡ false
      → Reads k from_logo o
      → lookup k found ≡ o
  unfolding lookup
  Reads-behind_name k o a b r =
      Reads-unless k (is_empty (public_id e)) (codes "tvg-id") (public_id e)
        ((codes "tvg-name", e.name) ∷ from_logo) o a
        (Reads-unless k false (codes "tvg-name") e.name from_logo o b r) [] refl

  -- A key that is not of the playlist's.
  unknown :
      (k : Text)
      → text_eq (codes "tvg-id") k ≡ false
      → text_eq (codes "tvg-name") k ≡ false
      → text_eq (codes "tvg-logo") k ≡ false
      → text_eq (codes "tvg-chno") k ≡ false
      → text_eq (codes "group-title") k ≡ false
      → lookup k found ≡ none
  unfolding lookup
  unknown k a b c d f =
      Reads-behind_name k none a b (λ x n. Keeps-logo k c (Keeps-chno k d (Keeps-group k f)) x ∙ n)

  read_id : lookup (codes "tvg-id") found ≡ field (is_empty (public_id e)) (public_id e)
  unfolding lookup text_eq
  read_id =
      let k = codes "tvg-id" in
      Reads-here k (is_empty (public_id e)) (public_id e) ((codes "tvg-name", e.name) ∷ from_logo)
        refl (Keeps-name k refl (Keeps-logo k refl (Keeps-chno k refl (Keeps-group k refl)))) []
        refl

  read_logo : lookup (codes "tvg-logo") found ≡ field (is_empty e.logo_url) e.logo_url
  unfolding text_eq
  read_logo =
      let k = codes "tvg-logo" in
      Reads-behind_name k (field (is_empty e.logo_url) e.logo_url) refl refl (
        Reads-here k (is_empty e.logo_url) e.logo_url from_chno refl
          (Keeps-chno k refl (Keeps-group k refl)))

  read_chno : lookup (codes "tvg-chno") found ≡ field (e.number == 0) (decimal 20 e.number)
  unfolding text_eq
  read_chno =
      let k = codes "tvg-chno" in
      let o = field (e.number == 0) (decimal 20 e.number) in
      Reads-behind_name k o refl refl (
        Reads-unless k (is_empty e.logo_url) (codes "tvg-logo") e.logo_url from_chno o refl
          (Reads-here k (e.number == 0) (decimal 20 e.number) from_group refl (Keeps-group k refl)))

  read_group : lookup (codes "group-title") found ≡ field (is_empty e.group_title) e.group_title
  unfolding text_eq
  read_group =
      let k = codes "group-title" in
      let o = field (is_empty e.group_title) e.group_title in
      Reads-behind_name k o refl refl (
        Reads-unless k (is_empty e.logo_url) (codes "tvg-logo") e.logo_url from_chno o refl (
          Reads-unless k (e.number == 0) (codes "tvg-chno") (decimal 20 e.number) from_group o refl
            (Reads-here k (is_empty e.group_title) e.group_title [] refl (Keeps-nil k))))

  number_read :
      number_or_zero (atoi (or_blank (field (e.number == 0) (decimal 20 e.number)))) ≡ e.number
  unfolding atoi
  number_read = elim (Bool-cases (e.number == 0)) [
    | inl z ↦ rw (z, atoi) (sym ((==_iff e.number 0).0 z))
    | inr z ↦
        rw
          (
            z,
            trim_space-plain (decimal 20 e.number) (decimal-spaceless e.number),
            atoi-decimal e.number h.number_fits,
          )
          refl
  ]

  is_name :
      (if is_empty e.name
        then first_attr found (codes "tvg-name" ∷ codes "tvg_name" ∷ [])
        else e.name)
      ≡ e.name
  is_name = rw h.named refl

  is_number :
      number_or_zero (
        atoi (
          first_attr found
            (codes "tvg-chno" ∷ codes "tvg-chnum" ∷ codes "channel-number" ∷ codes "chno" ∷ [])))
      ≡ e.number
  unfolding text_eq
  is_number =
      ap (λ x. number_or_zero (atoi x))
        (first_attr-head found (codes "tvg-chno")
          (or_blank (field (e.number == 0) (decimal 20 e.number)))
          (codes "tvg-chnum" ∷ codes "channel-number" ∷ codes "chno" ∷ []) (ap or_blank read_chno)
          (
            unknown (codes "tvg-chnum") refl refl refl refl refl,
            (
              unknown (codes "channel-number") refl refl refl refl refl,
              (unknown (codes "chno") refl refl refl refl refl, tt),
            ),
          ))
      ∙ number_read

  is_id : first_attr found (codes "tvg-id" ∷ codes "tvg_id" ∷ []) ≡ public_id e
  unfolding text_eq
  is_id =
      first_attr-head found (codes "tvg-id") (public_id e) (codes "tvg_id" ∷ [])
        (ap or_blank read_id ∙ or_blank-field (public_id e) h.id_plain.2)
        (unknown (codes "tvg_id") refl refl refl refl refl, tt)

  is_group : first_attr found (codes "group-title" ∷ codes "group_title" ∷ []) ≡ e.group_title
  unfolding text_eq
  is_group =
      first_attr-head found (codes "group-title") e.group_title (codes "group_title" ∷ [])
        (ap or_blank read_group ∙ or_blank-field e.group_title h.group_plain.2)
        (unknown (codes "group_title") refl refl refl refl refl, tt)

  is_logo : first_attr found (codes "tvg-logo" ∷ codes "tvg_logo" ∷ codes "logo" ∷ []) ≡ e.logo_url
  unfolding text_eq
  is_logo =
      first_attr-head found (codes "tvg-logo") e.logo_url (codes "tvg_logo" ∷ codes "logo" ∷ [])
        (ap or_blank read_logo ∙ or_blank-field e.logo_url h.logo_plain.2)
        (
          unknown (codes "tvg_logo") refl refl refl refl refl,
          (unknown (codes "logo") refl refl refl refl refl, tt),
        )

  -- The fields are read as they were printed.
  pub entry_of_attrs-plain :
      entry_of_attrs found e.name ≡ bare e.name e.number (public_id e) e.group_title e.logo_url
  unfolding entry_of_attrs
  entry_of_attrs-plain =
      entry_eq _ e.name _ (public_id e) _ e.group_title _ e.logo_url _ e.number is_name is_number
        is_id is_group is_logo
