-- ===== src/Epg/Order.antt =====
-- internal/core/epg/guide.go and service.go: the order in which channels are shown. `sort.SliceStable` is an insertion sort here:
-- a stable sort by a given order has one result.
use tvr.Base.{Bool, true, false, List, [], ◌∷◌, if◌then◌else◌, Text, is_empty, trim_space, Dict}
use tvr.Utils.Natsort.{less, same, greater, Unicode, natural_compare, natural_less}
use tvr.Epg.Documents.{TvText, TvChannel, TvDocument}
use tvr.Epg.Service.{ChannelInfo}

unfoldable pub insert_sorted {ℓ} : {A : Type ℓ} → (A → A → Bool) → A → List A → List A
insert_sorted before x [] = x ∷ []
insert_sorted before x (y ∷ ys) =
    let rest = insert_sorted before x ys in if before y x then y ∷ rest else x ∷ y ∷ ys

unfoldable pub sort_stable {ℓ} : {A : Type ℓ} → (A → A → Bool) → List A → List A
sort_stable before [] = []
sort_stable before (x ∷ xs) = insert_sorted before x (sort_stable before xs)

abbrev pub guide_sort_key : Text → Text → Text
guide_sort_key name id = if is_empty (trim_space name) then id else trim_space name

unfoldable pub guide_channel_less : Unicode → Text → Text → Text → Text → Bool
guide_channel_less u name_a id_a name_b id_b =
    elim (natural_compare u (guide_sort_key name_a id_a) (guide_sort_key name_b id_b)) [
      | less ↦ true
      | greater ↦ false
      | same ↦ natural_less u id_a id_b
    ]

abbrev pub first_name : List Text → Text
first_name [] = []
first_name (n ∷ ns) = n

abbrev pub channel_sort_name : ChannelInfo → Text
channel_sort_name ch = first_name ch.display_names

unfoldable pub names_of : List TvText → List Text
names_of [] = []
names_of (dn ∷ dns) = let rest = names_of dns in if is_empty dn.text then rest else dn.text ∷ rest

unfoldable pub infos_of : Dict Text TvChannel → List ChannelInfo
infos_of [] = []
infos_of ((id, ch) ∷ rest) =
    record { id = id; display_names = names_of ch.display_names } ∷ infos_of rest

unfoldable pub index_from_doc : Unicode → TvDocument → List ChannelInfo
index_from_doc u doc =
    sort_stable (λ a b. guide_channel_less u (channel_sort_name a) a.id (channel_sort_name b) b.id)
      (infos_of doc.channels)
