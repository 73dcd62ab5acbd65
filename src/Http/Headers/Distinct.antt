-- ===== src/Http/Headers/Distinct.antt =====
-- Setting and removing a header, against looking one up.
use esp_modem_link.Common.{
  ◌≡◌, refl, ap, ◌∙◌, true, false, Option, none, some, [], ◌∷◌, inl, inr, arith,
}
use esp_modem_link.Common.Lists.{Bytes, All, equal, equal_iff}
use esp_modem_link.Common.Search.{to_lower}
use esp_modem_link.Common.Tests.{if◌then◌else◌, Bool-cases}
use esp_modem_link.Http.Headers.{
  Headers, same_name, set_header, set_headers, remove_header, find_header, Distinct,
}

abbrev pub Other : Bytes → Headers → Type 0
Other key headers = All (λ (h : Bytes × Bytes). same_name h.0 key ≡ false) headers

same_name_refl : (a : Bytes) → same_name a a ≡ true
same_name_refl a = (equal_iff (to_lower a) (to_lower a)).1 refl

same_name_left : (a b c : Bytes) → same_name a b ≡ true → same_name a c ≡ same_name b c
same_name_left a b c h =
    ap (λ (s : Bytes). equal s (to_lower c)) ((equal_iff (to_lower a) (to_lower b)).0 h)

equal_comm : (a b : Bytes) → equal a b ≡ equal b a
equal_comm [] [] = refl
equal_comm [] (y ∷ b) = refl
equal_comm (x ∷ a) [] = refl
equal_comm (x ∷ a) (y ∷ b) = ground (arith, equal_comm a b)

pub same_name_comm : (a b : Bytes) → same_name a b ≡ same_name b a
same_name_comm a b = equal_comm (to_lower a) (to_lower b)

set_header-Other :
    (key value other : Bytes) (headers : Headers)
    → same_name key other ≡ false
    → Other other headers
    → Other other (set_header key value headers)
unfolding set_header
set_header-Other key value other [] h k = (h, tt)
set_header-Other key value other ((name, held) ∷ rest) h (k, ks) =
    elim (Bool-cases (same_name name key)) [
      | inl same ↦ rw same (k, ks)
      | inr new ↦ rw new (k, set_header-Other key value other rest h ks)
    ]

pub set_header-Distinct :
    (key value : Bytes) (headers : Headers)
    → Distinct headers
    → Distinct (set_header key value headers)
unfolding set_header
set_header-Distinct key value [] d = (tt, tt)
set_header-Distinct key value ((name, held) ∷ rest) (d, ds) =
    elim (Bool-cases (same_name name key)) [
      | inl same ↦ rw same (d, ds)
      | inr new ↦ rw new (
        set_header-Other key value name rest (same_name_comm key name ∙ new) d,
        set_header-Distinct key value rest ds,
      )
    ]

pub set_headers-Distinct :
    (more headers : Headers) → Distinct headers → Distinct (set_headers more headers)
unfolding set_headers
set_headers-Distinct [] headers d = d
set_headers-Distinct ((key, value) ∷ rest) headers d =
    set_headers-Distinct rest (set_header key value headers)
      (set_header-Distinct key value headers d)

remove_header-Other :
    (key other : Bytes) (headers : Headers)
    → Other other headers
    → Other other (remove_header key headers)
unfolding remove_header
remove_header-Other key other [] k = tt
remove_header-Other key other ((name, held) ∷ rest) (k, ks) =
    elim (Bool-cases (same_name name key)) [
      | inl same ↦ rw same (remove_header-Other key other rest ks)
      | inr new ↦ rw new (k, remove_header-Other key other rest ks)
    ]

pub remove_header-Distinct :
    (key : Bytes) (headers : Headers) → Distinct headers → Distinct (remove_header key headers)
unfolding remove_header
remove_header-Distinct key [] d = tt
remove_header-Distinct key ((name, held) ∷ rest) (d, ds) = elim (Bool-cases (same_name name key)) [
  | inl same ↦ rw same (remove_header-Distinct key rest ds)
  | inr new ↦ rw new (remove_header-Other key name rest d, remove_header-Distinct key rest ds)
]

pub find_header-set_header :
    (key value : Bytes) (headers : Headers)
    → find_header key (set_header key value headers) ≡ some value
unfolding find_header set_header
find_header-set_header key value [] = rw (same_name_refl key) refl
find_header-set_header key value ((name, held) ∷ rest) = elim (Bool-cases (same_name name key)) [
  | inl same ↦ rw (same, same) refl
  | inr new ↦ rw (new, new) (find_header-set_header key value rest)
]

pub find_header-remove_header :
    (key : Bytes) (headers : Headers) → find_header key (remove_header key headers) ≡ none
unfolding find_header remove_header
find_header-remove_header key [] = refl
find_header-remove_header key ((name, held) ∷ rest) = elim (Bool-cases (same_name name key)) [
  | inl same ↦ rw same (find_header-remove_header key rest)
  | inr new ↦ rw (new, new) (find_header-remove_header key rest)
]

-- Setting a header leaves those of other names.
pub find_header-set_header_other :
    (key value other : Bytes) (headers : Headers)
    → same_name key other ≡ false
    → find_header other (set_header key value headers) ≡ find_header other headers
unfolding find_header set_header
find_header-set_header_other key value other [] h = rw h refl
find_header-set_header_other key value other ((name, held) ∷ rest) h =
    elim (Bool-cases (same_name name key)) [
      | inl same ↦ let e = same_name_left name key other same ∙ h in rw (same, e) refl
      | inr new ↦ rw new (
          ap (λ (o : Option Bytes). if same_name name other then some held else o)
            (find_header-set_header_other key value other rest h))
    ]
