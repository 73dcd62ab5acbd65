-- ===== src/Common/Search.antt =====
-- Searching and trimming byte strings, as `std::string_view::find`, `rfind` and the loops of the
-- source do it, with the character classes of the C locale.
pub mod Lacks
use Prim.Native.Nat.{ℕ, zero, suc, ◌+◌, ◌<◌}
use mathlib.Core.Logic.{◌≢◌}
use mathlib.Core.Path.{◌≡◌, refl}
use mathlib.Core.Bool.{Bool, ◌&&◌, ◌||◌}
use mathlib.Core.Option.{Option, none, some}
use mathlib.Core.Option
use mathlib.Core.List.{[], ◌∷◌, ◌++◌, map}
use native.Mathlib.Omega.{arith}
use esp_modem_link.Common.Tests.{leb, ◌==◌, if◌then◌else◌}
use esp_modem_link.Common.Lists.{Bytes, length, take, drop, All}

-- `s.find(c)`
unfoldable pub index_of : ℕ → Bytes → Option ℕ
index_of c [] = none
index_of c (x ∷ xs) = if x == c then some 0 else Option.map suc (index_of c xs)

-- `s.find_first_of`, for the bytes that pass a test.
unfoldable pub index_where : (ℕ → Bool) → Bytes → Option ℕ
index_where p [] = none
index_where p (x ∷ xs) =
    let rest = Option.map suc (index_where p xs) in if p x then some 0 else rest

-- `s.rfind(c)`
unfoldable pub last_index_of : ℕ → Bytes → Option ℕ
last_index_of c [] = none
last_index_of c (x ∷ xs) = elim (last_index_of c xs) [
  | some i ↦ some (suc i)
  | none ↦ if x == c then some 0 else none
]

-- `s.find("\r\n")`
unfoldable pub index_of_crlf : Bytes → Option ℕ
index_of_crlf [] = none
index_of_crlf (x ∷ []) = none
index_of_crlf (x ∷ y ∷ ys) =
    if x == b'\r' && y == b'\n' then some 0 else Option.map suc (index_of_crlf (y ∷ ys))

-- `while (!s.empty() && p(s.front())) s.remove_prefix(1);`
unfoldable pub drop_while : (ℕ → Bool) → Bytes → Bytes
drop_while p [] = []
drop_while p (x ∷ xs) = let rest = drop_while p xs in if p x then rest else x ∷ xs

-- `while (!s.empty() && p(s.back())) s.remove_suffix(1);`
unfoldable pub drop_while_back : (ℕ → Bool) → Bytes → Bytes
drop_while_back p [] = []
drop_while_back p (x ∷ xs) = elim (drop_while_back p xs) [
  | [] ↦ if p x then [] else x ∷ []
  | y ∷ ys ↦ x ∷ y ∷ ys
]

unfoldable pub trim_with : (ℕ → Bool) → Bytes → Bytes
trim_with p s = drop_while_back p (drop_while p s)

-- `std::isspace`
abbrev pub is_space : ℕ → Bool
is_space c = c == b' ' || (leb 9 c && leb c 13)

-- `c == ' ' || c == '\t'`
abbrev pub is_blank : ℕ → Bool
is_blank c = c == b' ' || c == b'\t'

abbrev pub is_digit : ℕ → Bool
is_digit c = leb b'0' c && leb c b'9'

-- `std::tolower`
abbrev pub to_lower_byte : ℕ → ℕ
to_lower_byte c = if leb b'A' c && leb c b'Z' then c + 32 else c

unfoldable pub to_lower : Bytes → Bytes
to_lower s = map to_lower_byte s

-- The byte that was looked for stands at the index found, and not before it.
pub index_of-some :
    (c : ℕ) (s : Bytes) (i : ℕ)
    → index_of c s ≡ some i
    → (s ≡ take i s ++ c ∷ drop (suc i) s) × (index_of c (take i s) ≡ none) × (i < length s)
unfolding index_of
index_of-some c [] i e = cc
index_of-some c (x ∷ xs) zero e = ground arith
index_of-some c (x ∷ xs) (suc i) e = ground (arith, index_of-some c xs i)

-- A text with neither of the bytes that can end a line.
abbrev pub IsText : Bytes → Type 0
IsText s = All (λ c. (c ≢ b'\r') × (c ≢ b'\n')) s

pub index_of_crlf_step :
    (x : ℕ) (s : Bytes) → x ≢ b'\r' → index_of_crlf (x ∷ s) ≡ Option.map suc (index_of_crlf s)
unfolding index_of_crlf
index_of_crlf_step x [] h = refl
index_of_crlf_step x (y ∷ ys) h = ground arith

-- Behind such a text the first CRLF is that of what follows.
pub index_of_crlf-text :
    (l t : Bytes)
    → IsText l
    → index_of_crlf (l ++ t) ≡ Option.map (λ i. length l + i) (index_of_crlf t)
index_of_crlf-text [] t h = ground arith
index_of_crlf-text (x ∷ l) t (hx, hs) =
    ground (arith, index_of_crlf_step x (l ++ t) hx.0, index_of_crlf-text l t hs)

-- The first line feed behind such a text is at its end.
pub index_of-text : (l t : Bytes) → IsText l → index_of b'\n' (l ++ b'\n' ∷ t) ≡ some (length l)
unfolding index_of
index_of-text [] t h = refl
index_of-text (x ∷ l) t (hx, hs) = ground (arith, index_of-text l t hs)

pub index_of_crlf_here : (t : Bytes) → index_of_crlf (b'\r' ∷ b'\n' ∷ t) ≡ some 0
unfolding index_of_crlf
index_of_crlf_here t = refl
