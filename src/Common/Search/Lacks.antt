-- ===== src/Common/Search/Lacks.antt =====
-- What the searches find in a text that lacks the bytes that are looked for.
use Prim.Native.Nat.{ℕ}
use mathlib.Core.Path.{◌≡◌, refl}
use mathlib.Core.Logic.{◌≢◌}
use mathlib.Core.Bool.{Bool, true, false}
use mathlib.Core.Option.{none, some}
use mathlib.Core.List.{[], ◌∷◌, ◌++◌}
use native.Mathlib.Omega.{arith}
use esp_modem_link.Common.Lists.{Bytes, All, length}
use esp_modem_link.Common.Search.{index_of, index_where, last_index_of}

abbrev pub Lacks : ℕ → Bytes → Type 0
Lacks c s = All (λ x. x ≢ c) s

-- No byte passes the test.
abbrev pub Fails : (ℕ → Bool) → Bytes → Type 0
Fails p s = All (λ x. p x ≡ false) s

pub index_of-Lacks : (c : ℕ) (s : Bytes) → Lacks c s → index_of c s ≡ none
unfolding index_of
index_of-Lacks c [] h = refl
index_of-Lacks c (x ∷ s) (hx, hs) = ground (arith, index_of-Lacks c s hs)

pub index_of-seam : (c : ℕ) (s t : Bytes) → Lacks c s → index_of c (s ++ c ∷ t) ≡ some (length s)
unfolding index_of
index_of-seam c [] t h = ground arith
index_of-seam c (x ∷ s) t (hx, hs) = ground (arith, index_of-seam c s t hs)

pub index_where-Fails : (p : ℕ → Bool) (s : Bytes) → Fails p s → index_where p s ≡ none
unfolding index_where
index_where-Fails p [] h = refl
index_where-Fails p (x ∷ s) (hx, hs) = ground (arith, index_where-Fails p s hs)

pub index_where-seam :
    (p : ℕ → Bool) (s : Bytes) (c : ℕ) (t : Bytes)
    → Fails p s
    → p c ≡ true
    → index_where p (s ++ c ∷ t) ≡ some (length s)
unfolding index_where
index_where-seam p [] c t h hc = ground arith
index_where-seam p (x ∷ s) c t (hx, hs) hc = ground (arith, index_where-seam p s c t hs hc)

pub last_index_of-Lacks : (c : ℕ) (s : Bytes) → Lacks c s → last_index_of c s ≡ none
unfolding last_index_of
last_index_of-Lacks c [] h = refl
last_index_of-Lacks c (x ∷ s) (hx, hs) = ground (arith, last_index_of-Lacks c s hs)

pub last_index_of-seam :
    (c : ℕ) (s t : Bytes) → Lacks c t → last_index_of c (s ++ c ∷ t) ≡ some (length s)
unfolding last_index_of
last_index_of-seam c [] t h = ground (arith, last_index_of-Lacks c t h)
last_index_of-seam c (x ∷ s) t h = ground (arith, last_index_of-seam c s t h)
