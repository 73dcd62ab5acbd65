-- ===== src/Http/Redirect/Normal.antt =====
-- What `NormalizePath` leaves of the segments of a path.
use esp_modem_link.Common.{
  ℕ, ◌≡◌, refl, Bool, true, false, ◌||◌, List, [], ◌∷◌, ◌++◌, append-nil, inl, inr, arith,
}
use esp_modem_link.Common.Lists.{Bytes, All, All-append}
use esp_modem_link.Common.Search.{index_of}
use esp_modem_link.Common.Search.Lacks.{Lacks}
use esp_modem_link.Common.Tests.{◌==◌, Bool-cases}
use esp_modem_link.Http.Redirect.{
  from_index, put_byte, split_path, is_dot, is_dot_dot, is_nil, pop_segment, push_segment,
  push_segments, join_segments, is_directory, written_path, normalize_path,
}
use esp_modem_link.Http.Url.{up_to}

-- A piece of a path that is neither "." nor "..".
abbrev pub NotDots : Bytes → Type 0
NotDots segment = (is_dot segment ≡ false) × (is_dot_dot segment ≡ false)

-- A segment on the stack: not empty, no dots, and no slash.
abbrev Plain : Bytes → Type 0
Plain segment = NotDots segment × (is_nil segment ≡ false) × Lacks b'/' segment

put_byte-Lacks :
    (c : ℕ) (pieces : List Bytes) → All (Lacks b'/') pieces → All (Lacks b'/') (put_byte c pieces)
put_byte-Lacks c [] h = elim (Bool-cases (c == b'/')) [
  | inl slash ↦ rw slash (tt, (tt, tt))
  | inr other ↦ rw other ((ground (arith, other), tt), tt)
]
put_byte-Lacks c (piece ∷ pieces) (h, hs) = elim (Bool-cases (c == b'/')) [
  | inl slash ↦ rw slash (tt, (h, hs))
  | inr other ↦ rw other ((ground (arith, other), h), hs)
]

split_path-Lacks : (s : Bytes) → All (Lacks b'/') (split_path s)
unfolding split_path
split_path-Lacks [] = (tt, tt)
split_path-Lacks (c ∷ cs) = put_byte-Lacks c (split_path cs) (split_path-Lacks cs)

pop_segment-Plain : (stack : List Bytes) → All Plain stack → All Plain (pop_segment stack)
pop_segment-Plain [] k = tt
pop_segment-Plain (s ∷ stack) (k, ks) = ks

push_segment-Plain :
    (segment : Bytes) (stack : List Bytes)
    → Lacks b'/' segment
    → All Plain stack
    → All Plain (push_segment segment stack)
push_segment-Plain segment stack h k = elim (Bool-cases (is_dot_dot segment)) [
  | inl up ↦ rw up (pop_segment-Plain stack k)
  | inr named ↦ elim (Bool-cases (is_dot segment || is_nil segment)) [
    | inl dropped ↦ rw (named, dropped) k
    | inr kept ↦ rw (named, kept) (((ground arith, named), ground arith, h), k)
  ]
]

push_segments-Plain :
    (segments stack : List Bytes)
    → All (Lacks b'/') segments
    → All Plain stack
    → All Plain (push_segments segments stack)
unfolding push_segments
push_segments-Plain [] stack h k = k
push_segments-Plain (segment ∷ rest) stack (h, hs) k =
    push_segments-Plain rest (push_segment segment stack) hs (push_segment-Plain segment stack h k)

-- There is a first piece always.
First : List Bytes → Type 0
First pieces = (piece : Bytes) × (rest : List Bytes) × (pieces ≡ piece ∷ rest)

put_byte-First : (c : ℕ) (pieces : List Bytes) → First (put_byte c pieces)
unfolding First
put_byte-First c [] = elim (Bool-cases (c == b'/')) [
  | inl slash ↦ ([], [] ∷ [], rw slash refl)
  | inr other ↦ (c ∷ [], [], rw other refl)
]
put_byte-First c (piece ∷ pieces) = elim (Bool-cases (c == b'/')) [
  | inl slash ↦ ([], piece ∷ pieces, rw slash refl)
  | inr other ↦ (c ∷ piece, pieces, rw other refl)
]

split_path-First : (s : Bytes) → First (split_path s)
unfolding split_path First
split_path-First [] = ([], [], refl)
split_path-First (c ∷ cs) = put_byte-First c (split_path cs)

put_byte-append :
    (c : ℕ) (pieces more : List Bytes)
    → First pieces
    → put_byte c (pieces ++ more) ≡ put_byte c pieces ++ more
unfolding First
put_byte-append c pieces more (piece, rest, e) = rw e (ground arith)

put_slash : (pieces : List Bytes) → First pieces → put_byte b'/' pieces ≡ [] ∷ pieces
unfolding First
put_slash pieces (piece, rest, e) = rw e refl

-- A slash-free text is one piece.
split_path-one : (s : Bytes) → Lacks b'/' s → split_path s ≡ s ∷ []
unfolding split_path
split_path-one [] h = refl
split_path-one (c ∷ cs) (hc, h) = rw (split_path-one cs h) (ground arith)

split_path-append : (s t : Bytes) → split_path (s ++ b'/' ∷ t) ≡ split_path s ++ split_path t
unfolding split_path
split_path-append [] t = put_slash (split_path t) (split_path-First t)
split_path-append (c ∷ cs) t =
    rw (split_path-append cs t)
      (put_byte-append c (split_path cs) (split_path t) (split_path-First cs))

empty-NotDots : NotDots []
empty-NotDots = (refl, refl)

join_segments-NotDots :
    (stack : List Bytes) → All Plain stack → All NotDots (split_path (join_segments stack))
unfolding join_segments split_path
join_segments-NotDots [] k = (empty-NotDots, tt)
join_segments-NotDots (segment ∷ below) ((named, some', free), ks) =
    rw (split_path-append (join_segments below) segment, split_path-one segment free)
      (All-append NotDots (split_path (join_segments below)) (segment ∷ [])
        (join_segments-NotDots below ks) (named, tt))

written_path-NotDots :
    (stack : List Bytes) (directory : Bool)
    → All Plain stack
    → All NotDots (split_path (written_path stack directory))
unfolding split_path
written_path-NotDots [] directory k = (empty-NotDots, (empty-NotDots, tt))
written_path-NotDots (s ∷ stack) true k = rw (split_path-append (join_segments (s ∷ stack)) []) (
    All-append NotDots (split_path (join_segments (s ∷ stack))) ([] ∷ [])
      (join_segments-NotDots (s ∷ stack) k) (empty-NotDots, tt))
written_path-NotDots (s ∷ stack) false k =
    rw (append-nil (join_segments (s ∷ stack))) (join_segments-NotDots (s ∷ stack) k)

-- A normalized path is a path of which no piece between slashes is "." or "..", and behind it the
-- query as it was: no redirect makes the client ask for a path with such a segment.
pub normalize_path-NotDots :
    (path : Bytes)
    → (normal : Bytes) × (normalize_path path ≡ normal ++ from_index (index_of b'?' path) path)
      × All NotDots (split_path normal)
unfolding normalize_path
normalize_path-NotDots path =
    let part = up_to (index_of b'?' path) path in
    let stack = push_segments (split_path part) [] in
    (
      written_path stack (is_directory part),
      refl,
      written_path-NotDots stack (is_directory part)
          (push_segments-Plain (split_path part) [] (split_path-Lacks part) tt),
    )
