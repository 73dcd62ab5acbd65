-- ===== src/AtChannel/Urc/Live.antt =====
-- The subscriptions that are live, against the handlers that a line runs.
use esp_modem_link.Common.{
  ℕ, ◌+◌, ◌≤◌, ◌<◌, true, false, List, [], ◌∷◌, ◌++◌, ◌≡◌, refl, ap, inl, inr, arith,
}
use esp_modem_link.Common.Lists.{Bytes, equal, equal_iff}
use esp_modem_link.Common.Tests.{◌==◌, if◌then◌else◌, Bool-cases}
use esp_modem_link.AtChannel.Urc.{
  HandlerEntry, Table, push_entry, has_handle, without_handle, erase_handle,
}

-- What entries weigh, by their prefix.
abbrev pub Weight : Type 0
Weight = Bytes → HandlerEntry → ℕ

unfoldable pub sum : (HandlerEntry → ℕ) → List HandlerEntry → ℕ
sum f [] = 0
sum f (e ∷ entries) = f e + sum f entries

unfoldable pub total : Weight → Table → ℕ
unfolding sum
total f [] = 0
total f ((key, entries) ∷ rest) = sum (f key) entries + total f rest

-- An arrangement of the buckets loses no entry and makes none.
abbrev pub Arranges : (Table → Table) → Type 0
Arranges arrange = (f : Weight) (table : Table) → total f (arrange table) ≡ total f table

sum-append :
    (f : HandlerEntry → ℕ) (xs : List HandlerEntry) (e : HandlerEntry)
    → sum f (xs ++ e ∷ []) ≡ sum f xs + f e
unfolding sum
sum-append f [] e = omega arith
sum-append f (x ∷ xs) e = omega (arith, sum-append f xs e)

pub total-push_entry :
    (f : Weight) (prefix : Bytes) (e : HandlerEntry) (table : Table)
    → total f (push_entry prefix e table) ≡ total f table + f prefix e
unfolding total push_entry sum
total-push_entry f prefix e [] = omega arith
total-push_entry f prefix e ((key, entries) ∷ rest) = elim (Bool-cases (equal key prefix)) [
  | inl same ↦
      let moved = ap (λ (k : Bytes). f k e) ((equal_iff key prefix).0 same) in
      rw same (omega (arith, sum-append (f key) entries e, moved))
  | inr other ↦ rw other (omega (arith, total-push_entry f prefix e rest))
]

-- The weight without one handle, and the number of its entries.
abbrev pub masked : ℕ → Weight → Weight
masked h f key e = if e.handle == h then 0 else f key e

abbrev pub held : ℕ → Weight
held h key e = if e.handle == h then 1 else 0

sum-without_handle :
    (h : ℕ) (f : Weight) (key : Bytes) (entries : List HandlerEntry)
    → sum (f key) (without_handle h entries) ≡ sum (masked h f key) entries
unfolding sum without_handle
sum-without_handle h f key [] = refl
sum-without_handle h f key (e ∷ entries) = elim (Bool-cases (e.handle == h)) [
  | inl gone ↦ rw gone (omega (arith, sum-without_handle h f key entries))
  | inr kept ↦ rw kept (omega (arith, sum-without_handle h f key entries))
]

sum-unheld :
    (h : ℕ) (f : Weight) (key : Bytes) (entries : List HandlerEntry)
    → sum (held h key) entries ≡ 0
    → sum (masked h f key) entries ≡ sum (f key) entries
unfolding sum
sum-unheld h f key [] e = refl
sum-unheld h f key (x ∷ entries) e = elim (Bool-cases (x.handle == h)) [
  | inl there ↦ absurd (ground (arith, there))
  | inr other ↦ ground (arith, other, sum-unheld h f key entries)
]

total-unheld :
    (h : ℕ) (f : Weight) (table : Table)
    → total (held h) table ≡ 0
    → total (masked h f) table ≡ total f table
unfolding total
total-unheld h f [] e = refl
total-unheld h f ((key, entries) ∷ rest) e =
    omega (arith, sum-unheld h f key entries (omega arith), total-unheld h f rest (omega arith))

has_handle-held :
    (h : ℕ) (key : Bytes) (entries : List HandlerEntry)
    → (has_handle h entries ≡ true → 0 < sum (held h key) entries)
      × (has_handle h entries ≡ false → sum (held h key) entries ≡ 0)
unfolding sum has_handle
has_handle-held h key [] = ((λ e. cc), (λ e. refl))
has_handle-held h key (x ∷ entries) =
    let (there, missing) = has_handle-held h key entries in
    elim (Bool-cases (x.handle == h)) [
      | inl same ↦ rw same ((λ e. omega arith), (λ e. cc))
      | inr other ↦ rw other (
        (λ e. let more : 0 < sum (held h key) entries = there e in omega (arith, more)),
        (λ e. let none_left : sum (held h key) entries ≡ 0 = missing e in omega (arith, none_left)),
      )
    ]

-- A handle that is held once at most is taken off by the walk.
pub total-erase_handle :
    (h : ℕ) (f : Weight) (table : Table)
    → total (held h) table ≤ 1
    → total f (erase_handle h table) ≡ total (masked h f) table
unfolding total erase_handle
total-erase_handle h f [] once = refl
total-erase_handle h f ((key, entries) ∷ rest) once =
    let (there, missing) = has_handle-held h key entries in
    elim (Bool-cases (has_handle h entries)) [
      | inl found ↦
          let some_held : 0 < sum (held h key) entries = there found in
          let unheld = total-unheld h f rest (omega (arith, some_held)) in
          rw found (omega (arith, sum-without_handle h f key entries, unheld))
      | inr absent ↦
          let none_held : sum (held h key) entries ≡ 0 = missing absent in
          rw absent (
            omega (
              arith,
              sum-unheld h f key entries none_held,
              total-erase_handle h f rest (omega (arith, none_held)),
            ))
    ]

-- The subscriptions as a list, oldest first.
abbrev pub Subscriptions : Type 0
Subscriptions = List (Bytes × HandlerEntry)

unfoldable pub weigh : Weight → Subscriptions → ℕ
weigh f [] = 0
weigh f ((prefix, e) ∷ subs) = f prefix e + weigh f subs

pub remove_subscription : ℕ → Subscriptions → Subscriptions
remove_subscription h [] = []
remove_subscription h ((prefix, e) ∷ subs) =
    let others = remove_subscription h subs in
    if e.handle == h then others else (prefix, e) ∷ others

pub weigh-append :
    (f : Weight) (subs : Subscriptions) (prefix : Bytes) (e : HandlerEntry)
    → weigh f (subs ++ (prefix, e) ∷ []) ≡ weigh f subs + f prefix e
unfolding weigh
weigh-append f [] prefix e = omega arith
weigh-append f ((p, x) ∷ subs) prefix e = omega (arith, weigh-append f subs prefix e)

pub weigh-remove_subscription :
    (h : ℕ) (f : Weight) (subs : Subscriptions)
    → weigh f (remove_subscription h subs) ≡ weigh (masked h f) subs
unfolding weigh remove_subscription
weigh-remove_subscription h f [] = refl
weigh-remove_subscription h f ((p, e) ∷ subs) = elim (Bool-cases (e.handle == h)) [
  | inl gone ↦ rw gone (omega (arith, weigh-remove_subscription h f subs))
  | inr kept ↦ rw kept (omega (arith, weigh-remove_subscription h f subs))
]

pub weigh-masked :
    (h : ℕ) (f : Weight) (subs : Subscriptions) → weigh (masked h f) subs ≤ weigh f subs
unfolding weigh
weigh-masked h f [] = omega arith
weigh-masked h f ((p, e) ∷ subs) = elim (Bool-cases (e.handle == h)) [
  | inl gone ↦ rw gone (omega (arith, weigh-masked h f subs))
  | inr kept ↦ rw kept (omega (arith, weigh-masked h f subs))
]
