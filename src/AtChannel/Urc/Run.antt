-- ===== src/AtChannel/Urc/Run.antt =====
-- A dispatcher over a sequence of calls, against the list of its live subscriptions.
use esp_modem_link.Common.{
  ℕ, suc, ◌+◌, ◌^◌, ◌≤◌, ◌<◌, Bool, ◌&&◌, List, [], ◌∷◌, ◌++◌, ◌≡◌, ◌≢◌, refl, sym, ap, ◌∙◌, inl,
  inr, arith,
}
use esp_modem_link.Common.Lists.{Bytes, starts_with, length}
use esp_modem_link.Common.Search.{index_of}
use esp_modem_link.Common.Tests.{◌==◌, if◌then◌else◌, Bool-cases}
use esp_modem_link.AtChannel.Urc.{
  HandlerEntry, Table, UrcDispatcher, new_dispatcher, subscribe, unsubscribe, Call, calls_of,
  matches, dispatch_trimmed, dispatch, trim, command_of, arguments_of, push_entry,
}
use esp_modem_link.AtChannel.Urc.Live.{
  Weight, masked, held, sum, total, Arranges, total-push_entry, total-erase_handle, Subscriptions,
  weigh, remove_subscription, weigh-append, weigh-remove_subscription, weigh-masked,
}

-- A call that changes the dispatcher.
pub data Operation : Type 0 where
  subscribes : Bytes → Bool → Operation
  unsubscribes : ℕ → Operation

pub perform : (Table → Table) → Operation → UrcDispatcher → UrcDispatcher
perform arrange (subscribes prefix callable) d = (subscribe arrange prefix callable d).0
perform arrange (unsubscribes handle) d = unsubscribe handle d

pub perform_all : (Table → Table) → List Operation → UrcDispatcher → UrcDispatcher
perform_all arrange [] d = d
perform_all arrange (op ∷ ops) d = perform_all arrange ops (perform arrange op d)

-- The live subscriptions, with the handle that the next has.
pub record Live : Type 0 where
  pub next : ℕ
  pub subscriptions : Subscriptions

pub after : Operation → Live → Live
after (subscribes prefix callable) l = record {
  next = suc l.next;
  subscriptions = l.subscriptions ++ (prefix, record { handle = l.next; callable = callable }) ∷ [];
}
after (unsubscribes handle) l = record l {
  subscriptions = remove_subscription handle l.subscriptions;
}

pub after_all : List Operation → Live → Live
after_all [] l = l
after_all (op ∷ ops) l = after_all ops (after op l)

-- The table holds the live subscriptions, each handle once, and no handle of the future.
record Agrees (d : UrcDispatcher) (l : Live) : Type 0 where
  next : d.next_handle ≡ l.next
  weights : (f : Weight) → total f d.handlers ≡ weigh f l.subscriptions
  once : (h : ℕ) → weigh (held h) l.subscriptions ≤ 1
  future : (h : ℕ) → l.next ≤ h → weigh (held h) l.subscriptions ≡ 0

Agrees-subscribes :
    (arrange : Table → Table) (prefix : Bytes) (callable : Bool) (d : UrcDispatcher) (l : Live)
    → Arranges arrange
    → l.next + 1 < 2 ^ 64
    → Agrees d l
    → Agrees (perform arrange (subscribes prefix callable) d) (after (subscribes prefix callable) l)
unfolding perform after subscribe
Agrees-subscribes arrange prefix callable d l arranged small a =
    let e : HandlerEntry = record { handle = l.next; callable = callable } in
    let e' : HandlerEntry = record { handle = d.next_handle; callable = callable } in
    let same : e' ≡ e = ap (λ (h : ℕ). record { handle = h; callable = callable }) a.next in
    record {
      next = omega (arith, a.next);
      weights = λ f. omega (
        arith,
        arranged f (push_entry prefix e' d.handlers),
        total-push_entry f prefix e' d.handlers,
        a.weights f,
        weigh-append f l.subscriptions prefix e,
        ap (f prefix) same,
      );
      once = λ h. elim (Bool-cases (l.next == h)) [
        | inl new ↦ ground (arith, new, weigh-append (held h) l.subscriptions prefix e, a.future h)
        | inr old ↦ ground (arith, old, weigh-append (held h) l.subscriptions prefix e, a.once h)
      ];
      future = λ h later. ground (
        arith,
        later,
        weigh-append (held h) l.subscriptions prefix e,
        a.future h (omega (arith, later)),
      );
    }

Agrees-unsubscribes :
    (arrange : Table → Table) (handle : ℕ) (d : UrcDispatcher) (l : Live)
    → Agrees d l
    → Agrees (perform arrange (unsubscribes handle) d) (after (unsubscribes handle) l)
unfolding perform after unsubscribe
Agrees-unsubscribes arrange handle d l a =
    let removed = weigh-remove_subscription handle in
    record {
      next = a.next;
      weights = λ f.
          total-erase_handle handle f d.handlers
            (omega (arith, a.weights (held handle), a.once handle))
          ∙ a.weights (masked handle f)
          ∙ sym (removed f l.subscriptions);
      once = λ h. omega (
        arith,
        removed (held h) l.subscriptions,
        weigh-masked handle (held h) l.subscriptions,
        a.once h,
      );
      future = λ h later. omega (
        arith,
        removed (held h) l.subscriptions,
        weigh-masked handle (held h) l.subscriptions,
        a.future h later,
      );
    }

Agrees-perform_all :
    (arrange : Table → Table) (ops : List Operation) (d : UrcDispatcher) (l : Live)
    → Arranges arrange
    → l.next + length ops < 2 ^ 64
    → Agrees d l
    → Agrees (perform_all arrange ops d) (after_all ops l)
unfolding perform_all after_all after
Agrees-perform_all arrange [] d l arranged small a = a
Agrees-perform_all arrange (subscribes prefix callable ∷ ops) d l arranged small a =
    Agrees-perform_all arrange ops (perform arrange (subscribes prefix callable) d)
      (after (subscribes prefix callable) l) arranged (omega (arith, small))
      (Agrees-subscribes arrange prefix callable d l arranged (omega (arith, small)) a)
Agrees-perform_all arrange (unsubscribes handle ∷ ops) d l arranged small a =
    Agrees-perform_all arrange ops (perform arrange (unsubscribes handle) d)
      (after (unsubscribes handle) l) arranged (omega (arith, small))
      (Agrees-unsubscribes arrange handle d l a)

-- How often the handler of a handle is invoked.
pub invoked : ℕ → List Call → ℕ
invoked h [] = 0
invoked h (c ∷ calls) = (if c.handle == h then 1 else 0) + invoked h calls

-- One for an entry that a command runs.
abbrev pub runs : ℕ → Bytes → Weight
runs h command prefix e =
    if starts_with command prefix && (e.callable && e.handle == h) then 1 else 0

invoked-append : (h : ℕ) (xs ys : List Call) → invoked h (xs ++ ys) ≡ invoked h xs + invoked h ys
unfolding invoked
invoked-append h [] ys = omega arith
invoked-append h (x ∷ xs) ys = omega (arith, invoked-append h xs ys)

invoked-calls_of :
    (h : ℕ) (command arguments prefix : Bytes) (entries : List HandlerEntry)
    → invoked h (if starts_with command prefix then calls_of command arguments entries else [])
      ≡ sum (runs h command prefix) entries
unfolding invoked calls_of sum
invoked-calls_of h command arguments prefix [] = ground arith
invoked-calls_of h command arguments prefix (e ∷ entries) =
    let rest = invoked-calls_of h command arguments prefix entries in
    elim (Bool-cases (starts_with command prefix)) [
      | inl begins ↦ elim (Bool-cases e.callable) [
        | inl set ↦ rw (begins, set) (omega (arith, rw begins at rest))
        | inr unset ↦ rw (begins, unset) (omega (arith, rw begins at rest))
      ]
      | inr apart ↦ rw apart (omega (arith, rw apart at rest))
    ]

invoked-matches :
    (h : ℕ) (command arguments : Bytes) (table : Table)
    → invoked h (matches command arguments table) ≡ total (runs h command) table
unfolding matches total invoked
invoked-matches h command arguments [] = refl
invoked-matches h command arguments ((key, entries) ∷ rest) = omega (
  arith,
  invoked-append h (if starts_with command key then calls_of command arguments entries else [])
      (matches command arguments rest),
  invoked-calls_of h command arguments key entries,
  invoked-matches h command arguments rest,
)

abbrev pub nothing_live : Live
nothing_live = record { next = 1; subscriptions = [] }

nothing_live-Agrees : Agrees new_dispatcher nothing_live
unfolding total weigh
nothing_live-Agrees = record {
  next = refl;
  weights = λ f. refl;
  once = λ h. omega arith;
  future = λ h later. refl;
}

-- The command of a line that is trimmed.
abbrev pub line_command : Bytes → Bytes
line_command line = command_of (index_of b':' line) line

invoked-dispatch_trimmed :
    (h : ℕ) (line : Bytes) (table : Table)
    → line ≢ []
    → invoked h (dispatch_trimmed line table) ≡ total (runs h (line_command line)) table
unfolding dispatch_trimmed
invoked-dispatch_trimmed h [] table ne = absurd (ne refl)
invoked-dispatch_trimmed h (c ∷ cs) table ne =
    let colon = index_of b':' (c ∷ cs) in
    invoked-matches h (command_of colon (c ∷ cs)) (arguments_of colon (c ∷ cs)) table

-- After any sequence of subscriptions and withdrawals, fewer than 2 ^ 64 - 1, and however the map
-- arranges its buckets: a line that is not blank invokes the handler of a handle as often as it is
-- subscribed, with a callable handler, to a prefix of the command.
pub invoked-dispatch :
    (arrange : Table → Table) (ops : List Operation) (line : Bytes) (h : ℕ)
    → Arranges arrange
    → length ops + 1 < 2 ^ 64
    → trim line ≢ []
    → invoked h (dispatch line (perform_all arrange ops new_dispatcher))
      ≡ weigh (runs h (line_command (trim line))) (after_all ops nothing_live).subscriptions
unfolding dispatch
invoked-dispatch arrange ops line h arranged small ne =
    let d = perform_all arrange ops new_dispatcher in
    invoked-dispatch_trimmed h (trim line) d.handlers ne
    ∙ (Agrees-perform_all arrange ops new_dispatcher nothing_live arranged (omega (arith, small))
          nothing_live-Agrees).weights
        (runs h (line_command (trim line)))
