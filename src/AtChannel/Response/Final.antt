-- ===== src/AtChannel/Response/Final.antt =====
-- What a line of a modem's response says of the end, in terms of its bytes alone, against
-- `IsStatusLine` of response_parser.cpp.
use esp_modem_link.Common.{
  ℕ, ◌+◌, ◌-◌, ◌*◌, ◌≤◌, Bool, true, false, none, some, List, [], ◌∷◌, ◌++◌, arith, ◌≡◌, ◌≢◌, refl,
  sym, ap, ◌∙◌, inl, inr,
}
use esp_modem_link.Common.Int.{pos, int_max}
use esp_modem_link.Common.Lists.{Bytes, codes, drop, equal, equal_iff, starts_with, All}
use esp_modem_link.Common.Search.{is_digit}
use esp_modem_link.Common.Tests.{ltb, if◌then◌else◌, Bool-cases}
use esp_modem_link.Error.{AtErrc, AtError, at_error, at_error_code}
use esp_modem_link.AtChannel.Response.{
  no_response, trim, Status, other_line, final_line, error_code, coded, coded_line, status_line,
  ended, is_echo,
}

-- A line that says nothing about the end.
pub record Ordinary (l : Bytes) : Type 0 where
  pub not_ok : l ≢ codes "OK"
  pub not_error : l ≢ codes "ERROR"
  pub not_prompt : l ≢ codes ">"
  pub no_cme_error : starts_with l (codes "+CME ERROR:") ≡ false
  pub no_cms_error : starts_with l (codes "+CMS ERROR:") ≡ false

-- The number that decimal digits stand for, behind `value`.
abbrev pub digits_from : ℕ → Bytes → ℕ
digits_from value [] = value
digits_from value (d ∷ ds) = digits_from (value * 10 + (d - b'0')) ds

-- A text that does not begin with a digit.
abbrev pub StartsPlain : Bytes → Type 0
StartsPlain [] = Unit
StartsPlain (c ∷ cs) = is_digit c ≡ false

-- The digits in front of a text, as a number of an `int`.
pub record Code (text : Bytes) (n : ℕ) : Type 0 where
  pub digits : Bytes
  pub behind : Bytes
  pub splits : digits ++ behind ≡ text
  pub are_digits : All (λ d. is_digit d ≡ true) digits
  pub plain : StartsPlain behind
  pub value : digits_from 0 digits ≡ n
  pub fits : n ≤ int_max

-- A line that ends a response: with success or not, and the error of the result.
pub data Final (l : Bytes) (ok : Bool) (e : AtError) : Type 0 where
  success : l ≡ codes "OK" → ok ≡ true → e ≡ at_error AtErrc.command_error [] → Final l ok e
  prompt : l ≡ codes ">" → ok ≡ true → e ≡ at_error AtErrc.command_error [] → Final l ok e
  failure : l ≡ codes "ERROR" → ok ≡ false → e ≡ at_error AtErrc.command_error [] → Final l ok e
  cme_failure :
      (field : Bytes) (n : ℕ)
      → l ≡ codes "+CME ERROR:" ++ field
      → Code (trim field) n
      → ok ≡ false
      → e ≡ at_error_code AtErrc.cme_error (pos n) (trim field)
      → Final l ok e
  cms_failure :
      (field : Bytes) (n : ℕ)
      → l ≡ codes "+CMS ERROR:" ++ field
      → Code (trim field) n
      → ok ≡ false
      → e ≡ at_error_code AtErrc.cms_error (pos n) (trim field)
      → Final l ok e

digits_from-ge : (v : ℕ) (ds : Bytes) → v ≤ digits_from v ds
digits_from-ge v [] = omega arith
digits_from-ge v (d ∷ ds) = omega (arith, digits_from-ge (v * 10 + (d - b'0')) ds)

error_code-digits :
    (v : ℕ) (ds behind : Bytes)
    → All (λ d. is_digit d ≡ true) ds
    → StartsPlain behind
    → digits_from v ds ≤ int_max
    → error_code v (ds ++ behind) ≡ some (digits_from v ds)
unfolding error_code
error_code-digits v [] [] all plain fits = refl
error_code-digits v [] (c ∷ cs) all plain fits = rw plain refl
error_code-digits v (d ∷ ds) behind (digit, all) plain fits =
    let next = v * 10 + (d - b'0') in
    let small : ltb int_max next ≡ false = ground (arith, digits_from-ge next ds) in
    rw (digit, small) (error_code-digits next ds behind all plain fits)

error_code-Code : (text : Bytes) (n : ℕ) → Code text n → error_code 0 text ≡ some n
error_code-Code text n c =
    ap (error_code 0) (sym c.splits)
    ∙ error_code-digits 0 c.digits c.behind c.are_digits c.plain (rw c.value c.fits)
    ∙ ap some c.value

equal_no : (a b : Bytes) → a ≢ b → equal a b ≡ false
equal_no a b h = elim (Bool-cases (equal a b)) [
  | inl same ↦ absurd (h ((equal_iff a b).0 same))
  | inr other ↦ other
]

pub Ordinary-other_line : (l : Bytes) → trim l ≡ l → Ordinary l → status_line l ≡ other_line
unfolding status_line
Ordinary-other_line l bare h =
    rw
      (
        bare,
        equal_no l (codes "OK") h.not_ok,
        equal_no l (codes "ERROR") h.not_error,
        h.no_cme_error,
        h.no_cms_error,
        equal_no l (codes ">") h.not_prompt,
      )
      refl

coded_line-final : (errc : AtErrc) (l : Bytes) → coded_line errc l ≢ other_line
unfolding coded_line coded
coded_line-final errc l =
    elim (error_code 0 (trim (drop 11 l))) as (λ o. coded errc (trim (drop 11 l)) o ≢ other_line) [
      | none ↦ λ e. cc
      | some n ↦ λ e. cc
    ]

pub equal_not : (a b : Bytes) → equal a b ≡ false → a ≢ b
equal_not a b differs h = cc (differs, (equal_iff a b).1 h)

-- Tests in a row that all fail.
all_fail :
    (is_ok is_error is_cme is_cms is_prompt : Bool) (e f g : AtError) (x y : Status)
    → x ≢ other_line
    → y ≢ other_line
    → (if is_ok
        then final_line e
        else if is_error
        then final_line f
        else if is_cme
        then x
        else if is_cms
        then y
        else if is_prompt
        then final_line g
        else other_line)
      ≡ other_line
    → (is_ok ≡ false)
      × (is_error ≡ false)
      × (is_cme ≡ false)
      × (is_cms ≡ false)
      × (is_prompt ≡ false)
all_fail true is_error is_cme is_cms is_prompt e f g x y hx hy h = cc
all_fail false true is_cme is_cms is_prompt e f g x y hx hy h = cc
all_fail false false true is_cms is_prompt e f g x y hx hy h = absurd (hx h)
all_fail false false false true is_prompt e f g x y hx hy h = absurd (hy h)
all_fail false false false false true e f g x y hx hy h = cc
all_fail false false false false false e f g x y hx hy h = (refl, refl, refl, refl, refl)

-- A line that does not end the response, without the space around it.
pub other_line-Ordinary : (l : Bytes) → status_line l ≡ other_line → Ordinary (trim l)
unfolding status_line
other_line-Ordinary l e =
    let (no_ok, no_error, no_cme, no_cms, no_prompt) =
      all_fail _ _ _ _ _ _ _ _ _ _ (coded_line-final AtErrc.cme_error (trim l))
        (coded_line-final AtErrc.cms_error (trim l)) e in
    record {
      not_ok = equal_not (trim l) (codes "OK") no_ok;
      not_error = equal_not (trim l) (codes "ERROR") no_error;
      not_prompt = equal_not (trim l) (codes ">") no_prompt;
      no_cme_error = no_cme;
      no_cms_error = no_cms;
    }

-- What `IsStatusLine` and `ParseResponse` make of such a line.
pub Final-ended :
    (l : Bytes) (ok : Bool) (e : AtError)
    → trim l ≡ l
    → Final l ok e
    → (g : AtError) × (status_line l ≡ final_line g)
      × (is_echo l ≡ false)
      × ((ls : List Bytes)
          → ended l g (record no_response { lines = ls })
            ≡ record { ok = ok; error = e; lines = ls })
unfolding status_line ended coded_line coded
Final-ended l ok e bare (success h fine he) =
    (at_error AtErrc.command_error [], rw (bare, h) refl, rw h refl, λ ls. rw (h, fine, he) refl)
Final-ended l ok e bare (prompt h fine he) =
    (at_error AtErrc.command_error [], rw (bare, h) refl, rw h refl, λ ls. rw (h, fine, he) refl)
Final-ended l ok e bare (failure h fine he) =
    (at_error AtErrc.command_error [], rw (bare, h) refl, rw h refl, λ ls. rw (h, fine, he) refl)
Final-ended l ok e bare (cme_failure field n h c fine he) =
    (e, rw (bare, h, error_code-Code (trim field) n c, he) refl, rw h refl, λ ls. rw (h, fine) refl)
Final-ended l ok e bare (cms_failure field n h c fine he) =
    (e, rw (bare, h, error_code-Code (trim field) n c, he) refl, rw h refl, λ ls. rw (h, fine) refl)
