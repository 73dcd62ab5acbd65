-- ===== src/AtChannel/Response/Tests.antt =====
-- The theorems on responses at concrete ones.
use esp_modem_link.AtChannel.Response.Final.{Ordinary, cme_failure, equal_not}
use esp_modem_link.Common.{Bool, true, false, List, [], ◌∷◌, ◌++◌, ◌≡◌, refl, arith, ◌||◌}
use esp_modem_link.Common.Int.{pos}
use esp_modem_link.Common.Lists.{Bytes, codes, equal, starts_with}
use esp_modem_link.Common.Search.{trim_with, drop_while, drop_while_back, IsText, index_of_crlf}
use esp_modem_link.Common.Tests.{◌==◌, if◌then◌else◌}
use esp_modem_link.Error.{AtErrc, AtError, at_error_code, at_error}
use esp_modem_link.AtChannel.Response.{
  parsed, status_line, parse_response, ended, trim, parse_loop, take_response_line, take_status,
}
use esp_modem_link.AtChannel.Response.Lines.{lines_of, parse_response-lines, Bare}
use esp_modem_link.AtChannel.Response.Sound.{Sound, parse_response-Sound}

-- `AT+CSQ` echoed, an empty line, and the answer.
abbrev answer : List Bytes
answer = codes "AT" ∷ [] ∷ codes "+C: 9" ∷ []

abbrev refused : AtError
refused = at_error_code AtErrc.cme_error (pos 10) (codes "10")

-- A test for `IsText`.
abbrev is_text : Bytes → Bool
is_text [] = true
is_text (c ∷ cs) = if c == b'\r' || c == b'\n' then false else is_text cs

is_text-IsText : (s : Bytes) → is_text s ≡ true → IsText s
is_text-IsText [] h = tt
is_text-IsText (c ∷ cs) h = ((ground arith, ground arith), is_text-IsText cs (ground arith))

-- Tests for `Bare` and `Ordinary`.
answer_line :
    (l : Bytes)
    → is_text l ≡ true
    → trim l ≡ l
    → equal l (codes "OK") ≡ false
    → equal l (codes "ERROR") ≡ false
    → equal l (codes ">") ≡ false
    → starts_with l (codes "+CME ERROR:") ≡ false
    → starts_with l (codes "+CMS ERROR:") ≡ false
    → Bare l × Ordinary l
answer_line l text bare no_ok no_error no_prompt no_cme no_cms = (
  (is_text-IsText l text, bare),
  record {
    not_ok = equal_not l (codes "OK") no_ok;
    not_error = equal_not l (codes "ERROR") no_error;
    not_prompt = equal_not l (codes ">") no_prompt;
    no_cme_error = no_cme;
    no_cms_error = no_cms;
  },
)

parse_response-lines_example :
    parse_response (lines_of answer (codes "+CME ERROR: 10" ++ b'\r' ∷ b'\n' ∷ codes "+X"))
    ≡ parsed (record { ok = false; error = refused; lines = codes "+C: 9" ∷ [] })
unfolding trim_with drop_while drop_while_back
parse_response-lines_example =
    parse_response-lines answer (codes "+CME ERROR: 10") (codes "+X") false refused
      (
        answer_line (codes "AT") refl refl refl refl refl refl refl,
        (
          answer_line [] refl refl refl refl refl refl refl,
          (answer_line (codes "+C: 9") refl refl refl refl refl refl refl, tt),
        ),
      )
      (is_text-IsText (codes "+CME ERROR: 10") refl, refl)
      (cme_failure (codes " 10") 10 refl
        (record {
          digits = codes "10";
          behind = [];
          splits = refl;
          are_digits = (refl, (refl, tt));
          plain = tt;
          value = refl;
          fits = omega arith;
        })
        refl refl)

parse_response-Sound_example : Sound (
    parsed
      (record { ok = true; error = at_error AtErrc.command_error []; lines = codes "+C: 9" ∷ [] }))
unfolding status_line trim_with drop_while drop_while_back index_of_crlf parse_response parse_loop
    take_response_line take_status ended
parse_response-Sound_example =
    parse_response-Sound
      (codes "AT+C?" ++ b'\r' ∷ b'\n' ∷ codes "+C: 9" ++ b'\r' ∷ b'\n' ∷ codes "OK")
