-- ===== src/Http/Redirect/Relative.antt =====
-- A `Location` without a scheme and an authority.
use esp_modem_link.Common.{◌≡◌, false, none, [], ◌∷◌, ◌≢◌}
use esp_modem_link.Common.Lists.{Bytes, codes, starts_with}
use esp_modem_link.Common.Search.{index_of}
use esp_modem_link.Http.Redirect.{names_scheme}
use esp_modem_link.Http.Url.{ParsedUrl}

-- A path that begins with a slash.
record Absolute (path : Bytes) : Type 0 where
  rest : Bytes
  slash : path ≡ b'/' ∷ rest

-- A `Location` that is a path or a query.
pub record IsRelative (location : Bytes) : Type 0 where
  pub named : location ≢ []
  pub no_fragment : index_of b'#' location ≡ none
  pub no_http : starts_with location (codes "http://") ≡ false
  pub no_https : starts_with location (codes "https://") ≡ false
  pub no_authority : starts_with location (codes "//") ≡ false
  pub no_scheme : names_scheme location ≡ false

moved : ParsedUrl → Bytes → ParsedUrl
moved from path = record from { path = path }
