-- ===== src/Http/Client/Redirects/Credentials.antt =====
-- Where `ApplyRedirect` of software_http_client.cpp takes the credentials of a request.
use esp_modem_link.Common.{Bool, true, false, [], ◌∷◌, ◌≡◌, refl, ◌⊎◌, inl, inr}
use esp_modem_link.Common.Int.{ℤ}
use esp_modem_link.Common.Lists.{Bytes, All}
use esp_modem_link.Common.Tests.{if◌then◌else◌, if-both, Bool-cases}
use esp_modem_link.Http.Headers.{Headers}
use esp_modem_link.Http.Redirect.{same_origin, is_credential_header}
use esp_modem_link.Http.Redirect.Origin.{same_origin_refl, same_origin_trans}
use esp_modem_link.Http.Url.{ParsedUrl}
use esp_modem_link.Http.Client.{RequestState}
use esp_modem_link.Http.Client.Redirects.{without_credentials, redirected_request}

-- The requests of a chain of redirects that starts with `first`.
pub data Follows (first : RequestState) : RequestState → Type 0 where
  start : Follows first first
  hop :
      {request : RequestState}
      → Follows first request
      → (status : ℤ) (next : ParsedUrl) → Follows first (redirected_request status next request)

-- No header of these is a credential.
abbrev pub NoCredentials : Headers → Type 0
NoCredentials headers = All (λ (h : Bytes × Bytes). is_credential_header h.0 ≡ false) headers

kept :
    (b : Bool) (name value : Bytes) (rest : Headers)
    → is_credential_header name ≡ b
    → NoCredentials rest
    → NoCredentials (if b then rest else (name, value) ∷ rest)
kept true name value rest h k = k
kept false name value rest h k = (h, k)

without_credentials-NoCredentials :
    (headers : Headers) → NoCredentials (without_credentials headers)
unfolding without_credentials
without_credentials-NoCredentials [] = tt
without_credentials-NoCredentials ((name, value) ∷ rest) =
    kept (is_credential_header name) name value (without_credentials rest) refl
      (without_credentials-NoCredentials rest)

-- The origin of the first request, or no credentials.
abbrev pub StaysHome : RequestState → RequestState → Type 0
StaysHome first request = (same_origin first.url request.url ≡ true) ⊎ NoCredentials request.headers

hop-StaysHome :
    (first request : RequestState) (status : ℤ) (next : ParsedUrl)
    → StaysHome first request
    → StaysHome first (redirected_request status next request)
unfolding redirected_request
hop-StaysHome first request status next (inr clean) = inr (
    if-both NoCredentials (same_origin request.url next) request.headers
      (without_credentials request.headers) clean
      (without_credentials-NoCredentials request.headers))
hop-StaysHome first request status next (inl home) =
    elim (Bool-cases (same_origin request.url next)) [
      | inl near ↦ inl (same_origin_trans first.url request.url next home near)
      | inr far ↦ inr (rw far (without_credentials-NoCredentials request.headers))
    ]

-- However many redirects are followed and wherever they lead: a request that goes to another origin
-- than the first one carries no header of credentials, also where a later redirect leads back.
pub Follows-StaysHome :
    (first request : RequestState) → Follows first request → StaysHome first request
Follows-StaysHome first request start = inl (same_origin_refl first.url)
Follows-StaysHome first request (hop {request = r} f status next) =
    hop-StaysHome first r status next (Follows-StaysHome first r f)
