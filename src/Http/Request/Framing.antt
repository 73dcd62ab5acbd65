-- ===== src/Http/Request/Framing.antt =====
-- How a request says where its body ends.
use esp_modem_link.Common.Tests.{Bool-cases, Option-cases}
use esp_modem_link.Common.{◌≡◌, refl, ◌∙◌, Bool, true, false, none, some, ◌⊎◌, inl, inr, ◌∷◌, []}
use esp_modem_link.Common.Decimal.{to_decimal}
use esp_modem_link.Common.Lists.{Bytes, codes, length}
use esp_modem_link.Http.Headers.{
  Headers, Distinct, find_header, set_headers, remove_header, same_name, set_header,
}
use esp_modem_link.Http.Headers.Distinct.{
  set_header-Distinct, set_headers-Distinct, remove_header-Distinct, find_header-set_header,
  find_header-remove_header, find_header-set_header_other,
}
use esp_modem_link.Http.Request.{HttpRequestOptions, default_headers, framed, request_headers}
use esp_modem_link.Common.Search.{to_lower}
use esp_modem_link.Http.Url.{ParsedUrl}

-- What the headers of a request with a body or with a chunked upload say of its length, where the
-- caller supplied some. Without a chunked upload there is no transfer coding but one of the caller.
abbrev pub Framed : Bool → Bytes → Headers → Headers → Type 0
Framed true body supplied headers =
    (find_header (codes "Content-Length") headers ≡ none)
    × (find_header (codes "Transfer-Encoding") headers ≡ some (codes "chunked"))
Framed false body supplied headers =
    (find_header (codes "Content-Length") headers ≡ some (to_decimal (length body)))
    × ((find_header (codes "Transfer-Encoding") headers ≡ none)
        ⊎ ((value : Bytes) × (find_header (codes "Transfer-Encoding") supplied ≡ some value)))

-- A name that is nowhere among the headers that are set is found as before.
find_header-set_headers :
    (key : Bytes) (supplied headers : Headers)
    → find_header key supplied ≡ none
    → find_header key (set_headers supplied headers) ≡ find_header key headers
unfolding set_headers find_header
find_header-set_headers key [] headers h = refl
find_header-set_headers key ((name, value) ∷ rest) headers h =
    elim (Bool-cases (same_name name key)) [
      | inl same ↦ let found = rw (same, find_header) at h in cc
      | inr other ↦
          find_header-set_headers key rest (set_header name value headers)
            (rw (other, find_header) at h)
          ∙ find_header-set_header_other name value key headers other
    ]

framed-Framed :
    (chunked : Bool) (body : Bytes) (supplied headers : Headers)
    → (find_header (codes "Transfer-Encoding") headers ≡ none)
      ⊎ ((value : Bytes) × (find_header (codes "Transfer-Encoding") supplied ≡ some value))
    → Framed chunked body supplied (framed chunked body headers)
unfolding to_lower
framed-Framed true body supplied headers h = (
  find_header-set_header_other (codes "Transfer-Encoding") (codes "chunked")
        (codes "Content-Length") (remove_header (codes "Content-Length") headers) refl
      ∙ find_header-remove_header (codes "Content-Length") headers,
  find_header-set_header (codes "Transfer-Encoding") (codes "chunked")
      (remove_header (codes "Content-Length") headers),
)
framed-Framed false body supplied headers h = (
  find_header-set_header (codes "Content-Length") (to_decimal (length body)) headers,
  elim h [
    | inl free ↦ inl (
        find_header-set_header_other (codes "Content-Length") (to_decimal (length body))
          (codes "Transfer-Encoding") headers refl
        ∙ free)
    | inr taken ↦ inr taken
  ],
)

framed-Distinct :
    (chunked : Bool) (body : Bytes) (headers : Headers)
    → Distinct headers
    → Distinct (framed chunked body headers)
framed-Distinct true body headers d =
    set_header-Distinct (codes "Transfer-Encoding") (codes "chunked")
      (remove_header (codes "Content-Length") headers)
      (remove_header-Distinct (codes "Content-Length") headers d)
framed-Distinct false body headers d =
    set_header-Distinct (codes "Content-Length") (to_decimal (length body)) headers d

-- The headers of a request say nothing of a transfer coding before they are framed, unless the caller does.
coding_supplied :
    (url : ParsedUrl) (options : HttpRequestOptions)
    → (find_header
          (codes "Transfer-Encoding")
          (set_headers options.headers (default_headers url options))
        ≡ none)
      ⊎ ((value : Bytes) × (find_header (codes "Transfer-Encoding") options.headers ≡ some value))
unfolding find_header to_lower
coding_supplied url options =
    elim (Option-cases (find_header (codes "Transfer-Encoding") options.headers)) [
      | inl free ↦ inl (
          find_header-set_headers (codes "Transfer-Encoding") options.headers
            (default_headers url options) free)
      | inr found ↦ inr found
    ]

-- Whatever headers the caller supplies, no name stands twice in a request, a request with a body
-- has the length of that body, and a chunked upload has the transfer coding and no length. Without a
-- chunked upload a request has no transfer coding, unless the caller supplied a Transfer-Encoding: of
-- that case nothing more is said, since the header stays beside the length.
pub request_headers-Framed :
    (url : ParsedUrl) (options : HttpRequestOptions)
    → Distinct (request_headers url options)
      × Framed options.chunked_upload options.body options.headers (request_headers url options)
unfolding request_headers to_lower
request_headers-Framed url options =
    let set = set_headers options.headers (default_headers url options) in
    (
      framed-Distinct options.chunked_upload options.body set (
          set_headers-Distinct options.headers (default_headers url options)
            ((refl, (refl, tt)), ((refl, tt), (tt, tt)))),
      framed-Framed options.chunked_upload options.body options.headers set
          (coding_supplied url options),
    )
