-- ===== src/Http/Client/Redirects/Loop.antt =====
-- The loop over the redirects in software_http_client.cpp: that it ends, and what it sends.
use esp_modem_link.Common.{
  ℕ, zero, suc, ◌+◌, ◌*◌, ◌≤◌, ◌<◌, not, ◌||◌, Option, none, some, [], ◌∷◌, arith, ◌≡◌, refl, ◌∙◌,
  inl, inr,
}
use esp_modem_link.Common.Int.{ℤ}
use esp_modem_link.Common.Lists.{Bytes}
use esp_modem_link.Common.Tests.{◌==◌, leb, if◌then◌else◌, if-both, Bool-cases}
use esp_modem_link.Error.{Result, ok, err}
use esp_modem_link.Http.Redirect.{redirect_location, resolve_redirect}
use esp_modem_link.Http.Url.{ParsedUrl}
use esp_modem_link.Http.Client.{Client, Settings, HttpResponse, RequestState, Ran}
use esp_modem_link.Http.Client.Connection.{drop_transport}
use esp_modem_link.Http.Client.Redirects.{
  Attempt, apply_redirect, hop_to, hop_location, after_redirect, after_attempt, redirect_loop,
  is_redirect, redirected_request, too_many_error,
}
use esp_modem_link.Http.Client.Redirects.Credentials.{Follows, hop}
use esp_modem_link.Http.Client.Requests.{Sends, quiet, then_sends, widen, drop_transport-Sends}

-- What `ApplyRedirect` leaves: nothing is sent, and a next request is a redirected one within the limit.
abbrev Applied : Settings → ℕ → RequestState → Ran (Option RequestState) → Type 0
Applied settings at request (d, err e) = Unit {0}
Applied settings at request (d, ok none) = Unit {0}
Applied settings at request (d, ok (some next)) =
    (at < settings.max_redirects)
    × ((status : ℤ) × (url : ParsedUrl) × (next ≡ redirected_request status url request))

hop_to-Applied :
    (status : ℤ) (at : ℕ) (request : RequestState) (next : Result ParsedUrl) (c : Client)
    → at < c.settings.max_redirects
    → Applied c.settings at request (hop_to status request next c)
unfolding hop_to
hop_to-Applied status at request (err e) c h = tt
hop_to-Applied status at request (ok next) c h = (h, (status, next, refl))

hop_location-Applied :
    (response : HttpResponse) (at : ℕ) (request : RequestState) (location : Bytes) (c : Client)
    → Applied c.settings at request (hop_location response at request location c)
unfolding hop_location
hop_location-Applied response at request [] c = tt
hop_location-Applied response at request (b ∷ bs) c =
    elim (Bool-cases (leb c.settings.max_redirects at)) [
      | inl over ↦ rw over tt
      | inr under ↦ rw under (
          hop_to-Applied response.status_code at request (resolve_redirect request.url (b ∷ bs)) c
            (ground arith))
    ]

apply_redirect-Applied :
    (response : HttpResponse) (at : ℕ) (request : RequestState) (c : Client)
    → Applied c.settings at request (apply_redirect response at request c)
unfolding apply_redirect
apply_redirect-Applied response at request c =
    let P = Applied c.settings at request in
    let located = hop_location response at request (redirect_location response.headers) c in
    let off = not c.settings.follow_redirects || c.settings.max_redirects == 0 in
    if-both P (not (is_redirect response.status_code)) (c, ok none)
      (if off then (c, ok none) else located) tt
      (if-both P off (c, ok none) located tt
        (hop_location-Applied response at request (redirect_location response.headers) c))

module _ {ℓ} (P : Bytes → Type ℓ) where
  hop_to-Sends :
      (status : ℤ) (request : RequestState) (next : Result ParsedUrl) (c : Client)
      → Sends P 0 c (hop_to status request next c).0
  unfolding hop_to
  hop_to-Sends status request (err e) c = quiet P c c refl refl
  hop_to-Sends status request (ok next) c =
      if-both (Sends P 0 c) c.streaming (drop_transport c) c (drop_transport-Sends P c)
        (quiet P c c refl refl)

  hop_location-Sends :
      (response : HttpResponse) (at : ℕ) (request : RequestState) (location : Bytes) (c : Client)
      → Sends P 0 c (hop_location response at request location c).0
  unfolding hop_location
  hop_location-Sends response at request [] c = quiet P c c refl refl
  hop_location-Sends response at request (b ∷ bs) c =
      let next = resolve_redirect request.url (b ∷ bs) in
      if-both (λ (r : Ran (Option RequestState)). Sends P 0 c r.0) (leb c.settings.max_redirects at)
        (c, err (too_many_error response.status_code c.settings.max_redirects))
        (hop_to response.status_code request next c) (quiet P c c refl refl)
        (hop_to-Sends response.status_code request next c)

  apply_redirect-Sends :
      (response : HttpResponse) (at : ℕ) (request : RequestState) (c : Client)
      → Sends P 0 c (apply_redirect response at request c).0
  unfolding apply_redirect
  apply_redirect-Sends response at request c =
      let Q = λ (r : Ran (Option RequestState)). Sends P 0 c r.0 in
      let located = hop_location response at request (redirect_location response.headers) c in
      let off = not c.settings.follow_redirects || c.settings.max_redirects == 0 in
      let here = quiet P c c refl refl in
      if-both Q (not (is_redirect response.status_code)) (c, ok none)
        (if off then (c, ok none) else located) here
        (if-both Q off (c, ok none) located here
          (hop_location-Sends response at request (redirect_location response.headers) c))

  -- A call that returns, and sends at most `n` byte strings.
  abbrev pub Returns : ℕ → Client → Option (Ran HttpResponse) → Type ℓ
  Returns n c o =
      (d : Client) × (result : Result HttpResponse) × (o ≡ some (d, result)) × Sends P n c d

  abbrev Continue : Type 0
  Continue = RequestState → Client → Option (Ran HttpResponse)

  module _ (first : RequestState) (settings : Settings) (n : ℕ) (attempt : Attempt)
      (each : (request : RequestState)
        → Follows first request
        → (c : Client) → c.settings ≡ settings
        → Sends P n c (attempt request c).0) where
    -- The rest of the loop behind the hop `at`.
    abbrev Goes : ℕ → ℕ → Continue → Type ℓ
    Goes at k continue =
        (request : RequestState) (c : Client)
        → Follows first request
        → c.settings ≡ settings
        → at < settings.max_redirects
        → Returns k c (continue request c)

    after_redirect-Returns :
        (at k : ℕ) (continue : Continue) (response : HttpResponse) (request : RequestState)
        (c : Client) (r : Ran (Option RequestState))
        → Goes at k continue
        → Follows first request
        → c.settings ≡ settings
        → Applied settings at request r
        → Sends P 0 c r.0
        → Returns k c (after_redirect continue response r)
    unfolding after_redirect
    after_redirect-Returns at k continue response request c (d, err e) go f same a h =
        (d, err e, refl, widen P 0 k c d (omega arith) h)
    after_redirect-Returns at k continue response request c (d, ok none) go f same a h =
        (d, ok response, refl, widen P 0 k c d (omega arith) h)
    after_redirect-Returns at k continue response request c (d, ok (some next)) go f same
          (below, (status, url, e)) h =
        let g = go next d (rw e (hop f status url)) (h.same ∙ same) below in
        (g.0, g.1, g.2, widen P (0 + k) k c g.0 (omega arith) (then_sends P 0 k c d g.0 h g.3))

    after_attempt-Returns :
        (at k : ℕ) (continue : Continue) (request : RequestState) (c : Client)
        (r : Ran HttpResponse)
        → Goes at k continue
        → Follows first request
        → c.settings ≡ settings
        → Sends P n c r.0
        → Returns (n + k) c (after_attempt continue at request r)
    unfolding after_attempt
    after_attempt-Returns at k continue request c (d, err e) go f same h =
        (d, err e, refl, widen P n (n + k) c d (omega arith) h)
    after_attempt-Returns at k continue request c (d, ok response) go f same h =
        let held = h.same ∙ same in
        let g =
          after_redirect-Returns at k continue response request d
            (apply_redirect response at request d) go f held
            (rw (← held) (apply_redirect-Applied response at request d))
            (apply_redirect-Sends response at request d) in
        (g.0, g.1, g.2, then_sends P n k c d g.0 h g.3)

    -- The loop ends with the fuel that the limit gives, and every hop sends what one attempt may.
    pub redirect_loop-Returns :
        (fuel at : ℕ) (request : RequestState) (c : Client)
        → at ≤ settings.max_redirects
        → settings.max_redirects < at + fuel
        → Follows first request
        → c.settings ≡ settings
        → Returns (fuel * n) c (redirect_loop fuel attempt at request c)
    unfolding redirect_loop
    redirect_loop-Returns zero at request c low enough f same = absurd (omega arith)
    redirect_loop-Returns (suc fuel) at request c low enough f same =
        let g =
          after_attempt-Returns at (fuel * n) (redirect_loop fuel attempt (suc at)) request c
            (attempt request c)
            (λ r d follows held below.
              redirect_loop-Returns fuel (suc at) r d (omega arith) (omega arith) follows held)
            f same (each request f c same) in
        let count : n + fuel * n ≡ suc fuel * n = omega arith in (g.0, g.1, g.2, rw (← count) g.3)
