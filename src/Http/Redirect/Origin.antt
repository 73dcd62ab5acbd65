-- ===== src/Http/Redirect/Origin.antt =====
-- `SameOrigin` of http_redirect.cpp.
use esp_modem_link.Common.{Bool, true, false, ◌≡◌, refl, ap, ◌∙◌, ◌&&◌}
use esp_modem_link.Common.Lists.{equal, equal_iff}
use esp_modem_link.Common.Search.{to_lower}
use esp_modem_link.Common.Tests.{◌==◌, ==_iff}
use esp_modem_link.Http.Url.{ParsedUrl}
use esp_modem_link.Http.Redirect.{same_origin, equal_tls}

-- One scheme, one port and one host, whatever its case.
abbrev pub Same : ParsedUrl → ParsedUrl → Type 0
Same a b = (a.tls ≡ b.tls) × (a.port ≡ b.port) × (to_lower a.host ≡ to_lower b.host)

both_true : (a b : Bool) → (a && b) ≡ true → (a ≡ true) × (b ≡ true)
both_true true true h = (refl, refl)
both_true true false h = cc
both_true false b h = cc

equal_tls-true : (a b : Bool) → equal_tls a b ≡ true → a ≡ b
equal_tls-true true true h = refl
equal_tls-true true false h = cc
equal_tls-true false true h = cc
equal_tls-true false false h = refl

equal_tls_refl : (a : Bool) → equal_tls a a ≡ true
equal_tls_refl true = refl
equal_tls_refl false = refl

same_origin-Same : (a b : ParsedUrl) → same_origin a b ≡ true → Same a b
unfolding same_origin
same_origin-Same a b h =
    let host =
      both_true (equal_tls a.tls b.tls && a.port == b.port)
        (equal (to_lower a.host) (to_lower b.host)) h in
    let tls = both_true (equal_tls a.tls b.tls) (a.port == b.port) host.0 in
    (
      equal_tls-true a.tls b.tls tls.0,
      (==_iff a.port b.port).0 tls.1,
      (equal_iff (to_lower a.host) (to_lower b.host)).0 host.1,
    )

all_true : (a b c : Bool) → a ≡ true → b ≡ true → c ≡ true → (a && b && c) ≡ true
all_true a b c h k l = rw (h, k, l) refl

Same-same_origin : (a b : ParsedUrl) → Same a b → same_origin a b ≡ true
unfolding same_origin
Same-same_origin a b (tls, port, host) =
    all_true (equal_tls a.tls b.tls) (a.port == b.port) (equal (to_lower a.host) (to_lower b.host))
      (ap (λ t. equal_tls t b.tls) tls ∙ equal_tls_refl b.tls) ((==_iff a.port b.port).1 port)
      ((equal_iff (to_lower a.host) (to_lower b.host)).1 host)

pub same_origin_refl : (a : ParsedUrl) → same_origin a a ≡ true
same_origin_refl a = Same-same_origin a a (refl, refl, refl)

pub same_origin_trans :
    (a b c : ParsedUrl) → same_origin a b ≡ true → same_origin b c ≡ true → same_origin a c ≡ true
same_origin_trans a b c h k =
    let (t, p, n) = same_origin-Same a b h in
    let (u, q, m) = same_origin-Same b c k in Same-same_origin a c (t ∙ u, p ∙ q, n ∙ m)
