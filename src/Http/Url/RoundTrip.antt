-- ===== src/Http/Url/RoundTrip.antt =====
-- `ParseUrl` reads back the URL of an address.
use esp_modem_link.Common.{
  ℕ, ◌+◌, ◌≤◌, ◌<◌, Bool, true, false, some, [], ◌∷◌, ◌++◌, append_assoc, append-nil, arith, ◌≡◌,
  ◌≢◌, refl, sym, ap, ◌∙◌, inl, inr,
}
use esp_modem_link.Common.Decimal.{DecimalDigit, to_decimal, to_decimal-All}
use esp_modem_link.Common.Lists.{
  Bytes, length, take, drop, drop-append_next, take-append_length, drop-append_length, All,
  All-append, All-weaken,
}
use esp_modem_link.Common.Search.{last_index_of}
use esp_modem_link.Common.Search.Lacks.{
  Lacks, Fails, index_of-Lacks, index_where-seam, last_index_of-Lacks, last_index_of-seam,
}
use esp_modem_link.Common.Tests.{◌==◌, Bool-cases, ==_iff}
use esp_modem_link.AtParser.{parse_int}
use esp_modem_link.AtParser.Decimal.{parse_int-to_decimal}
use esp_modem_link.Error.{ok}
use esp_modem_link.Http.Url.{
  scheme_of, ParsedUrl, default_port, is_path_start, port_of, scheme_text, port_text, url_text,
  parse_url, host_checked, host_and_port, authority_read,
}

-- A byte of a host name.
abbrev pub HostByte : ℕ → Type 0
HostByte c = (is_path_start c ≡ false) × (c ≢ b'@') × (c ≢ b':')

-- An address that a URL can name.
pub record IsUrl (u : ParsedUrl) : Type 0 where
  pub host_bytes : All HostByte u.host
  pub some_host : u.host ≢ []
  pub port_positive : 0 < u.port
  pub port_small : u.port ≤ 65535
  pub rest : Bytes
  pub absolute : u.path ≡ b'/' ∷ rest

port_text-Fails : (tls : Bool) (port : ℕ) → Fails is_path_start (port_text tls port)
port_text-Fails tls port = elim (Bool-cases (port == default_port tls)) [
  | inl same ↦ rw same tt
  | inr other ↦ rw other (
    refl,
    All-weaken DecimalDigit (λ c. is_path_start c ≡ false) (to_decimal port) (λ c h. ground arith)
        (to_decimal-All port),
  )
]

port_text-Lacks_at : (tls : Bool) (port : ℕ) → Lacks b'@' (port_text tls port)
port_text-Lacks_at tls port = elim (Bool-cases (port == default_port tls)) [
  | inl same ↦ rw same tt
  | inr other ↦ rw other (
    λ e. omega arith,
    All-weaken DecimalDigit (λ c. c ≢ b'@') (to_decimal port) (λ c h e. omega arith)
        (to_decimal-All port),
  )
]

port_of-to_decimal :
    (port : ℕ) → 0 < port → port ≤ 65535 → port_of (parse_int (to_decimal port)) ≡ some port
port_of-to_decimal port lo hi = rw (parse_int-to_decimal port (omega arith)) (ground arith)

host_checked_ok :
    (tls : Bool) (host : Bytes) (port : ℕ) (path : Bytes)
    → host ≢ []
    → host_checked tls host port path
      ≡ ok (record { tls = tls; host = host; port = port; path = path })
unfolding host_checked
host_checked_ok tls [] port path ne = absurd (ne refl)
host_checked_ok tls (c ∷ cs) port path ne = refl

host_and_port_read :
    (tls : Bool) (path authority : Bytes) (colon port : ℕ)
    → port_of (parse_int (drop (colon + 1) authority)) ≡ some port
    → host_and_port tls path authority (some colon)
      ≡ host_checked tls (take colon authority) port path
unfolding host_and_port
host_and_port_read tls path authority colon port e = rw (host_and_port, e) refl

-- The authority of an address, without and with a port.
host_and_port-port_text :
    (tls : Bool) (host : Bytes) (port : ℕ) (path : Bytes)
    → All HostByte host
    → host ≢ []
    → 0 < port
    → port ≤ 65535
    → host_and_port tls path
        (host ++ port_text tls port)
        (last_index_of b':' (host ++ port_text tls port))
      ≡ ok (record { tls = tls; host = host; port = port; path = path })
unfolding host_and_port
host_and_port-port_text tls host port path bytes ne lo hi =
    let lacks = All-weaken HostByte (λ c. c ≢ b':') host (λ c h. h.2) bytes in
    elim (Bool-cases (port == default_port tls)) [
      | inl same ↦
          rw (same, append-nil host, last_index_of-Lacks b':' host lacks)
            (host_checked_ok tls host (default_port tls) path ne
              ∙ ap (λ (n : ℕ). ok (record { tls = tls; host = host; port = n; path = path }))
                  (sym ((==_iff port (default_port tls)).0 same)))
      | inr other ↦
          let digits = to_decimal port in
          let lacks' =
            All-weaken DecimalDigit (λ c. c ≢ b':') digits (λ c h e. omega arith)
              (to_decimal-All port) in
          rw (other, last_index_of-seam b':' host digits lacks')
            (host_and_port_read tls path (host ++ b':' ∷ digits) (length host) port (
                ap (λ (s : Bytes). port_of (parse_int s)) (drop-append_next host b':' digits)
                ∙ port_of-to_decimal port lo hi)
              ∙ ap (λ (s : Bytes). host_checked tls s port path)
                  (take-append_length host (b':' ∷ digits))
              ∙ host_checked_ok tls host port path ne)
    ]

authority_read_lem :
    (tls : Bool) (path authority : Bytes)
    → authority ≢ []
    → Lacks b'@' authority
    → authority_read tls path authority
      ≡ host_and_port tls path authority (last_index_of b':' authority)
unfolding authority_read
authority_read_lem tls path [] ne h = absurd (ne refl)
authority_read_lem tls path (c ∷ cs) ne h = rw (index_of-Lacks b'@' (c ∷ cs) h) refl

scheme_of-scheme_text : (tls : Bool) (s : Bytes) → scheme_of (scheme_text tls ++ s) ≡ some (tls, s)
scheme_of-scheme_text true s = refl
scheme_of-scheme_text false s = refl

append-ne-nil : (s t : Bytes) → s ≢ [] → s ++ t ≢ []
append-ne-nil [] t ne e = ne refl
append-ne-nil (x ∷ s) t ne e = cc

-- The URL of an authority and an absolute path.
parse_url-authority :
    (tls : Bool) (authority rest : Bytes)
    → authority ≢ []
    → Fails is_path_start authority
    → Lacks b'@' authority
    → parse_url (scheme_text tls ++ (authority ++ b'/' ∷ rest))
      ≡ host_and_port tls (b'/' ∷ rest) authority (last_index_of b':' authority)
unfolding parse_url
parse_url-authority tls authority rest ne ends lacks =
    rw
      (
        parse_url,
        scheme_of-scheme_text tls (authority ++ b'/' ∷ rest),
        index_where-seam is_path_start authority b'/' rest ends refl,
        drop-append_length authority (b'/' ∷ rest),
        take-append_length authority (b'/' ∷ rest),
      )
      (authority_read_lem tls (b'/' ∷ rest) authority ne lacks)

pub parse_url-url_text : (u : ParsedUrl) → IsUrl u → parse_url (url_text u) ≡ ok u
unfolding url_text
parse_url-url_text u h =
    let port = port_text u.tls u.port in
    let joined : url_text u ≡ scheme_text u.tls ++ ((u.host ++ port) ++ b'/' ∷ h.rest) =
      ap (λ (s : Bytes). scheme_text u.tls ++ s)
        (ap (λ (p : Bytes). u.host ++ (port ++ p)) h.absolute
          ∙ sym (append_assoc u.host port (b'/' ∷ h.rest))) in
    let ends =
      All-append (λ c. is_path_start c ≡ false) u.host port
        (All-weaken HostByte (λ c. is_path_start c ≡ false) u.host (λ c b. b.0) h.host_bytes)
        (port_text-Fails u.tls u.port) in
    let lacks =
      All-append (λ c. c ≢ b'@') u.host port
        (All-weaken HostByte (λ c. c ≢ b'@') u.host (λ c b. b.1) h.host_bytes)
        (port_text-Lacks_at u.tls u.port) in
    ap parse_url joined
    ∙ parse_url-authority u.tls (u.host ++ port) h.rest (append-ne-nil u.host port h.some_host) ends
        lacks
    ∙ host_and_port-port_text u.tls u.host u.port (b'/' ∷ h.rest) h.host_bytes h.some_host
        h.port_positive h.port_small
    ∙ ap (λ (p : Bytes). ok (record u { path = p })) (sym h.absolute)
