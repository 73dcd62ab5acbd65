-- ===== src/Error.antt =====
-- The error values of the library: include/esp_modem_link/network_error.h and at_error.h with
-- src/error/network_error.cpp and at_error.cpp. A fallible call returns a `Result`.
pub mod Names
use esp_modem_link.Common.{ℕ, ◌++◌, List, [], ◌∷◌}
use esp_modem_link.Common.Int.{ℤ, pos}
use esp_modem_link.Common.Lists.{Bytes, codes}
use esp_modem_link.Common.Tests.{◌==◌, if◌then◌else◌}
use Prim.Native.String.{String}

pub data NetworkErrc : Type 0 where
  invalid_argument not_initialized not_supported timeout canceled resource_busy : NetworkErrc
  no_resources dns_failed already_connected not_connected connect_failed : NetworkErrc
  connection_refused connection_reset connection_lost tls_handshake_failed : NetworkErrc
  tls_certificate_invalid tls_certificate_expired tls_hostname_mismatch : NetworkErrc
  auth_rejected auth_timeout transmit_failed receive_failed buffer_overflow : NetworkErrc
  network_unavailable network_detached roaming_not_allowed protocol_error : NetworkErrc
  http_error_status mqtt_not_authorized ws_handshake_failed at_command_error : NetworkErrc
  at_cme_error at_cms_error at_timeout modem_not_responding sim_not_detected : NetworkErrc
  sim_pin_required sim_puk_required unknown : NetworkErrc

pub record NetworkError : Type 0 where
  pub code : NetworkErrc
  pub native : ℤ
  pub context : Bytes

-- The bytes of a literal context.
pub text : String → Bytes
text s = codes s

-- `std::expected<T, NetworkError>`
pub data Result {ℓ} (A : Type ℓ) : Type ℓ where
  ok : A → Result A
  err : NetworkError → Result A

infixl 5 ◌>>=◌
abbrev pub ◌>>=◌ {ℓ κ} : {A : Type ℓ} {B : Type κ} → Result A → (A → Result B) → Result B
ok a >>= f = f a
err e >>= f = err e

-- `NetworkError(code, 0, "…")`
abbrev pub network_error : NetworkErrc → String → NetworkError
network_error c s = record { code = c; native = pos 0; context = text s }

pub timeout_error : Bytes → NetworkError
timeout_error ctx = record { code = NetworkErrc.timeout; native = pos 0; context = ctx }

pub not_supported_error : Bytes → NetworkError
not_supported_error ctx = record { code = NetworkErrc.not_supported; native = pos 0; context = ctx }

pub dns_failed_error : ℤ → Bytes → NetworkError
dns_failed_error herr [] = record { code = dns_failed; native = herr; context = [] }
dns_failed_error herr (c ∷ cs) = record {
  code = dns_failed;
  native = herr;
  context = text "host=" ++ c ∷ cs;
}

pub data AtErrc : Type 0 where
  timeout command_error cme_error cms_error : AtErrc
  transmit_failed not_initialized not_supported : AtErrc

pub record AtError : Type 0 where
  pub code : AtErrc
  pub cme : ℤ
  pub cms : ℤ
  pub context : Bytes

-- `AtError(code, ctx)`
abbrev pub at_error : AtErrc → Bytes → AtError
at_error c ctx = record { code = c; cme = pos 0; cms = pos 0; context = ctx }

-- `AtError(code, cme_or_cms, ctx)`
pub at_error_code : AtErrc → ℤ → Bytes → AtError
at_error_code cme_error n ctx = record { code = cme_error; cme = n; cms = pos 0; context = ctx }
at_error_code cms_error n ctx = record { code = cms_error; cme = pos 0; cms = n; context = ctx }
at_error_code c n ctx = record { code = c; cme = pos 0; cms = pos 0; context = ctx }

to_network_error_as : AtErrc → AtError → NetworkError
to_network_error_as timeout e = record { code = at_timeout; native = pos 0; context = e.context }
to_network_error_as command_error e = record {
  code = at_command_error;
  native = pos 0;
  context = e.context;
}
to_network_error_as cme_error e = record {
  code = at_cme_error;
  native = e.cme;
  context = e.context;
}
to_network_error_as cms_error e = record {
  code = at_cms_error;
  native = e.cms;
  context = e.context;
}
to_network_error_as transmit_failed e = record {
  code = NetworkErrc.transmit_failed;
  native = pos 0;
  context = e.context;
}
to_network_error_as not_initialized e = record {
  code = NetworkErrc.not_initialized;
  native = pos 0;
  context = e.context;
}
to_network_error_as not_supported e = record {
  code = NetworkErrc.not_supported;
  native = pos 0;
  context = e.context;
}

pub to_network_error : AtError → NetworkError
unfolding to_network_error_as
to_network_error e = to_network_error_as e.code e
