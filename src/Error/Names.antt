-- ===== src/Error/Names.antt =====
-- `NetworkError::Name` and `NetworkError::Message`: the printed form of each code.
use Prim.Native.String.{String}
use text.Mathlib.Text.{◌==◌ as str_eq}
use esp_modem_link.Common.{◌≡◌, refl, ap, Option, none, some}
use esp_modem_link.Common.Tests.{if◌then◌else◌}
use esp_modem_link.Error.{NetworkErrc}

pub name : NetworkErrc → String
name NetworkErrc.invalid_argument = "invalid_argument"
name NetworkErrc.not_initialized = "not_initialized"
name NetworkErrc.not_supported = "not_supported"
name NetworkErrc.timeout = "timeout"
name NetworkErrc.canceled = "canceled"
name NetworkErrc.resource_busy = "resource_busy"
name NetworkErrc.no_resources = "no_resources"
name NetworkErrc.dns_failed = "dns_failed"
name NetworkErrc.already_connected = "already_connected"
name NetworkErrc.not_connected = "not_connected"
name NetworkErrc.connect_failed = "connect_failed"
name NetworkErrc.connection_refused = "connection_refused"
name NetworkErrc.connection_reset = "connection_reset"
name NetworkErrc.connection_lost = "connection_lost"
name NetworkErrc.tls_handshake_failed = "tls_handshake_failed"
name NetworkErrc.tls_certificate_invalid = "tls_certificate_invalid"
name NetworkErrc.tls_certificate_expired = "tls_certificate_expired"
name NetworkErrc.tls_hostname_mismatch = "tls_hostname_mismatch"
name NetworkErrc.auth_rejected = "auth_rejected"
name NetworkErrc.auth_timeout = "auth_timeout"
name NetworkErrc.transmit_failed = "transmit_failed"
name NetworkErrc.receive_failed = "receive_failed"
name NetworkErrc.buffer_overflow = "buffer_overflow"
name NetworkErrc.network_unavailable = "network_unavailable"
name NetworkErrc.network_detached = "network_detached"
name NetworkErrc.roaming_not_allowed = "roaming_not_allowed"
name NetworkErrc.protocol_error = "protocol_error"
name NetworkErrc.http_error_status = "http_error_status"
name NetworkErrc.mqtt_not_authorized = "mqtt_not_authorized"
name NetworkErrc.ws_handshake_failed = "ws_handshake_failed"
name NetworkErrc.at_command_error = "at_command_error"
name NetworkErrc.at_cme_error = "at_cme_error"
name NetworkErrc.at_cms_error = "at_cms_error"
name NetworkErrc.at_timeout = "at_timeout"
name NetworkErrc.modem_not_responding = "modem_not_responding"
name NetworkErrc.sim_not_detected = "sim_not_detected"
name NetworkErrc.sim_pin_required = "sim_pin_required"
name NetworkErrc.sim_puk_required = "sim_puk_required"
name NetworkErrc.unknown = "unknown"

pub message : NetworkErrc → String
message NetworkErrc.invalid_argument = "Invalid argument"
message NetworkErrc.not_initialized = "Not initialized"
message NetworkErrc.not_supported = "Not supported"
message NetworkErrc.timeout = "Operation timed out"
message NetworkErrc.canceled = "Operation canceled"
message NetworkErrc.resource_busy = "Resource busy"
message NetworkErrc.no_resources = "No resources available"
message NetworkErrc.dns_failed = "DNS resolution failed"
message NetworkErrc.already_connected = "Already connected"
message NetworkErrc.not_connected = "Not connected"
message NetworkErrc.connect_failed = "Connection failed"
message NetworkErrc.connection_refused = "Connection refused"
message NetworkErrc.connection_reset = "Connection reset"
message NetworkErrc.connection_lost = "Connection lost"
message NetworkErrc.tls_handshake_failed = "TLS handshake failed"
message NetworkErrc.tls_certificate_invalid = "TLS certificate invalid"
message NetworkErrc.tls_certificate_expired = "TLS certificate expired"
message NetworkErrc.tls_hostname_mismatch = "TLS hostname mismatch"
message NetworkErrc.auth_rejected = "Authentication rejected"
message NetworkErrc.auth_timeout = "Authentication timed out"
message NetworkErrc.transmit_failed = "Transmission failed"
message NetworkErrc.receive_failed = "Reception failed"
message NetworkErrc.buffer_overflow = "Buffer overflow"
message NetworkErrc.network_unavailable = "Network unavailable"
message NetworkErrc.network_detached = "Network detached"
message NetworkErrc.roaming_not_allowed = "Roaming not allowed"
message NetworkErrc.protocol_error = "Protocol error"
message NetworkErrc.http_error_status = "HTTP error status"
message NetworkErrc.mqtt_not_authorized = "MQTT not authorized"
message NetworkErrc.ws_handshake_failed = "WebSocket handshake failed"
message NetworkErrc.at_command_error = "AT command error"
message NetworkErrc.at_cme_error = "AT CME error"
message NetworkErrc.at_cms_error = "AT CMS error"
message NetworkErrc.at_timeout = "AT command timeout"
message NetworkErrc.modem_not_responding = "Modem not responding"
message NetworkErrc.sim_not_detected = "SIM not detected"
message NetworkErrc.sim_pin_required = "SIM PIN required"
message NetworkErrc.sim_puk_required = "SIM PUK required"
message NetworkErrc.unknown = "Unknown error"

-- The code that a name stands for.
of_name : String → Option NetworkErrc
of_name s =
    if str_eq s "invalid_argument"
    then some NetworkErrc.invalid_argument
    else if str_eq s "not_initialized"
    then some NetworkErrc.not_initialized
    else if str_eq s "not_supported"
    then some NetworkErrc.not_supported
    else if str_eq s "timeout"
    then some NetworkErrc.timeout
    else if str_eq s "canceled"
    then some NetworkErrc.canceled
    else if str_eq s "resource_busy"
    then some NetworkErrc.resource_busy
    else if str_eq s "no_resources"
    then some NetworkErrc.no_resources
    else if str_eq s "dns_failed"
    then some NetworkErrc.dns_failed
    else if str_eq s "already_connected"
    then some NetworkErrc.already_connected
    else if str_eq s "not_connected"
    then some NetworkErrc.not_connected
    else if str_eq s "connect_failed"
    then some NetworkErrc.connect_failed
    else if str_eq s "connection_refused"
    then some NetworkErrc.connection_refused
    else if str_eq s "connection_reset"
    then some NetworkErrc.connection_reset
    else if str_eq s "connection_lost"
    then some NetworkErrc.connection_lost
    else if str_eq s "tls_handshake_failed"
    then some NetworkErrc.tls_handshake_failed
    else if str_eq s "tls_certificate_invalid"
    then some NetworkErrc.tls_certificate_invalid
    else if str_eq s "tls_certificate_expired"
    then some NetworkErrc.tls_certificate_expired
    else if str_eq s "tls_hostname_mismatch"
    then some NetworkErrc.tls_hostname_mismatch
    else if str_eq s "auth_rejected"
    then some NetworkErrc.auth_rejected
    else if str_eq s "auth_timeout"
    then some NetworkErrc.auth_timeout
    else if str_eq s "transmit_failed"
    then some NetworkErrc.transmit_failed
    else if str_eq s "receive_failed"
    then some NetworkErrc.receive_failed
    else if str_eq s "buffer_overflow"
    then some NetworkErrc.buffer_overflow
    else if str_eq s "network_unavailable"
    then some NetworkErrc.network_unavailable
    else if str_eq s "network_detached"
    then some NetworkErrc.network_detached
    else if str_eq s "roaming_not_allowed"
    then some NetworkErrc.roaming_not_allowed
    else if str_eq s "protocol_error"
    then some NetworkErrc.protocol_error
    else if str_eq s "http_error_status"
    then some NetworkErrc.http_error_status
    else if str_eq s "mqtt_not_authorized"
    then some NetworkErrc.mqtt_not_authorized
    else if str_eq s "ws_handshake_failed"
    then some NetworkErrc.ws_handshake_failed
    else if str_eq s "at_command_error"
    then some NetworkErrc.at_command_error
    else if str_eq s "at_cme_error"
    then some NetworkErrc.at_cme_error
    else if str_eq s "at_cms_error"
    then some NetworkErrc.at_cms_error
    else if str_eq s "at_timeout"
    then some NetworkErrc.at_timeout
    else if str_eq s "modem_not_responding"
    then some NetworkErrc.modem_not_responding
    else if str_eq s "sim_not_detected"
    then some NetworkErrc.sim_not_detected
    else if str_eq s "sim_pin_required"
    then some NetworkErrc.sim_pin_required
    else if str_eq s "sim_puk_required"
    then some NetworkErrc.sim_puk_required
    else if str_eq s "unknown"
    then some NetworkErrc.unknown
    else none

of_name-name : (c : NetworkErrc) → of_name (name c) ≡ some c
unfolding of_name name
of_name-name NetworkErrc.invalid_argument = refl
of_name-name _ = refl

-- The printed names tell all the error codes apart.
name-injective : (a b : NetworkErrc) → name a ≡ name b → a ≡ b
name-injective a b e = cc (of_name-name a, of_name-name b, ap of_name e)
