-- ===== src/Websocket/Handshake/Tests.antt =====
-- Runs of the opening handshake.
use esp_modem_link.Common.{◌≡◌, refl, arith}
use esp_modem_link.Common.Lists.{codes}
use esp_modem_link.Websocket.Handshake.{compute_sec_web_socket_accept}
use esp_modem_link.Websocket.Handshake.Base64.{
  base64_encode, base64_decode, sextet, group_of, base64_decode-base64_encode,
}
use esp_modem_link.Websocket.Handshake.Sha1.{
  sha1, padded, pad_zeroes, rotate_left, block_words, reversed_onto, extended, schedule, round,
  rounds, add_digest, blocks, digest_bytes,
}
use esp_modem_link.Websocket.Frame.{big_endian}

-- The example of RFC 6455, 1.3.
accept_of_the_rfc :
    compute_sec_web_socket_accept (codes "dGhlIHNhbXBsZSBub25jZQ==")
    ≡ codes "s3pPLMBiTxaQ9kYGzzhZRbK+xOo="
unfolding compute_sec_web_socket_accept base64_encode sextet group_of sha1 padded pad_zeroes
    rotate_left block_words reversed_onto extended schedule round rounds add_digest blocks
    digest_bytes big_endian
accept_of_the_rfc = refl

base64_decode-base64_encode_example : base64_decode (base64_encode (codes "Man!")) ≡ codes "Man!"
base64_decode-base64_encode_example =
    base64_decode-base64_encode (codes "Man!")
      (omega arith, (omega arith, (omega arith, (omega arith, tt))))
