-- ===== src/Websocket/Handshake/Sha1.antt =====
-- src/protocol/websocket/ws_handshake.cpp: `RotateLeft` and `Sha1`, on words of 32 bits.
use esp_modem_link.Common.{
  ℕ, zero, suc, ◌+◌, ◌-◌, ◌*◌, ◌/◌, ◌%◌, ◌^◌, bit_and, bit_or, bit_xor, List, [], ◌∷◌, ◌++◌,
}
use esp_modem_link.Common.Lists.{Bytes, length, get_or, drop}
use esp_modem_link.Common.Tests.{ltb, ◌==◌, if◌then◌else◌}
use esp_modem_link.Websocket.Frame.{big_endian}

-- `uint32_t` arithmetic wraps.
abbrev pub word : ℕ → ℕ
word n = n % 2 ^ 32

unfoldable pub rotate_left : ℕ → ℕ → ℕ
rotate_left value bits = bit_or (word (value * 2 ^ bits)) (value / 2 ^ (32 - bits))

-- `~b`
abbrev complement : ℕ → ℕ
complement b = bit_xor b 0xffffffff

-- `while (message.size() % 64 != 56) message.push_back(0x00);`, of at most 63 rounds.
unfoldable pub pad_zeroes : ℕ → Bytes → Bytes
pad_zeroes zero message = message
pad_zeroes (suc fuel) message =
    let more = pad_zeroes fuel (message ++ 0 ∷ []) in
    if length message % 64 == 56 then message else more

-- The message with its one bit, its zeroes and its length in bits as 64 bits.
unfoldable pub padded : Bytes → Bytes
padded data' = pad_zeroes 63 (data' ++ 0x80 ∷ []) ++ big_endian 8 (length data' * 8 % 2 ^ 64)

pub record Digest : Type 0 where
  pub a : ℕ
  pub b : ℕ
  pub c : ℕ
  pub d : ℕ
  pub e : ℕ

abbrev pub initial_digest : Digest
initial_digest = record {
  a = 0x67452301;
  b = 0xEFCDAB89;
  c = 0x98BADCFE;
  d = 0x10325476;
  e = 0xC3D2E1F0;
}

-- `words[i]` for the `n` words at the front of a block.
unfoldable pub block_words : ℕ → Bytes → List ℕ
block_words zero block = []
block_words (suc n) block =
    bit_or
      (bit_or (bit_or (get_or block 0 0 * 2 ^ 24) (get_or block 1 0 * 2 ^ 16))
        (get_or block 2 0 * 2 ^ 8))
      (get_or block 3 0)
    ∷ block_words n (drop 4 block)

-- The words of a list, newest first.
unfoldable pub reversed_onto : List ℕ → List ℕ → List ℕ
reversed_onto [] done = done
reversed_onto (w ∷ ws) done = reversed_onto ws (w ∷ done)

-- `n` further words behind those that there are, which stand newest first.
unfoldable pub extended : ℕ → List ℕ → List ℕ
extended zero words = words
extended (suc n) words =
    let mixed =
      bit_xor (bit_xor (bit_xor (get_or words 2 0) (get_or words 7 0)) (get_or words 13 0))
        (get_or words 15 0) in
    extended n (rotate_left mixed 1 ∷ words)

unfoldable pub schedule : Bytes → List ℕ
schedule block = reversed_onto (extended 64 (reversed_onto (block_words 16 block) [])) []

-- `f` and `k` of round `i`.
abbrev round_mix : ℕ → Digest → ℕ × ℕ
round_mix i s =
    if ltb i 20
    then (bit_or (bit_and s.b s.c) (bit_and (complement s.b) s.d), 0x5A827999)
    else if ltb i 40
    then (bit_xor (bit_xor s.b s.c) s.d, 0x6ED9EBA1)
    else if ltb i 60
    then (bit_or (bit_or (bit_and s.b s.c) (bit_and s.b s.d)) (bit_and s.c s.d), 0x8F1BBCDC)
    else (bit_xor (bit_xor s.b s.c) s.d, 0xCA62C1D6)

unfoldable pub round : ℕ → ℕ → Digest → Digest
round i w s =
    let (f, k) = round_mix i s in
    record {
      a = word (rotate_left s.a 5 + f + s.e + k + w);
      b = s.a;
      c = rotate_left s.b 30;
      d = s.c;
      e = s.d;
    }

unfoldable pub rounds : ℕ → List ℕ → Digest → Digest
rounds i [] s = s
rounds i (w ∷ ws) s = rounds (suc i) ws (round i w s)

unfoldable pub add_digest : Digest → Digest → Digest
add_digest s t = record {
  a = word (s.a + t.a);
  b = word (s.b + t.b);
  c = word (s.c + t.c);
  d = word (s.d + t.d);
  e = word (s.e + t.e);
}

-- The loop over the blocks of a message.
unfoldable pub blocks : ℕ → Bytes → Digest → Digest
blocks zero message s = s
blocks (suc n) message s = blocks n (drop 64 message) (add_digest s (rounds 0 (schedule message) s))

unfoldable pub digest_bytes : Digest → Bytes
digest_bytes s =
    big_endian 4 s.a
    ++ (big_endian 4 s.b ++ (big_endian 4 s.c ++ (big_endian 4 s.d ++ big_endian 4 s.e)))

unfoldable pub sha1 : Bytes → Bytes
sha1 data' =
    let message = padded data' in digest_bytes (blocks (length message / 64) message initial_digest)
