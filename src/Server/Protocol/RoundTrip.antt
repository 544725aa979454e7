-- ===== src/Server/Protocol/RoundTrip.antt =====
-- Packets on a stream are read as they were written.
use test_db.Prelude.{
  ℕ, suc, ◌%◌, ◌^◌, ◌≡◌, ◌≤◌, ◌<◌, refl, ap, ◌∙◌, false, [], ◌∷◌, ◌++◌, arith, length, drop,
  take-append, drop-append, prefix_fits, ltb, ◌==◌, Bytes,
}
use test_db.Server.Protocol.{
  Packet, ok, max_packet_size, magic_number, protocol_version, put_uint32, put_uint16,
  from_big_endian, encode, header_of, read_payload, decode_behind, decode_packet, new_packet,
}

-- A packet that NewPacket makes, of a type of one byte and at most MaxPacketSize bytes.
abbrev pub Sendable : ℕ → Bytes → Type 0
Sendable typ payload = (typ < 256) × (length payload ≤ max_packet_size)

uint32_round_trip : (n : ℕ) → n < 2 ^ 32 → from_big_endian 0 (put_uint32 n) ≡ n
unfolding from_big_endian put_uint32
uint32_round_trip n h = omega arith

byte_round_trip : (n : ℕ) → n < 256 → from_big_endian 0 (n % 256 ∷ []) ≡ n
unfolding from_big_endian
byte_round_trip n h = omega arith

abbrev header_packet : ℕ → ℕ → Packet
header_packet typ size = record {
  magic = magic_number;
  version = protocol_version;
  typ = typ;
  size = size;
  payload = [];
}

header-encode :
    (typ : ℕ) (payload rest : Bytes)
    → Sendable typ payload
    → header_of (encode (new_packet typ payload) ++ rest) ≡ header_packet typ (length payload)
unfolding header_of encode new_packet put_uint32 put_uint16 from_big_endian
header-encode typ payload rest h =
    ap (λ t. header_packet t (from_big_endian 0 (put_uint32 (length payload % 2 ^ 32))))
      (byte_round_trip typ h.0)
    ∙ ap (λ n. header_packet typ (from_big_endian 0 (put_uint32 n))) (omega arith)
    ∙ ap (header_packet typ) (uint32_round_trip (length payload) (omega arith))

long_enough :
    (typ : ℕ) (payload rest : Bytes)
    → ltb (length (encode (new_packet typ payload) ++ rest)) 11 ≡ false
unfolding encode new_packet put_uint32 put_uint16
long_enough typ payload rest = ground arith

payload-left :
    (typ : ℕ) (payload rest : Bytes)
    → drop 11 (encode (new_packet typ payload) ++ rest) ≡ payload ++ rest
unfolding encode new_packet put_uint32 put_uint16
payload-left typ payload rest = refl

payload-read :
    (typ : ℕ) (payload rest : Bytes)
    → read_payload (header_packet typ (length payload)) (payload ++ rest)
      ≡ ok (record (header_packet typ (length payload)) { payload = payload }, rest)
unfolding read_payload
payload-read typ [] rest = refl
payload-read typ (b ∷ bs) rest =
    let filled : (suc (length bs) == 0) ≡ false = ground arith in
    rw (filled, prefix_fits (b ∷ bs) rest, take-append (b ∷ bs) rest, drop-append (b ∷ bs) rest)

header-accepted :
    (typ size : ℕ) (bs : Bytes)
    → size ≤ max_packet_size
    → decode_behind (header_packet typ size) bs ≡ read_payload (header_packet typ size) bs
unfolding decode_behind
header-accepted typ size bs h = ground arith

decode_step :
    (bs : Bytes)
    → ltb (length bs) 11 ≡ false
    → decode_packet bs ≡ decode_behind (header_of bs) (drop 11 bs)
unfolding decode_packet
decode_step bs h = ground (arith, h)

same_packet :
    (typ : ℕ) (payload : Bytes)
    → Sendable typ payload
    → record (header_packet typ (length payload)) { payload = payload } ≡ new_packet typ payload
unfolding new_packet
same_packet typ payload h =
    ap (λ n. record (header_packet typ n) { payload = payload }) (omega arith)

-- A packet that NewPacket makes, of a type of one byte and with at most MaxPacketSize bytes, is read
-- back from a stream that starts with it, and the rest of the stream is left.
pub decode-encode :
    (typ : ℕ) (payload rest : Bytes)
    → Sendable typ payload
    → decode_packet (encode (new_packet typ payload) ++ rest) ≡ ok (new_packet typ payload, rest)
decode-encode typ payload rest h =
    let bs = encode (new_packet typ payload) ++ rest in
    decode_step bs (long_enough typ payload rest)
    ∙ ap (λ p. decode_behind p (drop 11 bs)) (header-encode typ payload rest h)
    ∙ ap (decode_behind (header_packet typ (length payload))) (payload-left typ payload rest)
    ∙ header-accepted typ (length payload) (payload ++ rest) h.1
    ∙ payload-read typ payload rest
    ∙ ap (λ p. ok (p, rest)) (same_packet typ payload h)
