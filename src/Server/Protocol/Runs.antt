-- ===== src/Server/Protocol/Runs.antt =====
-- The TCP protocol (pkg/server/protocol.go) at concrete inputs.
use test_db.Prelude.{◌≡◌, refl, [], ◌∷◌, ◌++◌, arith, Bytes}
use test_db.Server.Protocol.{
  ok, err, header_not_read, payload_not_read, invalid_magic, encode, decode_packet, new_packet,
  from_big_endian,
}
use test_db.Server.Protocol.RoundTrip.{decode-encode}
use test_db.Server.Protocol.Checks.{IsAccepted, decode_packet-IsAccepted}

abbrev ping : Bytes
ping = 87 ∷ 73 ∷ 68 ∷ 66 ∷ 0 ∷ 1 ∷ 3 ∷ 0 ∷ 0 ∷ 0 ∷ 0 ∷ []

abbrev select : Bytes
select = b'{' ∷ b'}' ∷ []

ping_bytes : encode (new_packet 3 []) ≡ ping
unfolding encode new_packet
ping_bytes = refl

short_header : decode_packet (87 ∷ 73 ∷ []) ≡ err header_not_read
unfolding decode_packet
short_header = refl

wrong_magic : decode_packet (0 ∷ 0 ∷ 0 ∷ 1 ∷ 0 ∷ 1 ∷ 3 ∷ 0 ∷ 0 ∷ 0 ∷ 0 ∷ []) ≡ err (invalid_magic 1)
unfolding decode_packet from_big_endian
wrong_magic = refl

short_payload :
    decode_packet (87 ∷ 73 ∷ 68 ∷ 66 ∷ 0 ∷ 1 ∷ 1 ∷ 0 ∷ 0 ∷ 0 ∷ 2 ∷ b'{' ∷ []) ≡ err payload_not_read
unfolding decode_packet from_big_endian
short_payload = refl

decode-encode_example :
    decode_packet (encode (new_packet 1 select) ++ ping) ≡ ok (new_packet 1 select, ping)
decode-encode_example = decode-encode 1 select ping (omega arith, omega arith)

decode_packet-IsAccepted_example : IsAccepted (decode_packet ping)
decode_packet-IsAccepted_example = decode_packet-IsAccepted ping
