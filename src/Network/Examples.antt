-- ===== src/Network/Examples.antt =====
-- The theorems about messages and their encryption, at concrete inputs.
use odirion_mmoserver.Base.{
  ℕ, ◌*◌, ◌^◌, ◌+◌, ◌++◌, ◌≡◌, ◌<◌, refl, some, List, [], ◌∷◌, false, arith, length, replicate,
  length-replicate, map,
}
use odirion_mmoserver.Base.Int.{negsuc}
use odirion_mmoserver.Base.Bytes.{to_le}
use odirion_mmoserver.Network.Message.{
  NetworkMessage, max_size, max_body_length, set_buffer_position,
}
use odirion_mmoserver.Network.Message.Buffer.{IsBuffer}
use odirion_mmoserver.Network.Message.Safety.{
  Call, adds, adds_string, adds_padding, gets_string, skips, sets_position, gets, calls, ReturnsAt,
  calls-ReturnsAt,
}
use odirion_mmoserver.Network.Message.Fields.{
  Field, byte, word, text, kind, encoding, encodings, add_fields, get_fields,
}
use odirion_mmoserver.Network.Message.RoundTrip.{get_fields-add_fields}
use odirion_mmoserver.Network.Xtea.{encrypt_round, decrypt_round, crypt, crypt_blocks}
use odirion_mmoserver.Network.Xtea.Inverse.{decrypt-encrypt}
use odirion_mmoserver.Network.Xtea.Buffers.{crypt_blocks-restores}
use odirion_mmoserver.Network.Checksum.{adler_checksum}
use odirion_mmoserver.Network.Checksum.Reference.{adler_sums, adler_checksum_lem}

blank : NetworkMessage
blank = record { len = 0; position = 8; overrun = false; buffer = replicate max_size 0 }

blank-IsBuffer : IsBuffer blank
unfolding blank
blank-IsBuffer = length-replicate {A = ℕ} max_size 0

abbrev login : List Call
login =
    adds 1 10
    ∷ adds_string (97 ∷ 98 ∷ [])
    ∷ skips (negsuc 40)
    ∷ gets_string 0
    ∷ sets_position 24589
    ∷ gets 4
    ∷ adds_padding 5
    ∷ []

calls-ReturnsAt_example : ReturnsAt (calls login) blank
calls-ReturnsAt_example =
    calls-ReturnsAt login blank
      (omega arith, (tt, (tt, (omega arith, (tt, (omega arith, (omega arith, tt)))))))
      (blank-IsBuffer, unfold blank in omega arith)

abbrev greeting : List Field
greeting = byte 180 ∷ word 4711 ∷ text (72 ∷ 105 ∷ []) ∷ []

get_fields-add_fields_example :
    (m : NetworkMessage) × (add_fields greeting blank ≡ some (tt, m))
    × (get_fields (map kind greeting) (set_buffer_position 8 m) ≡ some (greeting, m))
unfolding blank encodings encoding to_le
get_fields-add_fields_example =
    get_fields-add_fields greeting blank (omega arith, (omega arith, (omega arith, tt)))
      (record { full = blank-IsBuffer; written = refl; fits = omega arith }) fits
  where
    fits : 8 + length (encodings greeting) < max_body_length
    fits = omega arith

abbrev key : List ℕ
key = 3405691582 ∷ 195935983 ∷ 1 ∷ 4294967295 ∷ []

decrypt-encrypt_example :
    let e = crypt (encrypt_round key) 0 1162 4294967295 in
    crypt (decrypt_round key) 0xC6EF3720 e.v0 e.v1 ≡ record { v0 = 1162; v1 = 4294967295; sum = 0 }
decrypt-encrypt_example = decrypt-encrypt key 1162 4294967295 (omega arith) (omega arith)

abbrev body : List ℕ
body = 5 ∷ 0 ∷ 180 ∷ 104 ∷ 18 ∷ 1 ∷ 51 ∷ 255 ∷ []

crypt_blocks-restores_example :
    (cs : List ℕ) × (length cs ≡ 8)
    × (crypt_blocks (encrypt_round key) 0 1 2 (7 ∷ 7 ∷ (body ++ 9 ∷ []))
        ≡ some (7 ∷ 7 ∷ (cs ++ 9 ∷ [])))
    × (crypt_blocks (decrypt_round key) 0xC6EF3720 1 2 (7 ∷ 7 ∷ (cs ++ 9 ∷ []))
        ≡ some (7 ∷ 7 ∷ (body ++ 9 ∷ [])))
crypt_blocks-restores_example =
    crypt_blocks-restores key 1 (7 ∷ 7 ∷ []) body (9 ∷ []) (omega arith) refl

adler_checksum_lem_example :
    let s = adler_sums (record { a = 1; b = 0 }) body in adler_checksum body ≡ s.a + s.b * 2 ^ 16
adler_checksum_lem_example = adler_checksum_lem body (omega arith) (omega arith)
