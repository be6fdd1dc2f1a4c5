-- ===== src/Tests/Wire.antt =====
-- Tests of the encodings, and their round trips at concrete structs.
use icap.Prelude.{◌≡◌, refl, arith, [], ◌∷◌, ◌++◌}
use icap.Wire.{
  decode_buf, encode_buf, decode_offsets, encode_offsets, decode_features, encode_features,
  decode_params, encode_params, decode_frags, encode_frags, decode_msg, encode_msg, put_u32,
  put_words,
}
use icap.Wire.RoundTrip.{decode-encode, decode_msg-encode_msg}
use icap.Core.{header_for}
use icap.Tests.Data.{descriptor, offsets, stereo, params, two_frags}

frags_bytes : encode_frags two_frags ≡ 7 ∷ 0 ∷ 0 ∷ 0 ∷ 2 ∷ 0 ∷ 0 ∷ 0 ∷ []
unfolding encode_frags put_u32
frags_bytes = refl

params_bytes :
    encode_params params ≡ 1 ∷ 0 ∷ 0 ∷ 0 ∷ 2 ∷ 0 ∷ 0 ∷ 0 ∷ 2 ∷ 0 ∷ 0 ∷ 0 ∷ 128 ∷ 187 ∷ 0 ∷ 0 ∷ []
unfolding encode_params put_words put_u32
params_bytes = refl

decode-encode_example :
    (decode_buf (encode_buf descriptor ++ (9 ∷ [])) ≡ descriptor)
    × (decode_offsets (encode_offsets offsets ++ (9 ∷ [])) ≡ offsets)
    × (decode_features (encode_features stereo ++ (9 ∷ [])) ≡ stereo)
    × (decode_params (encode_params params ++ (9 ∷ [])) ≡ params)
    × (decode_frags (encode_frags two_frags ++ (9 ∷ [])) ≡ two_frags)
decode-encode_example =
    decode-encode descriptor offsets stereo params two_frags (9 ∷ []) (omega arith) (omega arith)
      (omega arith) (omega arith) (omega arith)

decode_msg-encode_msg_example :
    decode_msg (encode_msg (header_for 5 59 0 8) (encode_frags two_frags))
    ≡ record { header = header_for 5 59 0 8; payload = encode_frags two_frags }
unfolding header_for
decode_msg-encode_msg_example =
    decode_msg-encode_msg (header_for 5 59 0 8) (encode_frags two_frags) (omega arith)
