-- ===== src/Wire/RoundTrip.antt =====
-- What one core encodes the other decodes: every struct of include/icap.h and the message of
-- src/platform/icap_transport.h comes back as it was, if its fields fit their C types.
use icap.Prelude.{
  ◌++◌, refl, append_assoc, ℕ, ◌+◌, ◌<◌, ◌^◌, ◌≡◌, ap, List, [], ◌∷◌, arith, length, drop,
  take-append, drop-append, ◌*◌, suc, ◌-◌,
}
use icap.Wire.Words.{
  Bytes, get_u32, u32_at, put_u32, put_words, get_words, AreWords, get_u32-put_u32,
  get_words-put_words,
}
use icap.Wire.Types.{
  BufDescriptor, BufFrags, BufOffsets, SubdeviceFeatures, SubdeviceParams, MsgHeader,
}
use icap.Wire.Codec.{
  encode_frags, decode_frags, encode_offsets, decode_offsets, encode_features, decode_features,
  encode_params, buf_of, decode_params, encode_buf, decode_buf, encode_msg, decode_msg,
}

-- The fields of each struct fit 32 bits, and its arrays have their declared lengths.
abbrev pub FragsFit : BufFrags → Type 0
FragsFit f = AreWords (f.buf_id ∷ f.frags ∷ [])

abbrev pub OffsetsFit : BufOffsets → Type 0
OffsetsFit o = AreWords (o.buf_id ∷ o.num ∷ o.frags_offsets) × (length o.frags_offsets ≡ 64)

abbrev pub FeaturesFit : SubdeviceFeatures → Type 0
FeaturesFit f = AreWords (
    f.type ∷ f.src_buf_max ∷ f.dst_buf_max ∷ f.channels_min ∷ f.channels_max ∷ f.formats ∷ f.rates
    ∷ [])

abbrev pub ParamsFit : SubdeviceParams → Type 0
ParamsFit p = AreWords (p.subdev_id ∷ p.channels ∷ p.format ∷ p.rate ∷ [])

abbrev pub BufFits : BufDescriptor → Type 0
BufFits b =
    (length b.name ≡ 64)
    × AreWords (
        b.subdev_id ∷ b.buf_low ∷ b.buf_high ∷ b.buf_size ∷ b.type ∷ b.gap_size ∷ b.frag_size
        ∷ b.channels ∷ b.format ∷ b.rate ∷ b.report_frags ∷ [])

abbrev pub HeaderFits : MsgHeader → Type 0
HeaderFits h =
    AreWords (h.protocol_version ∷ h.seq_num ∷ h.cmd ∷ h.type ∷ h.payload_len ∷ h.reserved)
    × (length h.reserved ≡ 5)

-- What follows a word does not bear on how it reads.
pub word : (w : ℕ) → w < 2 ^ 32 → get_u32 (put_u32 w []) ≡ w
word w = get_u32-put_u32 w []

pub decode_frags-tail :
    (f : BufFrags) (rest : Bytes) → FragsFit f → decode_frags (encode_frags f ++ rest) ≡ f
unfolding decode_frags encode_frags u32_at put_u32
decode_frags-tail f rest h =
    λ i. record { buf_id = word f.buf_id h.0 i; frags = word f.frags h.1.0 i }

decode_params-tail :
    (p : SubdeviceParams) (rest : Bytes) → ParamsFit p → decode_params (encode_params p ++ rest) ≡ p
unfolding decode_params encode_params u32_at put_u32 put_words
decode_params-tail p rest h = λ i. record {
  subdev_id = word p.subdev_id h.0 i;
  channels = word p.channels h.1.0 i;
  format = word p.format h.1.1.0 i;
  rate = word p.rate h.1.1.1.0 i;
}

pub decode_features-tail :
    (f : SubdeviceFeatures) (rest : Bytes)
    → FeaturesFit f
    → decode_features (encode_features f ++ rest) ≡ f
unfolding decode_features encode_features u32_at put_u32 put_words
decode_features-tail f rest h = λ i. record {
  type = word f.type h.0 i;
  src_buf_max = word f.src_buf_max h.1.0 i;
  dst_buf_max = word f.dst_buf_max h.1.1.0 i;
  channels_min = word f.channels_min h.1.1.1.0 i;
  channels_max = word f.channels_max h.1.1.1.1.0 i;
  formats = word f.formats h.1.1.1.1.1.0 i;
  rates = word f.rates h.1.1.1.1.1.1.0 i;
}

put_words-append : (ws : List ℕ) (rest : Bytes) → put_words ws [] ++ rest ≡ put_words ws rest
unfolding put_words put_u32
put_words-append [] rest = refl
put_words-append (w ∷ ws) rest = ap (put_u32 w) (put_words-append ws rest)

decode_offsets-tail :
    (o : BufOffsets) (rest : Bytes) → OffsetsFit o → decode_offsets (encode_offsets o ++ rest) ≡ o
unfolding decode_offsets encode_offsets u32_at put_u32
decode_offsets-tail o rest h = λ i. record {
  buf_id = word o.buf_id h.0.0 i;
  num = word o.num h.0.1.0 i;
  frags_offsets = words i;
}
  where
    words : get_words 64 (put_words o.frags_offsets [] ++ rest) ≡ o.frags_offsets
    words =
        rw (← h.1, put_words-append o.frags_offsets rest)
          (get_words-put_words o.frags_offsets rest h.0.1.1)

-- The fields behind the name, whatever follows them.
buf_fields-tail :
    (b : BufDescriptor) (rest : Bytes)
    → BufFits b
    → buf_of b.name (
        put_words
          (b.subdev_id ∷ b.buf_low ∷ b.buf_high ∷ b.buf_size ∷ b.type ∷ b.gap_size ∷ b.frag_size
            ∷ b.channels ∷ b.format ∷ b.rate ∷ b.report_frags ∷ [])
          []
        ++ rest)
      ≡ b
unfolding buf_of u32_at put_u32 put_words
buf_fields-tail b rest h = λ i. record {
  name = b.name;
  subdev_id = word b.subdev_id h.1.0 i;
  buf_low = word b.buf_low h.1.1.0 i;
  buf_high = word b.buf_high h.1.1.1.0 i;
  buf_size = word b.buf_size h.1.1.1.1.0 i;
  type = word b.type h.1.1.1.1.1.0 i;
  gap_size = word b.gap_size h.1.1.1.1.1.1.0 i;
  frag_size = word b.frag_size h.1.1.1.1.1.1.1.0 i;
  channels = word b.channels h.1.1.1.1.1.1.1.1.0 i;
  format = word b.format h.1.1.1.1.1.1.1.1.1.0 i;
  rate = word b.rate h.1.1.1.1.1.1.1.1.1.1.0 i;
  report_frags = word b.report_frags h.1.1.1.1.1.1.1.1.1.1.1.0 i;
}

pub decode_buf-tail :
    (b : BufDescriptor) (rest : Bytes) → BufFits b → decode_buf (encode_buf b ++ rest) ≡ b
unfolding decode_buf encode_buf
decode_buf-tail b rest h =
    rw (append_assoc, take-append b.name _ h.0, drop-append b.name _ h.0) (buf_fields-tail b rest h)

-- A buffer descriptor, a table of fragment offsets, a description of a subdevice's features, a
-- set of subdevice parameters and a fragment report, whose fields are 32-bit words, with 64 bytes
-- of name and 64 offsets, come back from their bytes, whatever bytes lie behind these.
pub decode-encode :
    (b : BufDescriptor) (o : BufOffsets) (u : SubdeviceFeatures) (p : SubdeviceParams)
    (f : BufFrags) (rest : Bytes)
    → BufFits b
    → OffsetsFit o
    → FeaturesFit u
    → ParamsFit p
    → FragsFit f
    → (decode_buf (encode_buf b ++ rest) ≡ b)
      × (decode_offsets (encode_offsets o ++ rest) ≡ o)
      × (decode_features (encode_features u ++ rest) ≡ u)
      × (decode_params (encode_params p ++ rest) ≡ p)
      × (decode_frags (encode_frags f ++ rest) ≡ f)
decode-encode b o u p f rest hb ho hu hp hf = (
  decode_buf-tail b rest hb,
  decode_offsets-tail o rest ho,
  decode_features-tail u rest hu,
  decode_params-tail p rest hp,
  decode_frags-tail f rest hf,
)

drop-put_words :
    (ws : List ℕ) (k n : ℕ) (rest : Bytes)
    → k ≡ 4 * length ws + n
    → drop k (put_words ws rest) ≡ drop n rest
unfolding put_words put_u32
drop-put_words [] k n rest e = ap (λ m. drop m rest) (omega arith)
drop-put_words (w ∷ ws) k n rest e =
    let four : k ≡ suc (suc (suc (suc (k - 4)))) = omega arith in
    rw four (drop-put_words ws (k - 4) n rest (omega arith))

-- If the header's fields are 32-bit words, five of them reserved, then decoding an encoded
-- message gives the header, and the payload with all the bytes behind it.
pub decode_msg-encode_msg :
    (h : MsgHeader) (payload : Bytes)
    → HeaderFits h
    → decode_msg (encode_msg h payload) ≡ record { header = h; payload = payload }
unfolding decode_msg encode_msg u32_at put_u32
decode_msg-encode_msg h payload f = λ i. record {
  header = record {
    protocol_version = word h.protocol_version f.0.0 i;
    seq_num = word h.seq_num f.0.1.0 i;
    cmd = word h.cmd f.0.1.1.0 i;
    type = word h.type f.0.1.1.1.0 i;
    reserved = reserved i;
    payload_len = len i;
  };
  payload = behind i;
}
  where
    after : Bytes
    after = put_u32 h.payload_len payload

    reserved : get_words 5 (put_words h.reserved after) ≡ h.reserved
    reserved = rw (← f.1) (get_words-put_words h.reserved after f.0.1.1.1.1.1)

    len : get_u32 (drop 20 (put_words h.reserved after)) ≡ h.payload_len
    len =
        rw (drop-put_words h.reserved 20 0 after (omega arith))
          (get_u32-put_u32 h.payload_len payload f.0.1.1.1.1.0)

    behind : drop 24 (put_words h.reserved after) ≡ payload
    behind = drop-put_words h.reserved 24 4 after (omega arith)
