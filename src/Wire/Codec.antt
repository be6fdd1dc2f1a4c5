-- ===== src/Wire/Codec.antt =====
-- The structs of include/icap.h and the header of src/platform/icap_transport.h as bytes: what
-- `memcpy` and the casts of src/icap.c read and write.
use icap.Prelude.{ℕ, [], ◌∷◌, ◌++◌, drop, take}
use icap.Wire.Words.{Bytes, u32_at, put_u32, put_words, get_words}
use icap.Wire.Types.{
  BufDescriptor, BufFrags, BufOffsets, SubdeviceFeatures, SubdeviceParams, MsgHeader, Msg,
}

unfoldable pub encode_u32 : ℕ → Bytes
encode_u32 w = put_u32 w []

unfoldable pub encode_frags : BufFrags → Bytes
encode_frags f = put_u32 f.buf_id (put_u32 f.frags [])

unfoldable pub decode_frags : Bytes → BufFrags
decode_frags bs = record { buf_id = u32_at bs 0; frags = u32_at bs 4 }

unfoldable pub encode_offsets : BufOffsets → Bytes
encode_offsets o = put_u32 o.buf_id (put_u32 o.num (put_words o.frags_offsets []))

unfoldable pub decode_offsets : Bytes → BufOffsets
decode_offsets bs = record {
  buf_id = u32_at bs 0;
  num = u32_at bs 4;
  frags_offsets = get_words 64 (drop 8 bs);
}

unfoldable pub encode_features : SubdeviceFeatures → Bytes
encode_features f =
    put_words
      (f.type ∷ f.src_buf_max ∷ f.dst_buf_max ∷ f.channels_min ∷ f.channels_max ∷ f.formats
        ∷ f.rates ∷ [])
      []

unfoldable pub decode_features : Bytes → SubdeviceFeatures
decode_features bs = record {
  type = u32_at bs 0;
  src_buf_max = u32_at bs 4;
  dst_buf_max = u32_at bs 8;
  channels_min = u32_at bs 12;
  channels_max = u32_at bs 16;
  formats = u32_at bs 20;
  rates = u32_at bs 24;
}

unfoldable pub encode_params : SubdeviceParams → Bytes
encode_params p = put_words (p.subdev_id ∷ p.channels ∷ p.format ∷ p.rate ∷ []) []

unfoldable pub decode_params : Bytes → SubdeviceParams
decode_params bs = record {
  subdev_id = u32_at bs 0;
  channels = u32_at bs 4;
  format = u32_at bs 8;
  rate = u32_at bs 12;
}

unfoldable pub encode_buf : BufDescriptor → Bytes
encode_buf b =
    b.name
    ++ put_words
        (b.subdev_id ∷ b.buf_low ∷ b.buf_high ∷ b.buf_size ∷ b.type ∷ b.gap_size ∷ b.frag_size
          ∷ b.channels ∷ b.format ∷ b.rate ∷ b.report_frags ∷ [])
        []

unfoldable pub buf_of : Bytes → Bytes → BufDescriptor
buf_of name fields = record {
  name = name;
  subdev_id = u32_at fields 0;
  buf_low = u32_at fields 4;
  buf_high = u32_at fields 8;
  buf_size = u32_at fields 12;
  type = u32_at fields 16;
  gap_size = u32_at fields 20;
  frag_size = u32_at fields 24;
  channels = u32_at fields 28;
  format = u32_at fields 32;
  rate = u32_at fields 36;
  report_frags = u32_at fields 40;
}

unfoldable pub decode_buf : Bytes → BufDescriptor
decode_buf bs = buf_of (take 64 bs) (drop 64 bs)

-- The header before the payload.
unfoldable pub encode_msg : MsgHeader → Bytes → Bytes
encode_msg h payload = put_u32 h.protocol_version (
    put_u32 h.seq_num
      (put_u32 h.cmd (put_u32 h.type (put_words h.reserved (put_u32 h.payload_len payload)))))

-- `(struct icap_msg *)data`
unfoldable pub decode_msg : Bytes → Msg
decode_msg bs = record {
  header = record {
    protocol_version = u32_at bs 0;
    seq_num = u32_at bs 4;
    cmd = u32_at bs 8;
    type = u32_at bs 12;
    reserved = get_words 5 (drop 16 bs);
    payload_len = u32_at bs 36;
  };
  payload = drop 40 bs;
}
