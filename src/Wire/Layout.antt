-- ===== src/Wire/Layout.antt =====
-- Where the compilers of include/icap_compiler.h place the members of the structs that travel.
use icap.Prelude.{
  ℕ, ◌+◌, ◌-◌, ◌*◌, ◌/◌, min, Bool, true, false, List, [], ◌∷◌, if◌then◌else◌, ◌≡◌, refl, drop,
  get_or, ap, drop-drop,
}
use icap.Wire.Words.{Bytes, u32_at, get_u32, get_words}
use icap.Wire.Types.{BufDescriptor}
use icap.Wire.Codec.{
  decode_frags, decode_offsets, decode_features, decode_params, decode_msg, decode_buf, buf_of,
}

-- `__CCESVERSION__`, and any other compiler.
pub data Compiler : Type 0 where
  cces gcc : Compiler

-- A member's size and its natural alignment.
pub record Member : Type 0 where
  pub size : ℕ
  pub align : ℕ

-- A struct's members, and which of `ICAP_PACKED_BEGIN` and `ICAP_PACKED_END` stand around it.
pub record Declaration : Type 0 where
  pub begins : Bool
  pub ends : Bool
  pub members : List Member

-- The largest alignment that a member gets: `_Pragma("pack(1)")` stands in front of a struct and
-- `__attribute__((packed))` behind it. No member is aligned to more than eight bytes.
unfoldable pub packing : Compiler → Declaration → ℕ
packing cces d = if d.begins then 1 else 8
packing gcc d = if d.ends then 1 else 8

abbrev pub round_up : ℕ → ℕ → ℕ
round_up n a = (n + (a - 1)) / a * a

-- The offsets of the members behind a position.
unfoldable pub offsets_from : ℕ → ℕ → List Member → List ℕ
offsets_from cap n [] = []
offsets_from cap n (m ∷ ms) =
    let at = round_up n (min cap m.align) in at ∷ offsets_from cap (at + m.size) ms

unfoldable pub offsets_of : Compiler → Declaration → List ℕ
unfolding packing offsets_from
offsets_of c d = offsets_from (packing c d) 0 d.members

abbrev word : Member
word = record { size = 4; align = 4 }

abbrev packed : List Member → Declaration
packed ms = record { begins = true; ends = true; members = ms }

abbrev pub buf_descriptor : Declaration
buf_descriptor = packed (
    record { size = 64; align = 1 }
    ∷ word
    ∷ record { size = 8; align = 8 }
    ∷ word
    ∷ word
    ∷ word
    ∷ word
    ∷ word
    ∷ word
    ∷ word
    ∷ word
    ∷ [])

abbrev pub buf_frags : Declaration
buf_frags = packed (word ∷ word ∷ [])

abbrev pub buf_offsets : Declaration
buf_offsets = packed (word ∷ word ∷ record { size = 256; align = 4 } ∷ [])

abbrev pub subdevice_features : Declaration
subdevice_features = packed (word ∷ word ∷ word ∷ word ∷ word ∷ word ∷ word ∷ [])

-- This struct has the end alone.
abbrev pub subdevice_params : Declaration
subdevice_params = record { begins = false; ends = true; members = word ∷ word ∷ word ∷ word ∷ [] }

abbrev pub msg_header : Declaration
msg_header = packed (word ∷ word ∷ word ∷ word ∷ record { size = 20; align = 4 } ∷ word ∷ [])

-- The words that stand at these offsets.
abbrev pub words_at : List ℕ → Bytes → List ℕ
words_at [] bs = []
words_at (o ∷ os) bs = u32_at bs o ∷ words_at os bs

-- What the decoders read, one word for each member behind a buffer's name, the first word of an
-- array and the low word of a pointer.
unfoldable pub read_words : Bytes → List (List ℕ)
read_words bs =
    let frags = decode_frags bs in
    let offsets = decode_offsets bs in
    let features = decode_features bs in
    let params = decode_params bs in
    let header = (decode_msg bs).header in
    (frags.buf_id ∷ frags.frags ∷ [])
    ∷ (offsets.buf_id ∷ offsets.num ∷ get_or offsets.frags_offsets 0 0 ∷ [])
    ∷ (features.type ∷ features.src_buf_max ∷ features.dst_buf_max ∷ features.channels_min
        ∷ features.channels_max ∷ features.formats ∷ features.rates ∷ [])
    ∷ (params.subdev_id ∷ params.channels ∷ params.format ∷ params.rate ∷ [])
    ∷ (header.protocol_version
        ∷ header.seq_num
        ∷ header.cmd
        ∷ header.type
        ∷ get_or header.reserved 0 0
        ∷ header.payload_len
        ∷ [])
    ∷ []

abbrev pub laid_out : Compiler → Bytes → List (List ℕ)
laid_out c bs =
    words_at (offsets_of c buf_frags) bs
    ∷ words_at (offsets_of c buf_offsets) bs
    ∷ words_at (offsets_of c subdevice_features) bs
    ∷ words_at (offsets_of c subdevice_params) bs
    ∷ words_at (offsets_of c msg_header) bs
    ∷ []

unfoldable pub buf_words : BufDescriptor → List ℕ
buf_words b =
    b.subdev_id ∷ b.buf_low ∷ b.buf_size ∷ b.type ∷ b.gap_size ∷ b.frag_size ∷ b.channels ∷ b.format
    ∷ b.rate ∷ b.report_frags ∷ []

-- Behind the name.
fields_at : (bs : Bytes) (k : ℕ) → u32_at (drop 64 bs) k ≡ u32_at bs (64 + k)
unfolding u32_at
fields_at bs k = ap get_u32 (drop-drop 64 k bs refl)

buf-words_at :
    (bs : Bytes)
    → buf_words (decode_buf bs)
      ≡ words_at (64 ∷ 68 ∷ 76 ∷ 80 ∷ 84 ∷ 88 ∷ 92 ∷ 96 ∷ 100 ∷ 104 ∷ []) bs
unfolding buf_words decode_buf buf_of u32_at
buf-words_at bs =
    let at = fields_at bs in
    λ i.
      at 0 i
      ∷ at 4 i
      ∷ at 12 i
      ∷ at 16 i
      ∷ at 20 i
      ∷ at 24 i
      ∷ at 28 i
      ∷ at 32 i
      ∷ at 36 i
      ∷ at 40 i
      ∷ []

-- With either compiler of include/icap_compiler.h the members of the structs that travel lie
-- where the messages are read: for all bytes, each word that is read from an icap_buf_frags,
-- icap_buf_offsets, icap_subdevice_features, icap_subdevice_params, icap_msg_header or
-- icap_buf_descriptor (of an array its first word, of the pointer its low word) is the word at
-- the offset that the compiler's packing gives the member. This includes icap_subdevice_params,
-- in front of which ICAP_PACKED_BEGIN is missing.
pub decode-layout :
    (c : Compiler) (bs : Bytes)
    → (read_words bs ≡ laid_out c bs)
      × (buf_words (decode_buf bs) ≡ words_at (drop 1 (offsets_of c buf_descriptor)) bs)
unfolding read_words offsets_of u32_at decode_frags decode_offsets decode_features decode_params
    decode_msg get_words
decode-layout cces bs = (refl, buf-words_at bs)
decode-layout gcc bs = (refl, buf-words_at bs)
