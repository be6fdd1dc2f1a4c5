-- ===== src/Wire/Audio.antt =====
-- The sample formats and rates of include/icap.h, as numbers and as bit fields, and its types of
-- subdevices and buffers.
use icap.Prelude.{ℕ, ◌^◌, ◌|||◌}

-- `ICAP_FORMAT_…`
pub data Format : Type 0 where
  s8 u8 s16_le s16_be u16_le u16_be s24_le s24_be u24_le u24_be s32_le s32_be u32_le u32_be : Format
  float_le float_be float64_le float64_be : Format

unfoldable pub format_number : Format → ℕ
format_number s8 = 0
format_number u8 = 1
format_number s16_le = 2
format_number s16_be = 3
format_number u16_le = 4
format_number u16_be = 5
format_number s24_le = 6
format_number s24_be = 7
format_number u24_le = 8
format_number u24_be = 9
format_number s32_le = 10
format_number s32_be = 11
format_number u32_le = 12
format_number u32_be = 13
format_number float_le = 14
format_number float_be = 15
format_number float64_le = 16
format_number float64_be = 17

-- `ICAP_FMTBIT_…`: each macro is a shift by the number of its format.
unfoldable pub format_bit : Format → ℕ
unfolding format_number
format_bit s8 = 2 ^ format_number s8
format_bit u8 = 2 ^ format_number u8
format_bit s16_le = 2 ^ format_number s16_le
format_bit s16_be = 2 ^ format_number s16_be
format_bit u16_le = 2 ^ format_number u16_le
format_bit u16_be = 2 ^ format_number u16_be
format_bit s24_le = 2 ^ format_number s24_le
format_bit s24_be = 2 ^ format_number s24_be
format_bit u24_le = 2 ^ format_number u24_le
format_bit u24_be = 2 ^ format_number u24_be
format_bit s32_le = 2 ^ format_number s32_le
format_bit s32_be = 2 ^ format_number s32_be
format_bit u32_le = 2 ^ format_number u32_le
format_bit u32_be = 2 ^ format_number u32_be
format_bit float_le = 2 ^ format_number float_le
format_bit float_be = 2 ^ format_number float_be
format_bit float64_le = 2 ^ format_number float64_le
format_bit float64_be = 2 ^ format_number float64_be

-- `ICAP_RATE_…`, but for the flag of a linear range.
pub data Rate : Type 0 where
  rate_5512 rate_8000 rate_11025 rate_16000 rate_22050 rate_32000 rate_44100 rate_48000 : Rate
  rate_64000 rate_88200 rate_96000 rate_176400 rate_192000 rate_352800 rate_384000 : Rate

-- The place of a rate's flag.
unfoldable pub rate_shift : Rate → ℕ
rate_shift rate_5512 = 0
rate_shift rate_8000 = 1
rate_shift rate_11025 = 2
rate_shift rate_16000 = 3
rate_shift rate_22050 = 4
rate_shift rate_32000 = 5
rate_shift rate_44100 = 6
rate_shift rate_48000 = 7
rate_shift rate_64000 = 8
rate_shift rate_88200 = 9
rate_shift rate_96000 = 10
rate_shift rate_176400 = 11
rate_shift rate_192000 = 12
rate_shift rate_352800 = 13
rate_shift rate_384000 = 14

unfoldable pub rate_bit : Rate → ℕ
unfolding rate_shift
rate_bit r = 2 ^ rate_shift r

-- The frequency in hertz that stands above each macro.
unfoldable pub frequency : Rate → ℕ
frequency rate_5512 = 5512
frequency rate_8000 = 8000
frequency rate_11025 = 11025
frequency rate_16000 = 16000
frequency rate_22050 = 22050
frequency rate_32000 = 32000
frequency rate_44100 = 44100
frequency rate_48000 = 48000
frequency rate_64000 = 64000
frequency rate_88200 = 88200
frequency rate_96000 = 96000
frequency rate_176400 = 176400
frequency rate_192000 = 192000
frequency rate_352800 = 352800
frequency rate_384000 = 384000

abbrev pub rate_all_freq : ℕ
rate_all_freq = 2 ^ 30

-- The macros `ICAP_RATES_…` for a range of frequencies.
abbrev pub rates_8000_44100 : ℕ
rates_8000_44100 =
    rate_bit rate_8000
    ||| rate_bit rate_11025
    ||| rate_bit rate_16000
    ||| rate_bit rate_22050
    ||| rate_bit rate_32000
    ||| rate_bit rate_44100

abbrev pub rates_8000_48000 : ℕ
rates_8000_48000 = rates_8000_44100 ||| rate_bit rate_48000

abbrev pub rates_8000_96000 : ℕ
rates_8000_96000 =
    rates_8000_48000 ||| rate_bit rate_64000 ||| rate_bit rate_88200 ||| rate_bit rate_96000

abbrev pub rates_8000_192000 : ℕ
rates_8000_192000 = rates_8000_96000 ||| rate_bit rate_176400 ||| rate_bit rate_192000

abbrev pub rates_8000_384000 : ℕ
rates_8000_384000 = rates_8000_192000 ||| rate_bit rate_352800 ||| rate_bit rate_384000

pub data RateRange : Type 0 where
  to_44100 to_48000 to_96000 to_192000 to_384000 : RateRange

abbrev pub rates : RateRange → ℕ
rates to_44100 = rates_8000_44100
rates to_48000 = rates_8000_48000
rates to_96000 = rates_8000_96000
rates to_192000 = rates_8000_192000
rates to_384000 = rates_8000_384000

-- The highest frequency of a range; the lowest is 8 kHz.
unfoldable pub highest : RateRange → ℕ
highest to_44100 = 44100
highest to_48000 = 48000
highest to_96000 = 96000
highest to_192000 = 192000
highest to_384000 = 384000

-- `enum icap_dev_type`, the numbers in `icap_subdevice_features.type`.
pub data DevType : Type 0 where
  dev_playback dev_record : DevType

unfoldable pub dev_type_number : DevType → ℕ
dev_type_number dev_playback = 0
dev_type_number dev_record = 1

-- `enum icap_buf_type`, the numbers in `icap_buf_descriptor.type`.
pub data BufType : Type 0 where
  buf_circural buf_scattered : BufType

unfoldable pub buf_type_number : BufType → ℕ
buf_type_number buf_circural = 0
buf_type_number buf_scattered = 1
