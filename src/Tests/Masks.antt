-- ===== src/Tests/Masks.antt =====
-- The bit fields and the layout of include/icap.h, at concrete values.
use icap.Prelude.{List, ◌⊎◌, false, ◌≡◌, true, [], ◌∷◌, drop, has_flag, has}
use mathlib.Core.List.{Mem}
use icap.Wire.{
  Format, format_number, RateRange, rates, rate_shift, frequency, highest, encode_buf, decode_buf,
}
use icap.Wire.Masks.{rates-range, formats-Mem, formats, shifts_to}
use icap.Wire.Layout.{
  Compiler, read_words, laid_out, buf_words, words_at, offsets_of, buf_descriptor, decode-layout,
}
use icap.Tests.Data.{descriptor}

rates-range_example : has_flag (rates RateRange.to_96000) 7 ≡ true
unfolding shifts_to has frequency rate_shift highest
rates-range_example = rates-range RateRange.to_96000 7

abbrev two_formats : List Format
two_formats = Format.s16_le ∷ Format.s32_le ∷ []

formats-Mem_example :
    (((has_flag (formats two_formats) 10 ≡ true) × Mem Format.s32_le two_formats)
      ⊎ ((has_flag (formats two_formats) 10 ≡ false) × (¬ Mem Format.s32_le two_formats)))
    × ((has_flag (formats two_formats) 4 ≡ false)
        ⊎ ((g : Format) × (format_number g ≡ 4) × Mem g two_formats))
unfolding format_number
formats-Mem_example = formats-Mem two_formats Format.s32_le 4

decode-layout_example :
    (read_words (encode_buf descriptor) ≡ laid_out Compiler.cces (encode_buf descriptor))
    × (buf_words (decode_buf (encode_buf descriptor))
        ≡ words_at (drop 1 (offsets_of Compiler.cces buf_descriptor)) (encode_buf descriptor))
decode-layout_example = decode-layout Compiler.cces (encode_buf descriptor)
