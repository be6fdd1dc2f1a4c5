-- ===== src/Wire/Masks.antt =====
-- The bit fields of include/icap.h as sets of formats and rates.
use icap.Prelude.{
  ℕ, zero, suc, ◌≡◌, refl, ◌&&◌, ◌^◌, ap₂, sym, subst, ◌⊎◌, inl, inr, true, false, Bool-cases, ◌==◌,
  arith, leb, has_flag, union, has, has_flag-union, List, [], ◌∷◌, ap, ◌∙◌, ◌|||◌, if◌then◌else◌,
}
use mathlib.Core.HLevel.{⊥_prop}
use mathlib.Core.Logic.Or
use mathlib.Core.List.{Mem, mem-cons, not-mem-nil, mem-cons_self, mem-cons_of_mem}
use icap.Wire.Audio.{
  Format, s8, format_number, format_bit, Rate, rate_shift, rate_bit, frequency, RateRange, rates,
  highest,
}

abbrev pub all_rates : List Rate
all_rates =
    Rate.rate_5512 ∷ Rate.rate_8000 ∷ Rate.rate_11025 ∷ Rate.rate_16000 ∷ Rate.rate_22050
    ∷ Rate.rate_32000 ∷ Rate.rate_44100 ∷ Rate.rate_48000 ∷ Rate.rate_64000 ∷ Rate.rate_88200
    ∷ Rate.rate_96000 ∷ Rate.rate_176400 ∷ Rate.rate_192000 ∷ Rate.rate_352800 ∷ Rate.rate_384000
    ∷ []

-- The places of the flags of all rates up to a frequency, from 8 kHz on.
unfoldable pub shifts_to : ℕ → List Rate → List ℕ
shifts_to top [] = []
shifts_to top (r ∷ rs) =
    let rest = shifts_to top rs in
    if leb 8000 (frequency r) && leb (frequency r) top then rate_shift r ∷ rest else rest

rates-union : (range : RateRange) → rates range ≡ union (shifts_to (highest range) all_rates)
unfolding rate_bit rate_shift frequency highest shifts_to union
rates-union RateRange.to_44100 = refl
rates-union _ = refl

-- For each of the five macros ICAP_RATES_8000_44100 to ICAP_RATES_8000_384000 and every number k,
-- bit k of the macro is set exactly if it is the flag of a rate whose frequency, as the comment
-- above its macro says, lies between 8 kHz and the highest frequency of the range: no rate of a
-- range is missing, and no other bit is set.
pub rates-range :
    (range : RateRange) (k : ℕ)
    → has_flag (rates range) k ≡ has (shifts_to (highest range) all_rates) k
rates-range range k =
    ap (λ mask. has_flag mask k) (rates-union range)
    ∙ has_flag-union (shifts_to (highest range) all_rates) k

-- The formats joined by `|`, and their numbers.
unfoldable pub formats : List Format → ℕ
formats [] = 0
formats (f ∷ fs) = format_bit f ||| formats fs

unfoldable pub numbers : List Format → List ℕ
numbers [] = []
numbers (f ∷ fs) = format_number f ∷ numbers fs

format_bit-number : (f : Format) → format_bit f ≡ 2 ^ format_number f
unfolding format_bit
format_bit-number s8 = refl
format_bit-number _ = refl

formats-union : (fs : List Format) → formats fs ≡ union (numbers fs)
unfolding formats numbers union
formats-union [] = refl
formats-union (f ∷ fs) = ap₂ (λ a b. a ||| b) (format_bit-number f) (formats-union fs)

abbrev all_formats : List Format
all_formats =
    Format.s8 ∷ Format.u8 ∷ Format.s16_le ∷ Format.s16_be ∷ Format.u16_le ∷ Format.u16_be
    ∷ Format.s24_le ∷ Format.s24_be ∷ Format.u24_le ∷ Format.u24_be ∷ Format.s32_le ∷ Format.s32_be
    ∷ Format.u32_le ∷ Format.u32_be ∷ Format.float_le ∷ Format.float_be ∷ Format.float64_le
    ∷ Format.float64_be ∷ []

format_at : List Format → ℕ → Format
format_at [] k = Format.s8
format_at (f ∷ fs) zero = f
format_at (f ∷ fs) (suc k) = format_at fs k

format_at-number : (f : Format) → format_at all_formats (format_number f) ≡ f
unfolding format_at format_number
format_at-number s8 = refl
format_at-number _ = refl

format_number-inj : (f g : Format) → format_number f ≡ format_number g → f ≡ g
format_number-inj f g e =
    sym (format_at-number f) ∙ ap (format_at all_formats) e ∙ format_at-number g

-- A number in the list is that of a format in it.
numbers-Mem :
    (fs : List Format) (k : ℕ)
    → (has (numbers fs) k ≡ false)
      ⊎ ((has (numbers fs) k ≡ true) × ((f : Format) × (format_number f ≡ k) × Mem f fs))
unfolding numbers has
numbers-Mem [] k = inl refl
numbers-Mem (f ∷ fs) k = elim (Bool-cases (format_number f == k)) [
  | inl e ↦ inr (rw e refl, (f, ground arith, mem-cons_self))
  | inr e ↦ elim (numbers-Mem fs k) [
    | inl h ↦ inl (rw (e, h) refl)
    | inr (h, (g, its, m)) ↦ inr (rw (e, h) refl, (g, its, mem-cons_of_mem f m))
  ]
]

numbers-not_Mem :
    (fs : List Format) (f : Format) → has (numbers fs) (format_number f) ≡ false → ¬ Mem f fs
unfolding numbers has
numbers-not_Mem [] f h = not-mem-nil
numbers-not_Mem (g ∷ fs) f h = λ m.
    Or.elim ⊥_prop (mem-cons.0 m) (λ here. ground (arith, ap format_number here))
      (numbers-not_Mem fs f (ground arith))

-- The bit field that joins the ICAP_FMTBIT flags of any list of sample formats describes the set
-- of these formats: the bit whose number is the ICAP_FORMAT number of a format is set if the
-- format is in the list and clear if it is not, and any bit that is set is the bit of a format in
-- the list.
pub formats-Mem :
    (fs : List Format) (f : Format) (k : ℕ)
    → (((has_flag (formats fs) (format_number f) ≡ true) × Mem f fs)
        ⊎ ((has_flag (formats fs) (format_number f) ≡ false) × (¬ Mem f fs)))
      × ((has_flag (formats fs) k ≡ false) ⊎ ((g : Format) × (format_number g ≡ k) × Mem g fs))
formats-Mem fs f k = (
  elim (numbers-Mem fs (format_number f)) [
    | inl h ↦ inr (flags (format_number f) ∙ h, numbers-not_Mem fs f h)
    | inr (h, (g, its, m)) ↦
        inl (flags (format_number f) ∙ h, subst (λ x. Mem x fs) (format_number-inj g f its) m)
  ],
  elim (numbers-Mem fs k) [ inl h ↦ inl (flags k ∙ h) | inr (h, found) ↦ inr found ],
)
  where
    flags : (j : ℕ) → has_flag (formats fs) j ≡ has (numbers fs) j
    flags j = ap (λ mask. has_flag mask j) (formats-union fs) ∙ has_flag-union (numbers fs) j
