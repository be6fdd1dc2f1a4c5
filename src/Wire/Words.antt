-- ===== src/Wire/Words.antt =====
-- Objects of src/platform/icap_transport.h and include/icap.h as the bytes that they occupy: all
-- structs are packed, and both cores are little-endian.
use icap.Prelude.{
  ℕ, zero, suc, ◌+◌, ◌*◌, ◌/◌, ◌%◌, ◌^◌, ◌<◌, ◌≡◌, refl, ap, sym, ◌∙◌, ap₂, List, [], ◌∷◌, arith,
  length, get_or, drop, take, ◌++◌, ◌≤◌, get_or-drop, get_or-take_append,
}

abbrev pub Bytes : Type 0
Bytes = List ℕ

-- The `uint32_t` at the start of an object. Receive buffers are longer than any struct that is
-- read from them; past the end of a list the model reads 0.
abbrev pub get_u32 : Bytes → ℕ
get_u32 bs = get_or bs 0 0 + 256 * get_or bs 1 0 + 65536 * get_or bs 2 0 + 16777216 * get_or bs 3 0

unfoldable pub u32_at : Bytes → ℕ → ℕ
u32_at bs off = get_u32 (drop off bs)

-- A `uint32_t` before the rest of an object.
unfoldable pub put_u32 : ℕ → Bytes → Bytes
put_u32 w rest = (w % 256) ∷ (w / 256 % 256) ∷ (w / 65536 % 256) ∷ (w / 16777216 % 256) ∷ rest

pub get_u32-put_u32 : (w : ℕ) (rest : Bytes) → w < 2 ^ 32 → get_u32 (put_u32 w rest) ≡ w
unfolding put_u32
get_u32-put_u32 w rest h = omega arith

pub u32_at-zero : (w : ℕ) (rest : Bytes) → w < 2 ^ 32 → u32_at (put_u32 w rest) 0 ≡ w
unfolding u32_at
u32_at-zero w rest h = get_u32-put_u32 w rest h

pub length-put_u32 : (w : ℕ) (rest : Bytes) → length (put_u32 w rest) ≡ 4 + length rest
unfolding put_u32
length-put_u32 w rest = omega arith

pub drop-put_u32 :
    (w n : ℕ) (rest : Bytes) → drop (suc (suc (suc (suc n)))) (put_u32 w rest) ≡ drop n rest
unfolding put_u32
drop-put_u32 w n rest = refl

-- An array of `uint32_t`.
unfoldable pub put_words : List ℕ → Bytes → Bytes
put_words [] rest = rest
put_words (w ∷ ws) rest = put_u32 w (put_words ws rest)

unfoldable pub get_words : ℕ → Bytes → List ℕ
get_words zero bs = []
get_words (suc n) bs = get_u32 bs ∷ get_words n (drop 4 bs)

-- All words of an array fit 32 bits.
abbrev pub AreWords : List ℕ → Type 0
AreWords [] = Unit {0}
AreWords (w ∷ ws) = (w < 2 ^ 32) × AreWords ws

pub get_words-put_words :
    (ws : List ℕ) (rest : Bytes) → AreWords ws → get_words (length ws) (put_words ws rest) ≡ ws
unfolding get_words put_words put_u32
get_words-put_words [] rest h = refl
get_words-put_words (w ∷ ws) rest h =
    ap₂ ◌∷◌ (get_u32-put_u32 w (put_words ws rest) h.0) (get_words-put_words ws rest h.1)

pub length-put_words :
    (ws : List ℕ) (rest : Bytes) → length (put_words ws rest) ≡ 4 * length ws + length rest
unfolding put_words
length-put_words [] rest = omega arith
length-put_words (w ∷ ws) rest =
    omega (arith, length-put_u32 w (put_words ws rest), length-put_words ws rest)

-- A word in front is read from the first part of an object.
pub u32_at-take_append :
    (n : ℕ) (xs ys : Bytes) (off : ℕ)
    → off + 4 ≤ n
    → n ≤ length xs
    → u32_at (take n xs ++ ys) off ≡ u32_at xs off
unfolding u32_at
u32_at-take_append n xs ys off h k =
    ap₂ ◌+◌
      (ap₂ ◌+◌ (ap₂ ◌+◌ (at 0 (omega arith)) (ap (λ b. 256 * b) (at 1 (omega arith))))
        (ap (λ b. 65536 * b) (at 2 (omega arith))))
      (ap (λ b. 16777216 * b) (at 3 (omega arith)))
  where
    at : (i : ℕ) → i < 4 → get_or (drop off (take n xs ++ ys)) i 0 ≡ get_or (drop off xs) i 0
    at i l =
        get_or-drop off (take n xs ++ ys) i 0
        ∙ get_or-take_append n xs ys (off + i) 0 (omega arith) k
        ∙ sym (get_or-drop off xs i 0)
