-- ===== src/Wire/Message.antt =====
-- Messages as lists of bytes: their lengths, and what stands behind them in a buffer.
use icap.Prelude.{ℕ, ◌+◌, ◌≡◌, refl, ◌∙◌, List, [], ◌∷◌, ◌++◌, arith, length, take, take-append}
use icap.Wire.Words.{Bytes, put_u32, put_words, length-put_u32, length-put_words}
use icap.Wire.Types.{MsgHeader}
use icap.Wire.Codec.{encode_msg}

put_words-append :
    (ws : List ℕ) (rest ys : Bytes) → put_words ws rest ++ ys ≡ put_words ws (rest ++ ys)
unfolding put_words put_u32
put_words-append [] rest ys = refl
put_words-append (w ∷ ws) rest ys = rw (put_words-append ws rest ys)

pub encode_msg-append :
    (h : MsgHeader) (p ys : Bytes) → encode_msg h p ++ ys ≡ encode_msg h (p ++ ys)
unfolding encode_msg put_u32
encode_msg-append h p ys = rw (put_words-append h.reserved (put_u32 h.payload_len p) ys)

pub length-encode_msg :
    (h : MsgHeader) (p : Bytes) → length h.reserved ≡ 5 → length (encode_msg h p) ≡ 40 + length p
unfolding encode_msg put_u32
length-encode_msg h p e =
    omega
      (arith, length-put_words h.reserved (put_u32 h.payload_len p), length-put_u32 h.payload_len p)

-- The first bytes of a buffer are the message that it holds.
pub take-encode_msg :
    (h : MsgHeader) (p rest : Bytes) {n : ℕ}
    → length h.reserved ≡ 5
    → 40 + length p ≡ n
    → take n (encode_msg h (p ++ rest)) ≡ encode_msg h p
take-encode_msg h p rest e l =
    rw (← encode_msg-append h p rest)
      (take-append (encode_msg h p) rest (length-encode_msg h p e ∙ l))
