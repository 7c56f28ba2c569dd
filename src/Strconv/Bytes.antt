-- ===== src/Strconv/Bytes.antt =====
-- The eight bytes of a row number.
use gensokyo_discord.Prelude.{ℕ, ◌≡◌, arith, ok, ap}
use gensokyo_discord.Strconv.{IsWord, row_bytes, read_row}

-- What PutUint64 writes, Uint64 reads back.
pub read_row-row_bytes : (w : ℕ) → IsWord w → read_row (row_bytes w) ≡ ok w
unfolding read_row row_bytes
read_row-row_bytes w h = ap ok (omega arith)
