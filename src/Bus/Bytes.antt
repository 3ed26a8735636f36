-- ===== src/Bus/Bytes.antt =====
-- Little-endian words in an array of bytes. The `|` of the shifted bytes is a sum, since each
-- element of a `uint8_t` array is below 256.
use zonistation_one.Base.{u8, ℕ, ◌+◌, ◌*◌, ◌/◌, ◌^◌, ◌<◌}
use zonistation_one.Base.Map.{update}

abbrev pub IsBytes : (ℕ → ℕ) → Type 0
IsBytes f = (i : ℕ) → f i < 256

abbrev pub load_le16 : (ℕ → ℕ) → ℕ → ℕ
load_le16 f off = f off + f (off + 1) * 2 ^ 8

abbrev pub load_le32 : (ℕ → ℕ) → ℕ → ℕ
load_le32 f off = f off + f (off + 1) * 2 ^ 8 + f (off + 2) * 2 ^ 16 + f (off + 3) * 2 ^ 24

abbrev pub store_le16 : (ℕ → ℕ) → ℕ → ℕ → ℕ → ℕ
store_le16 f off v = update (update f off (u8 v)) (off + 1) (u8 (v / 2 ^ 8))

abbrev pub store_le32 : (ℕ → ℕ) → ℕ → ℕ → ℕ → ℕ
store_le32 f off v =
    update
      (update (update (update f off (u8 v)) (off + 1) (u8 (v / 2 ^ 8))) (off + 2) (u8 (v / 2 ^ 16)))
      (off + 3) (u8 (v / 2 ^ 24))
