-- ===== src/Bus/Ram.antt =====
-- src/core/ram.c: the 2 MB of main RAM with its bounds checks.
use zonistation_one.Base.{ltb, if◌then◌else◌, ℕ, ◌+◌, Bool}
use zonistation_one.Base.Map.{update}
use zonistation_one.Bus.Bytes.{load_le16, load_le32, store_le16, store_le32}

abbrev pub ram_size : ℕ
ram_size = 0x20_0000

abbrev pub is_out_of_bounds : ℕ → ℕ → Bool
is_out_of_bounds offset access_size = ltb ram_size (offset + access_size)

unfoldable pub ram_load32 : (ℕ → ℕ) → ℕ → ℕ
ram_load32 ram offset = if is_out_of_bounds offset 4 then 0 else load_le32 ram offset

unfoldable pub ram_load16 : (ℕ → ℕ) → ℕ → ℕ
ram_load16 ram offset = if is_out_of_bounds offset 2 then 0 else load_le16 ram offset

unfoldable pub ram_load8 : (ℕ → ℕ) → ℕ → ℕ
ram_load8 ram offset = if is_out_of_bounds offset 1 then 0 else ram offset

unfoldable pub ram_store32 : (ℕ → ℕ) → ℕ → ℕ → ℕ → ℕ
ram_store32 ram offset value =
    if is_out_of_bounds offset 4 then ram else store_le32 ram offset value

unfoldable pub ram_store16 : (ℕ → ℕ) → ℕ → ℕ → ℕ → ℕ
ram_store16 ram offset value =
    if is_out_of_bounds offset 2 then ram else store_le16 ram offset value

unfoldable pub ram_store8 : (ℕ → ℕ) → ℕ → ℕ → ℕ → ℕ
ram_store8 ram offset value = if is_out_of_bounds offset 1 then ram else update ram offset value
