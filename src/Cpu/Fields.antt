-- ===== src/Cpu/Fields.antt =====
-- The fields of an instruction word (include/cpu.h, `instr_*`). A mask of k low bits is `% 2 ^ k`.
use zonistation_one.Base.{◌>>>◌, sign_extend16, ℕ, ◌%◌}

abbrev pub instr_function : ℕ → ℕ
instr_function i = i >>> 26

abbrev pub instr_s : ℕ → ℕ
instr_s i = (i >>> 21) % 32

abbrev pub instr_t : ℕ → ℕ
instr_t i = (i >>> 16) % 32

abbrev pub instr_d : ℕ → ℕ
instr_d i = (i >>> 11) % 32

abbrev pub instr_imm : ℕ → ℕ
instr_imm i = i % 0x1_0000

abbrev pub instr_imm_se : ℕ → ℕ
instr_imm_se i = sign_extend16 (i % 0x1_0000)

abbrev pub instr_shift : ℕ → ℕ
instr_shift i = (i >>> 6) % 32

abbrev pub instr_subfunction : ℕ → ℕ
instr_subfunction i = i % 64

abbrev pub instr_imm_jump : ℕ → ℕ
instr_imm_jump i = i % 0x400_0000
