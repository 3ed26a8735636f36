-- ===== src/Gte/Execute.antt =====
-- gte.c: the dispatch of the commands, with the cycles each takes.
use zonistation_one.Base.{◌==◌, if◌then◌else◌, ℕ, ◌%◌, ◌^◌}
use zonistation_one.Gte.Colour.{
  gte_ncs, gte_nct, gte_nccs, gte_ncct, gte_cc, gte_cdp, gte_ncds, gte_ncdt, gte_dpcs, gte_dpct,
  gte_dcpl, gte_intpl, gte_gpf, gte_gpl,
}
use zonistation_one.Gte.State.{Gte, gte_update_error_flag}
use zonistation_one.Gte.Transform.{
  gte_rtps, gte_rtpt, gte_nclip, gte_mvmva, gte_sqr, gte_op, gte_avsz3, gte_avsz4,
}

-- A command's cycles and what it does to the registers; nothing for a code that names none.
unfoldable pub run_command : Gte → ℕ → ℕ × Gte
run_command gte i =
    let opcode = i % 2 ^ 6 in
    if opcode == 0x01
    then (15, gte_rtps gte i)
    else if opcode == 0x06
    then (8, gte_nclip gte)
    else if opcode == 0x0C
    then (6, gte_op gte i)
    else if opcode == 0x10
    then (8, gte_dpcs gte i)
    else if opcode == 0x11
    then (8, gte_intpl gte i)
    else if opcode == 0x12
    then (8, gte_mvmva gte i)
    else if opcode == 0x13
    then (19, gte_ncds gte i)
    else if opcode == 0x14
    then (13, gte_cdp gte i)
    else if opcode == 0x16
    then (44, gte_ncdt gte i)
    else if opcode == 0x1B
    then (17, gte_nccs gte i)
    else if opcode == 0x1C
    then (11, gte_cc gte i)
    else if opcode == 0x1E
    then (14, gte_ncs gte i)
    else if opcode == 0x3F
    then (39, gte_ncct gte i)
    else if opcode == 0x20
    then (30, gte_nct gte i)
    else if opcode == 0x28
    then (5, gte_sqr gte i)
    else if opcode == 0x29
    then (8, gte_dcpl gte i)
    else if opcode == 0x2A
    then (17, gte_dpct gte i)
    else if opcode == 0x2D
    then (5, gte_avsz3 gte)
    else if opcode == 0x2E
    then (6, gte_avsz4 gte)
    else if opcode == 0x30
    then (23, gte_rtpt gte i)
    else if opcode == 0x3D
    then (5, gte_gpf gte i)
    else if opcode == 0x3E
    then (5, gte_gpl gte i)
    else (1, gte)

unfoldable pub gte_execute_instruction : Gte → ℕ → ℕ × Gte
gte_execute_instruction gte i =
    let (cycles, after) = run_command gte i in (cycles, gte_update_error_flag after)
