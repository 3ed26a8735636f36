-- ===== src/Tests/Geometry.antt =====
-- The coprocessor of src/gte/gte.c on concrete registers: a rotation matrix of 1 in fixed point, a
-- vertex at (100, 50, 2000) and a projection distance of 1000.
use zonistation_one.Gte.Ctl
use zonistation_one.Base.{u8, ◌<<<◌, ◌>>>◌, ℕ, ◌+◌, ◌*◌, ◌^◌, ◌≤◌, ◌≡◌, refl, true, arith}
use zonistation_one.Base.Int.{◌+ℤ◌, ◌-ℤ◌, ◌*ℤ◌, pos, negsuc}
use zonistation_one.Base.Map.{update}
use zonistation_one.Gte.Device.{Geometry, with_gte}
use zonistation_one.Gte.Divide.{count_leading_zeros, unr_reciprocal, unr_quotient, gte_unr_divide}
use zonistation_one.Gte.Execute.{gte_execute_instruction, run_command}
use zonistation_one.Gte.FlagReset.{gte_execute_instruction-set_control}
use zonistation_one.Gte.Overflow.{check_mac_overflow-sign_extend_44}
use zonistation_one.Gte.Pipeline.{set_macs, ir_from_mac}
use zonistation_one.Gte.Reciprocal.{unr_reciprocal_lem}
use zonistation_one.Gte.RegisterMap.{gte_read_data_register-gte_write_data_register, DataRegister}
use zonistation_one.Gte.Registers.{gte_read_data_register, gte_write_data_register}
use zonistation_one.Gte.Saturate.{
  saturate, sign_extend_44, check_mac_overflow, truncate_and_set_mac, truncate_and_set_ir, mac,
  push_rgb_from_mac, push_sz, push_sxy,
}
use zonistation_one.Gte.Saturation.{
  colour_of, push_rgb_from_mac_lem, IsOnScreen, push_sxy_lem, IsSaturated,
  truncate_and_set_ir-IsSaturated,
}
use zonistation_one.Gte.State.{
  Gte, set_control, int16, high16, set_flag, reset_flag, gte_update_error_flag, vector, ir, matrix,
  row_dot,
}
use zonistation_one.Gte.Transform.{
  set_ir3, set_depth, rotate_vertex, project_vertex, gte_rtps_core, gte_rtps,
}
use zonistation_one.Gte.Wf.Commands.{gte_execute_instruction-GteIsWf}
use zonistation_one.Gte.Wf.Core.{GteIsWf}
use zonistation_one.Gte.Wf.Flag.{zero-FlagIsWf}
use zonistation_one.Machine.{Cpu, Env}
use zonistation_one.Tests.{quiet_devices_beside, machine_beside}

abbrev blank : Gte
blank = record { data_reg = λ r. 0; control = λ r. 0 }

blank-GteIsWf : GteIsWf blank
blank-GteIsWf = record {
  data_words = λ r. omega arith;
  control_words = λ r. omega arith;
  flag = zero-FlagIsWf;
}

abbrev vertex : Gte
vertex = record {
  data_reg = update (update (λ r. 0) 0 (50 * 2 ^ 16 + 100)) 1 2000;
  control = update (update (update (update (λ r. 0) 0 4096) 2 4096) 4 4096) Ctl.h 1000;
}

-- RTPS with `sf`.
abbrev rtps : ℕ
rtps = 0x8_0001

gte_execute_instruction-GteIsWf_example : GteIsWf (gte_execute_instruction blank rtps).1
gte_execute_instruction-GteIsWf_example = gte_execute_instruction-GteIsWf blank rtps blank-GteIsWf

gte_execute_instruction-set_control_example :
    gte_execute_instruction (set_control vertex Ctl.flag 0x8002_0000) rtps
    ≡ gte_execute_instruction vertex rtps
gte_execute_instruction-set_control_example =
    gte_execute_instruction-set_control vertex 0x8002_0000 rtps refl

-- The point on the screen is (50, 25), after 15 cycles.
projected : gte_read_data_register (gte_execute_instruction vertex rtps).1 14 ≡ 25 * 2 ^ 16 + 50
unfolding gte_read_data_register gte_execute_instruction run_command gte_rtps gte_rtps_core
    rotate_vertex project_vertex set_depth set_ir3 set_macs ir_from_mac truncate_and_set_mac
    truncate_and_set_ir check_mac_overflow saturate sign_extend_44 matrix vector row_dot push_sz
    push_sxy gte_unr_divide unr_quotient unr_reciprocal count_leading_zeros reset_flag set_flag
    gte_update_error_flag ◌+ℤ◌ ◌-ℤ◌ ◌*ℤ◌
projected = refl

truncate_and_set_ir-IsSaturated_example :
    IsSaturated true (negsuc 4) (ir (truncate_and_set_ir blank 2 (negsuc 4) true) 2)
truncate_and_set_ir-IsSaturated_example =
    truncate_and_set_ir-IsSaturated blank 2 (negsuc 4) true (ground arith)

push_rgb_from_mac_lem_example :
    (push_rgb_from_mac vertex).data_reg 20 ≡ vertex.data_reg 21
    × (push_rgb_from_mac vertex).data_reg 21 ≡ vertex.data_reg 22
    × (push_rgb_from_mac vertex).data_reg 22
      ≡ colour_of (mac vertex 1)
        + colour_of (mac vertex 2) <<< 8
        + colour_of (mac vertex 3) <<< 16
        + u8 (vertex.data_reg 6 >>> 24) <<< 24
push_rgb_from_mac_lem_example = push_rgb_from_mac_lem vertex

push_sxy_lem_example :
    (push_sxy vertex (pos 5000) (negsuc 4)).data_reg 12 ≡ vertex.data_reg 13
    × (push_sxy vertex (pos 5000) (negsuc 4)).data_reg 13 ≡ vertex.data_reg 14
    × IsOnScreen (pos 5000) (int16 ((push_sxy vertex (pos 5000) (negsuc 4)).data_reg 14))
    × IsOnScreen (negsuc 4) (high16 ((push_sxy vertex (pos 5000) (negsuc 4)).data_reg 14))
push_sxy_lem_example = push_sxy_lem vertex (pos 5000) (negsuc 4)

unr_reciprocal_lem_example :
    2 ^ 32 ≤ unr_reciprocal 0xFA00 * 0xFA00 + 3 * 0xFA00
    × unr_reciprocal 0xFA00 * 0xFA00 ≤ 2 ^ 32 + 2 * 0xFA00
unr_reciprocal_lem_example = unr_reciprocal_lem 0xFA00 (omega arith) (omega arith)

check_mac_overflow-sign_extend_44_example :
    check_mac_overflow vertex 1 (sign_extend_44 (pos (2 ^ 43))) ≡ vertex
check_mac_overflow-sign_extend_44_example =
    check_mac_overflow-sign_extend_44 vertex 1 (pos (2 ^ 43)) (omega arith)

-- Without the cut to 44 bits the same sum sets bit 30.
overflow : (check_mac_overflow vertex 1 (pos (2 ^ 43))).control 31 ≡ 2 ^ 30
unfolding check_mac_overflow set_flag
overflow = refl

abbrev geometry : Geometry
geometry = record { registers = blank; invariant = blank-GteIsWf }

-- IR1 keeps a signed halfword.
gte_read_data_register-gte_write_data_register_example :
    gte_read_data_register (gte_write_data_register vertex 9 0x1_8000) 9 ≡ 0xFFFF_8000
gte_read_data_register-gte_write_data_register_example =
    gte_read_data_register-gte_write_data_register vertex DataRegister.ir1 0x1_8000

-- With the coprocessor enabled.
abbrev enabled : Cpu Unit Geometry
enabled = record (machine_beside geometry) { sr = 0x4000_0401 }

abbrev beside_gte : Env Unit Geometry
unfolding with_gte
beside_gte = with_gte (quiet_devices_beside Geometry)
