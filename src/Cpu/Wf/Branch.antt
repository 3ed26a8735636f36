-- ===== src/Cpu/Wf/Branch.antt =====
-- The jumps and branches of cpu_instructions.c.
use zonistation_one.Base.{if◌then◌else◌, add32, bit, ℕ, Bool, true, false, arith}
use zonistation_one.Cpu.Branch.{
  reg_ra, branch_if, jump_to, op_j, op_jal, op_jr, op_jalr, op_beq, op_bne, op_bgtz, op_blez,
  op_bxx,
}
use zonistation_one.Cpu.Fields.{instr_s, instr_d}
use zonistation_one.Cpu.Regs.{cpu_set_reg, cpu_branch}
use zonistation_one.Cpu.Wf.Alu.{reg-IsWord}
use zonistation_one.Cpu.Wf.Core.{IsWord, Cop0Words, IsWf, set_reg-IsWf, Keeps}
use zonistation_one.Machine.{Cpu}

module _ {D G : Type 0} where
  branch_if-IsWf : {cpu : Cpu D G} (taken : Bool) (i : ℕ) → IsWf cpu → IsWf (branch_if cpu taken i)
  unfolding branch_if cpu_branch
  branch_if-IsWf true i w = record {
    regs = w.regs;
    flow = (w.flow.0, omega arith, w.flow.2);
    delay = w.delay;
    muldiv = w.muldiv;
    cop0 = w.cop0;
    memory = w.memory;
  }
  branch_if-IsWf false i w = w

  jump_to-IsWf : {cpu : Cpu D G} {target : ℕ} → IsWf cpu → IsWord target → IsWf (jump_to cpu target)
  unfolding jump_to
  jump_to-IsWf {cpu} {target} w h = record {
    regs = w.regs;
    flow = (w.flow.0, h, w.flow.2);
    delay = w.delay;
    muldiv = w.muldiv;
    cop0 = cop0-tar w.cop0;
    memory = w.memory;
  }
    where
      cop0-tar : Cop0Words cpu → Cop0Words (record cpu { cop0_tar = target })
      cop0-tar c = (c.0, c.1, c.2, c.3, c.4, h, c.6, c.7, c.8, c.9, c.10)

  pub op_j-IsWf : Keeps {D = D} {G = G} op_j
  unfolding op_j
  op_j-IsWf cpu i w = jump_to-IsWf w (omega (arith, w.flow.0))

  pub op_jal-IsWf : Keeps {D = D} {G = G} op_jal
  unfolding op_jal
  op_jal-IsWf cpu i w =
      let linked = set_reg-IsWf reg_ra {value = add32 cpu.pc 4} w (omega arith) in
      jump_to-IsWf linked (omega (arith, linked.flow.0))

  pub op_jr-IsWf : Keeps {D = D} {G = G} op_jr
  unfolding op_jr
  op_jr-IsWf cpu i w = jump_to-IsWf w (reg-IsWord (instr_s i) w)

  pub op_jalr-IsWf : Keeps {D = D} {G = G} op_jalr
  unfolding op_jalr
  op_jalr-IsWf cpu i w =
      jump_to-IsWf (set_reg-IsWf (instr_d i) w (omega arith)) (reg-IsWord (instr_s i) w)

  pub op_beq-IsWf : Keeps {D = D} {G = G} op_beq
  unfolding op_beq
  op_beq-IsWf cpu i w = branch_if-IsWf _ i w

  pub op_bne-IsWf : Keeps {D = D} {G = G} op_bne
  unfolding op_bne
  op_bne-IsWf cpu i w = branch_if-IsWf _ i w

  pub op_bgtz-IsWf : Keeps {D = D} {G = G} op_bgtz
  unfolding op_bgtz
  op_bgtz-IsWf cpu i w = branch_if-IsWf _ i w

  pub op_blez-IsWf : Keeps {D = D} {G = G} op_blez
  unfolding op_blez
  op_blez-IsWf cpu i w = branch_if-IsWf _ i w

  linked-IsWf :
      (cpu : Cpu D G) (link : Bool)
      → IsWf cpu
      → IsWf (if link then cpu_set_reg cpu reg_ra (add32 cpu.pc 4) else cpu)
  linked-IsWf cpu true w = set_reg-IsWf reg_ra w (omega arith)
  linked-IsWf cpu false w = w

  pub op_bxx-IsWf : Keeps {D = D} {G = G} op_bxx
  unfolding op_bxx
  op_bxx-IsWf cpu i w = branch_if-IsWf _ i (linked-IsWf cpu (bit i 20) w)
