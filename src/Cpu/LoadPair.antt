-- ===== src/Cpu/LoadPair.antt =====
-- LWR and LWL of cpu_instructions.c one after the other on one register, with the load that is
-- still in flight between them.
use zonistation_one.Base.{
  ◌==◌, ◌!=◌, if-false, if-holds, add32, ℕ, ◌+◌, ◌-◌, ◌*◌, ◌/◌, ◌%◌, ◌^◌, ◌≤◌, ◌<◌, ◌≡◌, refl, ap,
  ◌∙◌, ◌≢◌, false, ◌&&◌, arith,
}
use zonistation_one.Bus.Access.{mask_region, cpu_load32}
use zonistation_one.Bus.Bytes.{load_le32, IsBytes}
use zonistation_one.Bus.Ram.{ram_size}
use zonistation_one.Cpu.Fields.{instr_s, instr_t, instr_imm_se}
use zonistation_one.Cpu.LoadStore.{
  cache_isolated, effective_address, current_rt_value, op_lwl, op_lwr,
}
use zonistation_one.Cpu.Partial.{lwl_merge, lwr_merge}
use zonistation_one.Cpu.RamRead.{IsRamRead, cpu_load32-IsRamRead}
use zonistation_one.Cpu.Regs.{cpu_reg, schedule_load, cpu_retire_load_delay}
use zonistation_one.Cpu.Step.{retire}
use zonistation_one.Cpu.Unaligned.{lwl_merge-lwr_merge}
use zonistation_one.Cpu.Wf.Core.{IsWf, IsWord}
use zonistation_one.Machine.{Cpu, Env, Interconnect}

-- The two words that an address in RAM and the one three bytes further lie in.
record Words (a : ℕ) : Type 0 where
  low_ram : mask_region (a - a % 4) < 0x80_0000
  high_ram : mask_region (a + 3 - (a + 3) % 4) < 0x80_0000
  low : mask_region (a - a % 4) % ram_size ≡ mask_region a % ram_size / 4 * 4
  high :
      mask_region (a + 3 - (a + 3) % 4) % ram_size
      ≡ (mask_region a % ram_size / 4 * 4 + a % 4 + 3) / 4 * 4
  offset : mask_region a % ram_size / 4 * 4 + a % 4 ≡ mask_region a % ram_size

words : (a : ℕ) → mask_region a < 0x80_0000 → mask_region a % ram_size + 4 ≤ ram_size → Words a
unfolding mask_region
words a h room = record {
  low_ram = ground (arith, h);
  high_ram = ground (arith, h, room);
  low = ground (arith, h);
  high = ground (arith, h, room);
  offset = ground (arith, h);
}

-- The two merges of the words that an address in RAM spans.
assembled :
    (ram : ℕ → ℕ) (a old : ℕ) {low high : ℕ}
    → Words a
    → low ≡ load_le32 ram (mask_region (a - a % 4) % ram_size)
    → high ≡ load_le32 ram (mask_region (a + 3 - (a + 3) % 4) % ram_size)
    → IsBytes ram
    → IsWord old
    → lwl_merge (lwr_merge old low (a % 4)) high ((a + 3) % 4)
      ≡ load_le32 ram (mask_region a % ram_size)
assembled ram a old {low} {high} at e f bytes h =
    let q = mask_region a % ram_size / 4 in
    let k : (a + 3) % 4 ≡ (a % 4 + 3) % 4 = omega arith in
    ap (λ x. lwl_merge (lwr_merge old x (a % 4)) high ((a + 3) % 4)) (e ∙ ap (load_le32 ram) at.low)
    ∙ ap (λ x. lwl_merge (lwr_merge old (load_le32 ram (q * 4)) (a % 4)) x ((a + 3) % 4))
        (f ∙ ap (load_le32 ram) at.high)
    ∙ ap
        (λ x.
          lwl_merge (lwr_merge old (load_le32 ram (q * 4)) (a % 4))
            (load_le32 ram ((q * 4 + a % 4 + 3) / 4 * 4)) x)
        k
    ∙ lwl_merge-lwr_merge ram old q (a % 4) bytes h (omega arith)
    ∙ ap (load_le32 ram) at.offset

module _ {D G : Type 0} (env : Env D G) where
  -- A load that was issued reaches its register after two instructions.
  pub landed :
      (cpu : Cpu D G) (r v : ℕ)
      → r ≢ 0
      → cpu_reg (retire env (retire env (schedule_load cpu r v))) r ≡ v
  unfolding retire schedule_load cpu_reg cpu_retire_load_delay
  landed cpu r v h = ground arith

  -- What the instruction after a load finds.
  record Next (cpu : Cpu D G) (r v : ℕ) (next : Cpu D G) : Type 0 where
    current : current_rt_value next r ≡ v
    base : (s : ℕ) → cpu.delay_load_reg ≢ s → cpu.regs 0 ≡ 0 → next.regs s ≡ cpu.regs s
    sr : next.sr ≡ cpu.sr
    ram : next.inter.ram ≡ cpu.inter.ram

  retire-Next :
      (cpu : Cpu D G) (b r v : ℕ) (read : ℕ × Cpu D G)
      → IsRamRead env cpu b read
      → r ≢ 0
      → Next cpu r v (retire env (schedule_load read.1 r v))
  unfolding retire schedule_load current_rt_value cpu_retire_load_delay
  retire-Next cpu b r v read is h = record {
    current = ground arith;
    base = λ s n z. rw is.in_flight (rw is.regs (ground (arith, n, z)));
    sr = is.sr;
    ram = is.ram;
  }

  lwr_form :
      (cpu : Cpu D G) (i a : ℕ)
      → cache_isolated cpu.sr ≡ false
      → effective_address cpu i ≡ a
      → op_lwr env cpu i
        ≡ schedule_load (cpu_load32 env cpu (a - a % 4)).1 (instr_t i) (
            lwr_merge (current_rt_value cpu (instr_t i)) (cpu_load32 env cpu (a - a % 4)).0 (a % 4))
  unfolding op_lwr
  lwr_form cpu i a open_cache e =
      if-false cpu open_cache
      ∙ ap
          (λ x. schedule_load (cpu_load32 env cpu (x - x % 4)).1 (instr_t i) (
            lwr_merge (current_rt_value cpu (instr_t i)) (cpu_load32 env cpu (x - x % 4)).0
              (x % 4)))
          e

  lwl_form :
      (cpu : Cpu D G) (i a : ℕ)
      → cache_isolated cpu.sr ≡ false
      → effective_address cpu i ≡ a
      → op_lwl env cpu i
        ≡ schedule_load (cpu_load32 env cpu (a - a % 4)).1 (instr_t i) (
            lwl_merge (current_rt_value cpu (instr_t i)) (cpu_load32 env cpu (a - a % 4)).0 (a % 4))
  unfolding op_lwl
  lwl_form cpu i a open_cache e =
      if-false cpu open_cache
      ∙ ap
          (λ x. schedule_load (cpu_load32 env cpu (x - x % 4)).1 (instr_t i) (
            lwl_merge (current_rt_value cpu (instr_t i)) (cpu_load32 env cpu (x - x % 4)).0
              (x % 4)))
          e

  current-IsWord : (cpu : Cpu D G) (r : ℕ) → IsWf cpu → IsWord (current_rt_value cpu r)
  unfolding current_rt_value
  current-IsWord cpu r w =
      if-holds IsWord (r != 0 && cpu.delay_load_reg == r) w.delay.1 (w.regs.words r)

  second_address :
      (base offset offset' a : ℕ)
      → add32 base offset ≡ a
      → offset' ≡ add32 offset 3
      → a + 3 < 2 ^ 32
      → add32 base offset' ≡ a + 3
  second_address base offset offset' a e f h = omega (arith, e, f, h)

  ram_end : (a : ℕ) → a < 2 ^ 32 → mask_region a < 0x80_0000 → a + 3 < 2 ^ 32
  unfolding mask_region
  ram_end a h m = ground (arith, h, m)

  -- LWR from an address in RAM and at once LWL from three bytes further, off the same base and
  -- into the same register, which is not R0, leave in it, when both loads have landed, the
  -- little-endian word at that address: in any alignment, whatever the register held and
  -- whatever load to it was in flight. The CPU is well formed, the word does not cross the end
  -- of RAM, the cache is not isolated, no load to the base register is in flight, and the read
  -- watchpoint check leaves RAM alone.
  pub op_lwl-op_lwr :
      (cpu : Cpu D G) (i j : ℕ)
      → ((inter : Interconnect D) (b : ℕ) → (env.check_read_watchpoint inter b 4).ram ≡ inter.ram)
      → IsWf cpu
      → cache_isolated cpu.sr ≡ false
      → instr_t i ≢ 0
      → instr_t j ≡ instr_t i
      → instr_s j ≡ instr_s i
      → instr_imm_se j ≡ add32 (instr_imm_se i) 3
      → cpu.delay_load_reg ≢ instr_s i
      → mask_region (effective_address cpu i) < 0x80_0000
      → mask_region (effective_address cpu i) % ram_size + 4 ≤ ram_size
      → cpu_reg (retire env (retire env (op_lwl env (retire env (op_lwr env cpu i)) j))) (instr_t i)
        ≡ load_le32 cpu.inter.ram (mask_region (effective_address cpu i) % ram_size)
  op_lwl-op_lwr cpu i j quiet w open_cache target same base imm free in_ram room =
      let a = effective_address cpu i in
      let at : Words a = words a in_ram room in
      let old = current_rt_value cpu (instr_t i) in
      let first =
        cpu_load32-IsRamRead env cpu (a - a % 4) (quiet cpu.inter _) (omega arith) at.low_ram in
      let merged = lwr_merge old (cpu_load32 env cpu (a - a % 4)).0 (a % 4) in
      let next = retire env (schedule_load (cpu_load32 env cpu (a - a % 4)).1 (instr_t i) merged) in
      let found = retire-Next cpu (a - a % 4) (instr_t i) merged _ first target in
      let form : retire env (op_lwr env cpu i) ≡ next =
        ap (retire env) (lwr_form cpu i a open_cache refl) in
      let there : effective_address next j ≡ a + 3 =
        ap (λ s. add32 (next.regs s) (instr_imm_se j)) base
        ∙ ap (λ b. add32 b (instr_imm_se j)) (found.base (instr_s i) free w.regs.zero_reg)
        ∙ second_address (cpu.regs (instr_s i)) (instr_imm_se i) (instr_imm_se j) a refl imm
            (ram_end a (omega arith) in_ram) in
      let b = a + 3 - (a + 3) % 4 in
      let second = cpu_load32-IsRamRead env next b (quiet next.inter b) (omega arith) at.high_ram in
      let word = (cpu_load32 env next b).0 in
      ap (λ c. cpu_reg (retire env (retire env (op_lwl env c j))) (instr_t i)) form
      ∙ ap (λ c. cpu_reg (retire env (retire env c)) (instr_t i))
          (lwl_form next j (a + 3) (ap cache_isolated found.sr ∙ open_cache) there)
      ∙ ap
          (λ r.
            cpu_reg
              (retire env (
                retire env (
                  schedule_load (cpu_load32 env next b).1 r
                    (lwl_merge (current_rt_value next r) word ((a + 3) % 4)))))
              (instr_t i))
          same
      ∙ landed (cpu_load32 env next b).1 (instr_t i)
          (lwl_merge (current_rt_value next (instr_t i)) word ((a + 3) % 4)) target
      ∙ ap (λ x. lwl_merge x word ((a + 3) % 4)) found.current
      ∙ assembled cpu.inter.ram a old at first.word
          (second.word ∙ ap (λ m. load_le32 m (mask_region b % ram_size)) found.ram) w.memory.ram
          (current-IsWord cpu (instr_t i) w)
