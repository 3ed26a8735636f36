-- ===== src/Cpu/Timing.antt =====
-- The countdown of the CPU to the next event.
use zonistation_one.Base.{
  Bool-cases, if-true, if-false, sub32, lt_signed, ◌≡◌, refl, ◌⊎◌, inl, inr, true, arith,
}
use zonistation_one.Cpu.Step.{recalculated_downcount, dispatch_events}
use zonistation_one.Machine.{Cpu, Env, Interconnect}

module _ {D G : Type 0} (env : Env D G) where
  downcount_positive :
      (inter : Interconnect D) → lt_signed 0 (recalculated_downcount env inter) ≡ true
  unfolding recalculated_downcount
  downcount_positive inter = ground arith

  downcount_cases :
      (inter : Interconnect D)
      → (recalculated_downcount env inter ≡ 1)
        ⊎ (recalculated_downcount env inter ≡ sub32 inter.evq_next_cycle inter.cpu_cycle_counter)
  unfolding recalculated_downcount
  downcount_cases inter = ground arith

  -- After the events are looked at the downcount is positive, so that the CPU always goes on: it
  -- is what was left of it, or else the distance to the next event, at most 2^31 - 1, or 1.
  pub dispatch_events_lem :
      (cpu : Cpu D G)
      → (lt_signed 0 (dispatch_events env cpu).inter.downcount ≡ true)
        × (((dispatch_events env cpu).inter.downcount ≡ cpu.inter.downcount)
            ⊎ ((dispatch_events env cpu).inter.downcount ≡ 1)
            ⊎ ((dispatch_events env cpu).inter.downcount
                ≡ sub32
                    (dispatch_events env cpu).inter.evq_next_cycle
                    (dispatch_events env cpu).inter.cpu_cycle_counter))
  unfolding dispatch_events
  dispatch_events_lem cpu = elim (Bool-cases (lt_signed 0 cpu.inter.downcount)) [
    | inl e ↦ rw (if-true _ e) (e, inl refl)
    | inr e ↦ rw (if-false cpu e) (
      downcount_positive (env.dispatch_due_events cpu.inter),
      inr (downcount_cases (env.dispatch_due_events cpu.inter)),
    )
  ]
