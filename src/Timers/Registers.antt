-- ===== src/Timers/Registers.antt =====
-- timers.c: the registers, the gate, the events and the first state.
use zonistation_one.Base.{
  ltb, ◌==◌, if◌then◌else◌, to_nat, u16, ◌>>>◌, bit, set_bit, clear_bit, ℕ, ◌+◌, ◌*◌, ◌%◌, ◌^◌,
  Bool, true, false, not, ◌&&◌, ◌||◌,
}
use zonistation_one.Base.Map.{update}
use zonistation_one.Bus.Irq.{interconnect_request_irq}
use zonistation_one.Machine.{Interconnect}
use zonistation_one.Timers.Counter.{timers_catch_up_one, timer_rebase, timers_reschedule}
use zonistation_one.Timers.State.{Timer, System, timer_update_counting_enabled, request_bit}

abbrev pub set_timer : {D : Type 0} → System D → ℕ → Timer × Interconnect D → System D
set_timer sys i r = record { timers = update sys.timers i r.0; inter = r.1 }

-- The flags that a mode word is decoded to; the request bit is raised again at once if the counter
-- stands on an armed boundary.
unfoldable pub decode_mode : Timer → Timer
decode_mode t = record t {
  sync_enable = bit t.mode 0;
  sync_mode = (t.mode >>> 1) % 4;
  reset_on_target = bit t.mode 3;
  irq_on_target = bit t.mode 4;
  irq_on_ffff = bit t.mode 5;
  irq_repeat = bit t.mode 6;
  irq_pulse = bit t.mode 7;
  clock_source = (t.mode >>> 8) % 4;
  reached_target_flag = false;
  reached_ffff_flag = false;
  interrupt_requested = false;
  mode = clear_bit t.mode request_bit;
}

unfoldable pub timer_update_internal_state :
    {D : Type 0} → Timer → Interconnect D → ℕ → Timer × Interconnect D
timer_update_internal_state timer inter timer_index =
    let t = decode_mode timer in
    if t.irq_on_target && t.counter == t.target || t.irq_on_ffff && t.counter == 0xFFFF
    then (
      timer_update_counting_enabled
          (record t { interrupt_requested = true; mode = set_bit t.mode request_bit }) timer_index,
      interconnect_request_irq inter t.irq,
    )
    else (timer_update_counting_enabled t timer_index, inter)

module _ {D : Type 0} (video_rate : D → ℕ → ℕ) where
  abbrev pub rebase_and_reschedule : Timer × Interconnect D → ℕ → Timer × Interconnect D
  rebase_and_reschedule r i = timers_reschedule video_rate (timer_rebase video_rate r.0 r.1 i) r.1 i

  -- What an edge of the gate does to a timer that is synchronised.
  unfoldable pub gate_edge : Timer → ℕ → Bool → Timer
  gate_edge t timer_index state =
      if t.sync_enable
      then timer_update_counting_enabled
          (if t.sync_mode == 1
            then record t { counter = if state then t.counter else 0 }
            else if t.sync_mode == 2
            then record t { counter = if state then 0 else t.counter }
            else if t.sync_mode == 3
            then record t { sync_enable = state }
            else t)
          timer_index
      else t

  unfoldable pub timers_set_gate : System D → ℕ → Bool → System D
  timers_set_gate sys timer_index state =
      let t = sys.timers timer_index in
      if ltb 2 timer_index
      then sys
      else if (if t.gate then state else not state)
      then sys
      else (let (caught, inter) = timers_catch_up_one video_rate t sys.inter timer_index in
          set_timer sys timer_index (
            rebase_and_reschedule
              (gate_edge (record caught { gate = state }) timer_index state, inter) timer_index))

  -- The mode register as it is read: the reached flags are cleared by reading them.
  unfoldable pub mode_word : Timer → ℕ
  mode_word t =
      t.mode % 2 ^ 8
      + (t.mode >>> 13) * 2 ^ 13
      + to_nat (t.reached_target_flag) * 2 ^ 11
      + to_nat (t.reached_ffff_flag) * 2 ^ 12
      + to_nat (t.reached_target_flag && t.irq_on_target || t.reached_ffff_flag && t.irq_on_ffff)
        * 2 ^ 10

  unfoldable pub timer_read16 : System D → ℕ → ℕ → ℕ × System D
  timer_read16 sys timer_index offset =
      let t = sys.timers timer_index in
      if ltb 2 timer_index
      then (0, sys)
      else if offset == 0
      then (let (caught, inter) = timers_catch_up_one video_rate t sys.inter timer_index in
          (caught.counter, set_timer sys timer_index (caught, inter)))
      else if offset == 4
      then (let (caught, inter) = timers_catch_up_one video_rate t sys.inter timer_index in
          (
            mode_word caught,
            set_timer sys timer_index
                (record caught { reached_target_flag = false; reached_ffff_flag = false }, inter),
          ))
      else if offset == 8
      then (t.target, sys)
      else (0, sys)

  unfoldable pub write_mode : Timer → Interconnect D → ℕ → ℕ → Timer × Interconnect D
  write_mode t inter i value =
      rebase_and_reschedule
        (timer_update_internal_state
          (record t {
            mode = clear_bit value request_bit;
            counter = 0;
            interrupt_requested = false;
            reached_target_flag = false;
            reached_ffff_flag = false;
          })
          inter i)
        i

  -- The index is not tested here: the bus gives 0 to 2.
  unfoldable pub timer_write16 : System D → ℕ → ℕ → ℕ → System D
  timer_write16 sys timer_index offset value =
      let (t, inter) =
        timers_catch_up_one video_rate (sys.timers timer_index) sys.inter timer_index in
      set_timer sys timer_index (
        if offset == 4
        then write_mode t inter timer_index value
        else if offset == 0
        then rebase_and_reschedule (record t { counter = value }, inter) timer_index
        else if offset == 8
        then timers_reschedule video_rate (record t { target = value }) inter timer_index
        else (t, inter))

  unfoldable pub timer_read32 : System D → ℕ → ℕ → ℕ × System D
  timer_read32 sys timer_index offset = timer_read16 sys timer_index offset

  unfoldable pub timer_write32 : System D → ℕ → ℕ → ℕ → System D
  timer_write32 sys timer_index offset value = timer_write16 sys timer_index offset (u16 value)

  abbrev pub start_timer : System D → ℕ → System D
  start_timer sys i = set_timer sys i (rebase_and_reschedule (sys.timers i, sys.inter) i)

  unfoldable pub timers_start : System D → System D
  timers_start sys = start_timer (start_timer (start_timer sys 0) 1) 2

  -- The event at a boundary.
  unfoldable pub timer_event_handler : System D → ℕ → System D
  timer_event_handler sys timer_index =
      let (t, inter) =
        timers_catch_up_one video_rate (sys.timers timer_index) sys.inter timer_index in
      set_timer sys timer_index (timers_reschedule video_rate t inter timer_index)

-- One timer of `timers_init`: Timer2 has a default rate of 8, and the lines are 4, 5 and 6.
unfoldable pub init_timer : {D : Type 0} → System D → ℕ → System D
init_timer sys i =
    let (t, inter) =
      timer_update_internal_state (record (sys.timers i) { counter = 0; mode = 0; target = 0 })
        sys.inter i in
    set_timer sys i (
      record t {
        reached_target_flag = false;
        reached_ffff_flag = false;
        interrupt_requested = false;
        rate = if i == 2 then 8 else 1;
        irq = if i == 0 then 4 else if i == 1 then 5 else 6;
        cycle_start = 0;
      },
      inter,
    )

unfoldable pub timers_init : {D : Type 0} → System D → System D
timers_init sys = init_timer (init_timer (init_timer sys 0) 1) 2
