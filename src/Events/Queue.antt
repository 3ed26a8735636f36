-- ===== src/Events/Queue.antt =====
-- src/core/event_scheduler.c: scheduling, dispatch and the anchor of the next event. An event is
-- its number, `evq_pending` a mask of twelve bits. The handlers of the events are a parameter.
use zonistation_one.Base.{
  ◌==◌, if◌then◌else◌, add32, sub32, bit, set_bit, clear_bit, lt_signed, ℕ, zero, suc, Bool, true,
  false, not, ◌&&◌, ◌||◌, Option, none, some, List, [], ◌∷◌,
}
use zonistation_one.Base.Map.{update}
use zonistation_one.Machine.{Interconnect}

abbrev pub evq_events : List ℕ
evq_events = 0 ∷ 1 ∷ 2 ∷ 3 ∷ 4 ∷ 5 ∷ 6 ∷ 7 ∷ 8 ∷ 9 ∷ 10 ∷ 11 ∷ []

abbrev pub uint32_max : ℕ
uint32_max = 0xFFFF_FFFF

abbrev pub int32_max : ℕ
int32_max = 0x7FFF_FFFF

-- The two locals that the scans carry: the target found so far and its distance.
pub record Soonest : Type 0 where
  pub soonest : ℕ
  pub best_delta : ℕ

abbrev pub none_found : Soonest
none_found = record { soonest = uint32_max; best_delta = int32_max }

-- `if (delta > 0 && delta < best_delta)`
unfoldable pub consider : Soonest → ℕ → ℕ → Soonest
consider found target now =
    let delta = sub32 target now in
    if lt_signed 0 delta && lt_signed delta found.best_delta
    then record { soonest = target; best_delta = delta }
    else found

module _ {D : Type 0} where
  -- `cpu->downcount` is cut so that the CPU wakes up at the new anchor.
  unfoldable pub truncate_downcount : Interconnect D → Interconnect D
  truncate_downcount sys =
      let cycles_until = sub32 sys.evq_next_cycle sys.cpu_cycle_counter in
      if lt_signed 0 cycles_until && lt_signed cycles_until sys.downcount
      then record sys { downcount = cycles_until }
      else sys

  unfoldable pub eventq_schedule : Interconnect D → ℕ → ℕ → Interconnect D
  eventq_schedule sys event cycles_from_now =
      let target = add32 sys.cpu_cycle_counter cycles_from_now in
      let placed = record sys {
        evq_pending = set_bit sys.evq_pending event;
        evq_target_cycle = update sys.evq_target_cycle event target;
      } in
      let d_target = sub32 sys.evq_next_cycle target in
      let d_stale = sub32 sys.evq_next_cycle sys.cpu_cycle_counter in
      if lt_signed 0 d_target || not (lt_signed 0 d_stale)
      then truncate_downcount (record placed { evq_next_cycle = target })
      else placed

  -- The scan of `eventq_recompute_next` over the events that are left.
  unfoldable pub gather : Interconnect D → List ℕ → Soonest → Soonest
  gather sys [] found = found
  gather sys (event ∷ events) found = gather sys events (
      if bit sys.evq_pending event
      then consider found (sys.evq_target_cycle event) sys.cpu_cycle_counter
      else found)

  unfoldable pub eventq_recompute_next : Interconnect D → Interconnect D
  eventq_recompute_next sys = record sys {
    evq_next_cycle = (gather sys evq_events none_found).soonest;
  }

  unfoldable pub eventq_cycles_until_next : Interconnect D → ℕ
  eventq_cycles_until_next sys =
      if sys.evq_next_cycle == uint32_max
      then 1
      else if not (lt_signed (sub32 sys.cpu_cycle_counter sys.evq_next_cycle) 0)
      then 0
      else sub32 sys.evq_next_cycle sys.cpu_cycle_counter

-- The locals of one pass of `eventq_dispatch_due`, with the system it works on.
pub record Pass (D : Type 0) : Type 0 where
  pub sys : Interconnect D
  pub any_fired : Bool
  pub found : Soonest

module _ {D : Type 0} (evq_handlers : ℕ → Interconnect D → Interconnect D) where
  unfoldable pub fire : Interconnect D → ℕ → Interconnect D
  fire sys event = evq_handlers event (record sys { evq_pending = clear_bit sys.evq_pending event })

  -- One event of a pass: `pending` and `now` are from before the pass.
  unfoldable pub pass_event : ℕ → ℕ → Pass D → ℕ → Pass D
  pass_event pending now pass event =
      let target = pass.sys.evq_target_cycle event in
      if not (bit pending event)
      then pass
      else if not (lt_signed (sub32 now target) 0)
      then record pass { sys = fire pass.sys event; any_fired = true }
      else record pass { found = consider pass.found target now }

  unfoldable pub pass_events : ℕ → ℕ → List ℕ → Pass D → Pass D
  pass_events pending now [] pass = pass
  pass_events pending now (event ∷ events) pass =
      pass_events pending now events (pass_event pending now pass event)

  unfoldable pub dispatch_pass : Interconnect D → Pass D
  dispatch_pass sys =
      pass_events sys.evq_pending sys.cpu_cycle_counter evq_events
        (record { sys = sys; any_fired = false; found = none_found })

  -- The passes go on until nothing fires; the fuel counts passes.
  unfoldable pub eventq_dispatch_due : ℕ → Interconnect D → Option (Interconnect D)
  eventq_dispatch_due zero sys = none
  eventq_dispatch_due (suc fuel) sys =
      let pass = dispatch_pass sys in
      let rest = eventq_dispatch_due fuel pass.sys in
      if pass.any_fired
      then rest
      else some (record (pass.sys) { evq_next_cycle = pass.found.soonest })
