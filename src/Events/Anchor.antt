-- ===== src/Events/Anchor.antt =====
-- The anchor of the next event: what a pass gathers against its recomputation, and what
-- scheduling an event does to it and to the downcount.
use zonistation_one.Base.{
  if◌then◌else◌, Bool-cases, if-true, if-false, All, add32, sub32, bit, lt_signed, ℕ, suc, ◌^◌, ◌<◌,
  ◌≡◌, refl, sym, ap, ◌∙◌, inl, inr, Bool, true, false, not, ◌&&◌, some, List, [], ◌∷◌, arith,
}
use zonistation_one.Base.Bits.{bit-set_bit}
use zonistation_one.Events.Queue.{
  evq_events, Soonest, none_found, consider, truncate_downcount, eventq_schedule, gather,
  eventq_recompute_next, pass_event, pass_events, dispatch_pass, Pass, fire, eventq_dispatch_due,
}
use zonistation_one.Machine.{Interconnect}
use zonistation_one.Timers.Counter.{armed}

module _ {D : Type 0} where
  -- While the anchor lies ahead, the downcount does not reach beyond it. Scheduling an event less
  -- than 2^31 cycles ahead keeps this, and the new anchor lies no later than the event.
  pub eventq_schedule_lem :
      (sys : Interconnect D) (event cycles : ℕ)
      → sys.cpu_cycle_counter < 2 ^ 32
      → sys.evq_next_cycle < 2 ^ 32
      → sys.downcount < 2 ^ 32
      → 0 < cycles
      → cycles < 2 ^ 31
      → (lt_signed 0 (sub32 sys.evq_next_cycle sys.cpu_cycle_counter) ≡ true
          → lt_signed (sub32 sys.evq_next_cycle sys.cpu_cycle_counter) sys.downcount ≡ false)
      → (lt_signed
            (sub32 (eventq_schedule sys event cycles).evq_next_cycle sys.cpu_cycle_counter)
            (eventq_schedule sys event cycles).downcount
          ≡ false)
        × (lt_signed cycles
              (sub32 (eventq_schedule sys event cycles).evq_next_cycle sys.cpu_cycle_counter)
            ≡ false)
        × ((eventq_schedule sys event cycles).evq_target_cycle event
            ≡ add32 sys.cpu_cycle_counter cycles)
        × (bit (eventq_schedule sys event cycles).evq_pending event ≡ true)
  unfolding eventq_schedule truncate_downcount
  eventq_schedule_lem sys event cycles hn hx hd lo hi armed =
      (ground arith, ground arith, ground arith, ground (arith, bit-set_bit sys.evq_pending event))

-- Pending, with a target that is not ahead.
abbrev pub is_due : {D : Type 0} → Interconnect D → ℕ → Bool
is_due sys event =
    bit sys.evq_pending event
    && not (lt_signed (sub32 sys.cpu_cycle_counter (sys.evq_target_cycle event)) 0)

module _ {D : Type 0} (evq_handlers : ℕ → Interconnect D → Interconnect D) where
  event_fired :
      (absent due : Bool) (pass : Pass D) (sys' : Interconnect D) (found' : Soonest)
      → pass.any_fired ≡ true
      → (if absent
          then pass
          else if due
          then record pass { sys = sys'; any_fired = true }
          else record pass { found = found' }).any_fired
        ≡ true
  event_fired true due pass sys' found' e = e
  event_fired false true pass sys' found' e = refl
  event_fired false false pass sys' found' e = e

  -- Once an event has fired in a pass, the pass says so.
  fired_stays :
      (pending now : ℕ) (events : List ℕ) (pass : Pass D)
      → pass.any_fired ≡ true
      → (pass_events evq_handlers pending now events pass).any_fired ≡ true
  unfolding pass_events pass_event
  fired_stays pending now [] pass e = e
  fired_stays pending now (event ∷ events) pass e =
      fired_stays pending now events (pass_event evq_handlers pending now pass event) (
        event_fired (not (bit pending event))
          (not (lt_signed (sub32 now (pass.sys.evq_target_cycle event)) 0)) pass
          (fire evq_handlers pass.sys event)
          (consider pass.found (pass.sys.evq_target_cycle event) now) e)

  -- A pass that has fired nothing yet, and its end after the events that are left.
  quiet : Interconnect D → Soonest → Pass D
  quiet sys found = record { sys = sys; any_fired = false; found = found }

  finish : Interconnect D → List ℕ → Pass D → Pass D
  finish sys events pass =
      pass_events evq_handlers sys.evq_pending sys.cpu_cycle_counter events pass

  step : Interconnect D → Soonest → ℕ → Pass D
  step sys found event =
      pass_event evq_handlers sys.evq_pending sys.cpu_cycle_counter (quiet sys found) event

  nearer : Interconnect D → Soonest → ℕ → Soonest
  nearer sys found event = consider found (sys.evq_target_cycle event) sys.cpu_cycle_counter

  -- An event that is not due adds its target to what is gathered, if it is pending.
  step_not_due :
      (sys : Interconnect D) (found : Soonest) (event : ℕ)
      → is_due sys event ≡ false
      → step sys found event
        ≡ quiet sys (if bit sys.evq_pending event then nearer sys found event else found)
  unfolding pass_event quiet step nearer
  step_not_due sys found event early =
      let late = lt_signed (sub32 sys.cpu_cycle_counter (sys.evq_target_cycle event)) 0 in
      elim (Bool-cases (bit sys.evq_pending event)) [
        | inl e ↦
            let ahead : late ≡ true = ground (arith, early, e) in
            if-false (quiet sys found) (ap not e)
            ∙ if-false
                (record (quiet sys found) { sys = fire evq_handlers sys event; any_fired = true })
                (ap not ahead)
            ∙ ap (quiet sys) (sym (if-true found e))
        | inr e ↦ if-true _ (ap not e) ∙ ap (quiet sys) (sym (if-false (nearer sys found event) e))
      ]

  step_due :
      (sys : Interconnect D) (found : Soonest) (event : ℕ)
      → is_due sys event ≡ true
      → (step sys found event).any_fired ≡ true
  unfolding pass_event quiet step nearer
  step_due sys found event due =
      let ran = record (quiet sys found) { sys = fire evq_handlers sys event; any_fired = true } in
      let here : bit sys.evq_pending event ≡ true = ground (arith, due) in
      let late : lt_signed (sub32 sys.cpu_cycle_counter (sys.evq_target_cycle event)) 0 ≡ false =
        ground (arith, due) in
      ap (λ (p : Pass D). p.any_fired)
        (if-false (quiet sys found) (ap not here)
          ∙ if-true (record (quiet sys found) { found = nearer sys found event }) (ap not late))

  quiet_events :
      (events : List ℕ) (sys : Interconnect D) (found : Soonest)
      → (finish sys events (quiet sys found)).any_fired ≡ false
      → finish sys events (quiet sys found) ≡ quiet sys (gather sys events found)
  unfolding pass_events gather finish step nearer
  quiet_events [] sys found h = refl
  quiet_events (event ∷ events) sys found h = elim (Bool-cases (is_due sys event)) [
    | inl due ↦
        let both : true ≡ false =
          sym (
            fired_stays sys.evq_pending sys.cpu_cycle_counter events (step sys found event)
              (step_due sys found event due))
          ∙ h in
        absurd (ground (arith, both))
    | inr early ↦
        let e = step_not_due sys found event early in
        ap (finish sys events) e
        ∙ quiet_events events sys _
            (ap (λ (p : Pass D). (finish sys events p).any_fired) (sym e) ∙ h)
  ]

  settled_events :
      (events : List ℕ) (sys : Interconnect D) (found : Soonest)
      → All (λ event. is_due sys event ≡ false) events
      → finish sys events (quiet sys found) ≡ quiet sys (gather sys events found)
  unfolding pass_events gather finish step nearer
  settled_events [] sys found early = refl
  settled_events (event ∷ events) sys found early =
      ap (finish sys events) (step_not_due sys found event early.0)
      ∙ settled_events events sys _ early.1

  quiet_pass :
      (sys : Interconnect D)
      → (dispatch_pass evq_handlers sys).any_fired ≡ false
      → dispatch_pass evq_handlers sys ≡ quiet sys (gather sys evq_events none_found)
  unfolding dispatch_pass finish quiet
  quiet_pass sys h = quiet_events evq_events sys none_found h

  -- In a pass in which nothing fires, the target gathered on the way is the anchor that
  -- `eventq_recompute_next` would compute, and the pass has changed nothing else.
  pub dispatch_pass-eventq_recompute_next :
      (sys : Interconnect D)
      → (dispatch_pass evq_handlers sys).any_fired ≡ false
      → record ((dispatch_pass evq_handlers sys).sys) {
        evq_next_cycle = (dispatch_pass evq_handlers sys).found.soonest;
      }
        ≡ eventq_recompute_next sys
  unfolding eventq_recompute_next quiet
  dispatch_pass-eventq_recompute_next sys h =
      ap (λ (p : Pass D). record (p.sys) { evq_next_cycle = p.found.soonest }) (quiet_pass sys h)

  dispatch_settled :
      (sys : Interconnect D)
      → All (λ event. is_due sys event ≡ false) evq_events
      → (fuel : ℕ)
      → eventq_dispatch_due evq_handlers (suc fuel) sys ≡ some (eventq_recompute_next sys)
  unfolding eventq_dispatch_due dispatch_pass eventq_recompute_next finish quiet
  dispatch_settled sys early fuel =
      let e = settled_events evq_events sys none_found early in
      let rest = λ (p : Pass D). eventq_dispatch_due evq_handlers fuel p.sys in
      ap
        (λ (p : Pass D).
          if p.any_fired
          then rest p
          else some (record (p.sys) { evq_next_cycle = p.found.soonest }))
        e

  -- If the handlers of a pass leave no event due (each schedules only what lies ahead), dispatch
  -- ends: two passes are enough, and it leaves the anchor that `eventq_recompute_next` computes.
  pub eventq_dispatch_due_lem :
      (sys : Interconnect D)
      → All (λ event. is_due (dispatch_pass evq_handlers sys).sys event ≡ false) evq_events
      → (fuel : ℕ)
      → eventq_dispatch_due evq_handlers (suc (suc fuel)) sys
        ≡ some (eventq_recompute_next (dispatch_pass evq_handlers sys).sys)
  unfolding eventq_dispatch_due quiet
  eventq_dispatch_due_lem sys early fuel =
      let pass = dispatch_pass evq_handlers sys in
      let rest = eventq_dispatch_due evq_handlers (suc fuel) pass.sys in
      let last = dispatch_settled pass.sys early fuel in
      elim (Bool-cases pass.any_fired) [
        | inl e ↦
            if-true (some (record (pass.sys) { evq_next_cycle = pass.found.soonest })) e ∙ last
        | inr e ↦
            if-false rest e
            ∙ ap some (
                dispatch_pass-eventq_recompute_next sys e
                ∙ ap (λ (p : Pass D). eventq_recompute_next p.sys) (sym (quiet_pass sys e)))
      ]
