-- ===== src/Tests/Scheduler.antt =====
-- Runs of src/core/event_scheduler.c on concrete queues.
use zonistation_one.Base.{
  add32, sub32, bit, lt_signed, ℕ, ◌+◌, ◌-◌, ◌^◌, ◌≡◌, refl, true, false, some, arith,
}
use zonistation_one.Events.Anchor.{
  eventq_schedule_lem, dispatch_pass-eventq_recompute_next, eventq_dispatch_due_lem,
}
use zonistation_one.Events.Queue.{
  consider, eventq_schedule, gather, eventq_recompute_next, pass_event, pass_events, dispatch_pass,
  fire, eventq_dispatch_due,
}
use zonistation_one.Machine.{Interconnect}
use zonistation_one.Tests.{bus}

-- An event 60 cycles ahead, with the anchor 500 cycles ahead and 50 cycles to run.
abbrev armed : Interconnect Unit
armed = record bus { evq_next_cycle = 600 }

eventq_schedule_lem_example :
    (lt_signed
        (sub32 (eventq_schedule armed 2 60).evq_next_cycle armed.cpu_cycle_counter)
        (eventq_schedule armed 2 60).downcount
      ≡ false)
    × (lt_signed 60 (sub32 (eventq_schedule armed 2 60).evq_next_cycle armed.cpu_cycle_counter)
        ≡ false)
    × ((eventq_schedule armed 2 60).evq_target_cycle 2 ≡ add32 armed.cpu_cycle_counter 60)
    × (bit (eventq_schedule armed 2 60).evq_pending 2 ≡ true)
eventq_schedule_lem_example =
    eventq_schedule_lem armed 2 60 (omega arith) (omega arith) (omega arith) (omega arith)
      (omega arith) (λ e. refl)

-- Events 1 and 4 are pending, both ahead.
abbrev waiting : Interconnect Unit
waiting = record bus { evq_pending = 18; evq_target_cycle = λ e. 1000 - e }

abbrev handlers : ℕ → Interconnect Unit → Interconnect Unit
handlers event sys = sys

dispatch_pass-eventq_recompute_next_example :
    record ((dispatch_pass handlers waiting).sys) {
      evq_next_cycle = (dispatch_pass handlers waiting).found.soonest;
    }
    ≡ eventq_recompute_next waiting
unfolding dispatch_pass pass_events pass_event consider
dispatch_pass-eventq_recompute_next_example =
    dispatch_pass-eventq_recompute_next handlers waiting refl

waiting_anchor : (eventq_recompute_next waiting).evq_next_cycle ≡ 996
unfolding eventq_recompute_next gather consider
waiting_anchor = refl

-- Event 3 is due and its handler schedules it again.
abbrev rearm : ℕ → Interconnect Unit → Interconnect Unit
rearm event sys = record sys {
  evq_pending = sys.evq_pending + 2 ^ event;
  evq_target_cycle = λ e. 700;
}

abbrev overdue : Interconnect Unit
overdue = record bus { evq_pending = 8; evq_target_cycle = λ e. 90 }

eventq_dispatch_due_lem_example :
    eventq_dispatch_due rearm 5 overdue
    ≡ some (eventq_recompute_next (dispatch_pass rearm overdue).sys)
unfolding dispatch_pass pass_events pass_event fire
eventq_dispatch_due_lem_example =
    eventq_dispatch_due_lem rearm overdue
      (
        refl,
        (refl, (refl, (refl, (refl, (refl, (refl, (refl, (refl, (refl, (refl, (refl, tt))))))))))),
      )
      3

overdue_anchor : (dispatch_pass rearm overdue).any_fired ≡ true
unfolding dispatch_pass pass_events pass_event fire
overdue_anchor = refl
