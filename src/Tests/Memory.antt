-- ===== src/Tests/Memory.antt =====
-- Runs of src/core/bus.c and bus_irq.c on the concrete machine.
use zonistation_one.Base.{bit, ◌≡◌, refl, true, not, ◌&&◌, ◌||◌, arith}
use zonistation_one.Bus.Access.{
  interconnect_load32, interconnect_load16, interconnect_load8, cpu_load32, cpu_load16, cpu_load8,
  mask_region, interconnect_store32,
}
use zonistation_one.Bus.FastPath.{cpu_load-interconnect_load}
use zonistation_one.Bus.Irq.{interconnect_set_irq_line}
use zonistation_one.Bus.IrqEdges.{interconnect_set_irq_line_lem}
use zonistation_one.Bus.RoundTrip.{interconnect_load32-interconnect_store32}
use zonistation_one.Tests.{quiet_devices, bus, machine}

cpu_load-interconnect_load_example :
    (cpu_load32 quiet_devices machine 0x8000_0104
      ≡ interconnect_load32 quiet_devices machine 0x8000_0104)
    × (cpu_load16 quiet_devices machine 0x8000_0104
        ≡ interconnect_load16 quiet_devices machine 0x8000_0104)
    × (cpu_load8 quiet_devices machine 0x8000_0104
        ≡ interconnect_load8 quiet_devices machine 0x8000_0104)
cpu_load-interconnect_load_example =
    cpu_load-interconnect_load quiet_devices machine 0x8000_0104 (λ size e. refl)

interconnect_set_irq_line_lem_example :
    (bit (interconnect_set_irq_line bus 3 true).irq_status 3
      ≡ (bit bus.irq_status 3 || not (bit bus.irq_line_state 3) && true))
    × (bit (interconnect_set_irq_line bus 3 true).irq_line_state 3 ≡ true)
    × ((interconnect_set_irq_line bus 3 true).irq_mask ≡ bus.irq_mask)
interconnect_set_irq_line_lem_example = interconnect_set_irq_line_lem bus 3 true (omega arith)

-- Stored through KSEG1 into the second mirror, loaded through KSEG0 from the first.
interconnect_load32-interconnect_store32_example :
    (interconnect_load32 quiet_devices
      (interconnect_store32 quiet_devices machine 0xA020_0100 0x1234_5678)
      0x8000_0100).0
    ≡ 0x1234_5678
unfolding mask_region
interconnect_load32-interconnect_store32_example =
    interconnect_load32-interconnect_store32 quiet_devices machine 0xA020_0100 0x8000_0100
      0x1234_5678 (λ inter. refl) refl refl (omega arith) (omega arith) refl (omega arith)
