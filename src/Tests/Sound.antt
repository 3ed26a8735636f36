-- ===== src/Tests/Sound.antt =====
-- A sample of src/spu/spu_adsr.c on a concrete voice.
-- Exponential decay from three quarters of the range, at the fastest rate.
use zonistation_one.Base.{take, ℕ, ◌+◌, ◌%◌, ◌<◌, ◌≡◌, refl, ◌↔◌, true, false, List, [], ◌∷◌, arith}
use zonistation_one.Base.Int.{◌+ℤ◌, ◌*ℤ◌, pos}
use zonistation_one.Spu.Adsr.{
  AdsrState, SpuVoice, adsr_denominator, adsr_numerator_dec, exponential_fall, adsr_decay,
  mix_phase, spu_adsr_mix,
}
use zonistation_one.Spu.Envelope.{InRange, spu_adsr_mix_lem}
use zonistation_one.Spu.ManualFifo.{
  with_queue, push_all, write_all, spu_manual_fifo_flush-spu_manual_fifo_push,
}
use zonistation_one.Spu.RoundTrip.{spu_dma_read_halfwords-spu_dma_write_halfwords}
use zonistation_one.Spu.Transfer.{
  on_spu, spu_dma_write_halfwords, spu_dma_read_halfwords, spu_manual_fifo_flush,
}
use zonistation_one.Spu.Trap.{SpuOnBus, spu_ram_size, spu_check_irq, spu_check_irq_range}
use zonistation_one.Spu.Window.{spu_check_irq_range-spu_check_irq}
use zonistation_one.Tests.{bus}

abbrev fading : SpuVoice
fading = record {
  on = true;
  attack_rate = 0;
  attack_mode_exp = false;
  decay_rate = 0;
  sustain_level = 2;
  sustain_rate = 0;
  sustain_increase = false;
  sustain_mode_exp = true;
  release_rate = 0;
  release_mode_exp = true;
  adsr_state = AdsrState.decay;
  envelope_vol = pos 24576;
  envelope_vol_f = 0;
  adsr_volume = 24576;
}

spu_adsr_mix_lem_example :
    InRange (spu_adsr_mix fading).0 × InRange (spu_adsr_mix fading).1.envelope_vol
spu_adsr_mix_lem_example =
    spu_adsr_mix_lem fading (record { below = omega arith; nonnegative = refl })

-- 24576 falls by half in one sample: the numerator is -16384.
first_sample : (spu_adsr_mix fading).0 ≡ pos 12288
unfolding spu_adsr_mix mix_phase adsr_decay exponential_fall adsr_denominator adsr_numerator_dec
    ◌+ℤ◌ ◌*ℤ◌
first_sample = refl

-- Manual Write with the interrupt enabled; the second halfword goes to the trapped address.
abbrev port : SpuOnBus Unit
port = record {
  spu = record {
    ram = λ i. 0;
    control = 0x50;
    status = 0;
    transfer_addr_reg = 1;
    transfer_addr = 14;
    irq_addr = 2;
    irq9_flag = false;
    manual_fifo = λ i. 0;
    manual_fifo_count = 0;
  };
  inter = bus;
}

abbrev halfwords : List ℕ
halfwords = 0x1234 ∷ 0x5678 ∷ 0x9abc ∷ []

spu_manual_fifo_flush-spu_manual_fifo_push_example :
    spu_manual_fifo_flush (push_all port halfwords)
    ≡ with_queue (write_all port (take 32 halfwords)) (push_all port halfwords).spu.manual_fifo 0
spu_manual_fifo_flush-spu_manual_fifo_push_example =
    spu_manual_fifo_flush-spu_manual_fifo_push port halfwords refl

-- A block of 32 bytes that wraps and reads the trapped address.
spu_check_irq_range-spu_check_irq_example :
    (spu_check_irq_range port 0x7_fff8 32).0 ≡ true
    ↔ ((k : ℕ) × (k < 32) × ((spu_check_irq port ((0x7_fff8 + k) % spu_ram_size)).0 ≡ true))
spu_check_irq_range-spu_check_irq_example =
    spu_check_irq_range-spu_check_irq port 0x7_fff8 32 (omega arith)

-- A transfer of three halfwords that traps on its second one.
spu_dma_read_halfwords-spu_dma_write_halfwords_example :
    (spu_dma_read_halfwords
      (on_spu (λ spu. record spu { transfer_addr = 14 }) (spu_dma_write_halfwords port halfwords))
      3).0
    ≡ halfwords
spu_dma_read_halfwords-spu_dma_write_halfwords_example =
    spu_dma_read_halfwords-spu_dma_write_halfwords port halfwords (omega arith) (omega arith)
      (omega arith)
