-- ===== src/Gte/Wf/Flag.antt =====
-- FLAG, over set_flag and gte_update_error_flag of gte_internal.h.
use mathlib.Core.Path.{subst}
use zonistation_one.Base.{
  if◌then◌else◌, Bool-cases, bit, set_bit, ℕ, zero, suc, ◌+◌, ◌-◌, ◌%◌, ◌^◌, ◌≤◌, ◌<◌, ◌≡◌, refl,
  sym, ◌∙◌, inl, inr, true, false, arith,
}
use zonistation_one.Base.Bits.{bit-set_bit}
use zonistation_one.Gte.State.{has_error}

-- FLAG inside a command: bits 11 to 0 are clear, and the error bit stands for a bit that it sums up.
pub record FlagIsMid (f : ℕ) : Type 0 where
  pub word : f < 2 ^ 32
  pub low : f % 2 ^ 12 ≡ 0
  pub error : bit f 31 ≡ true → has_error f ≡ true

-- FLAG between commands: the error bit is the disjunction of the bits it sums up.
pub record FlagIsWf (f : ℕ) : Type 0 where
  pub word : f < 2 ^ 32
  pub low : f % 2 ^ 12 ≡ 0
  pub summary : bit f 31 ≡ has_error f

pub FlagIsWf-FlagIsMid : {f : ℕ} → FlagIsWf f → FlagIsMid f
FlagIsWf-FlagIsMid w = record { word = w.word; low = w.low; error = λ e. sym w.summary ∙ e }

pub zero-FlagIsMid : FlagIsMid 0
zero-FlagIsMid = record { word = omega arith; low = refl; error = λ e. ground (arith, e) }

pub zero-FlagIsWf : FlagIsWf 0
zero-FlagIsWf = record { word = omega arith; low = refl; summary = refl }

-- The bits that a command sets, 12 to 30, one by one.
module _ (f : ℕ) (word : f < 2 ^ 32) (low : f % 2 ^ 12 ≡ 0)
    (error : bit f 31 ≡ true → has_error f ≡ true) where
  abbrev Kept : ℕ → Type 0
  Kept g = g < 2 ^ 32 × g % 2 ^ 12 ≡ 0 × (bit g 31 ≡ true → has_error g ≡ true)

  kept : (j : ℕ) → j < 19 → Kept (set_bit f (12 + j))
  kept zero h = ground arith
  kept (suc zero) h = ground arith
  kept (suc (suc zero)) h = ground arith
  kept (suc (suc (suc zero))) h = ground arith
  kept (suc (suc (suc (suc zero)))) h = ground arith
  kept (suc (suc (suc (suc (suc zero))))) h = ground arith
  kept (suc (suc (suc (suc (suc (suc zero)))))) h = ground arith
  kept (suc (suc (suc (suc (suc (suc (suc zero))))))) h = ground arith
  kept (suc (suc (suc (suc (suc (suc (suc (suc zero)))))))) h = ground arith
  kept (suc (suc (suc (suc (suc (suc (suc (suc (suc zero))))))))) h = ground arith
  kept (suc (suc (suc (suc (suc (suc (suc (suc (suc (suc zero)))))))))) h = ground arith
  kept (suc (suc (suc (suc (suc (suc (suc (suc (suc (suc (suc zero))))))))))) h = ground arith
  kept (suc (suc (suc (suc (suc (suc (suc (suc (suc (suc (suc (suc zero)))))))))))) h = ground arith
  kept (suc (suc (suc (suc (suc (suc (suc (suc (suc (suc (suc (suc (suc zero))))))))))))) h =
      ground arith
  kept (suc (suc (suc (suc (suc (suc (suc (suc (suc (suc (suc (suc (suc (suc zero)))))))))))))) h =
      ground arith
  kept
        (suc
          (suc (suc (suc (suc (suc (suc (suc (suc (suc (suc (suc (suc (suc (suc zero)))))))))))))))
        h =
      ground arith
  kept
        (suc (
          suc (
            suc
              (suc (suc (suc (suc (suc (suc (suc (suc (suc (suc (suc (suc (suc zero))))))))))))))))
        h =
      ground arith
  kept
        (suc (
          suc (
            suc (
              suc (
                suc
                  (suc (suc (suc (suc (suc (suc (suc (suc (suc (suc (suc (suc zero)))))))))))))))))
        h =
      ground arith
  kept
        (suc (
          suc (
            suc (
              suc (
                suc (
                  suc (
                    suc
                      (suc (suc (suc (suc (suc (suc (suc (suc (suc (suc (suc zero))))))))))))))))))
        h =
      ground arith
  kept
        (suc (
          suc (
            suc (
              suc (
                suc (
                  suc (
                    suc (
                      suc
                        (suc (suc (suc (suc (suc (suc (suc (suc (suc (suc (suc j)))))))))))))))))))
        h =
      absurd (omega arith)

pub set_bit-FlagIsMid : {f : ℕ} (k : ℕ) → 12 ≤ k → k < 31 → FlagIsMid f → FlagIsMid (set_bit f k)
set_bit-FlagIsMid {f} k lo hi w =
    let q = kept f w.word w.low w.error (k - 12) (omega arith) in
    let e : 12 + (k - 12) ≡ k = omega arith in
    subst (λ n. FlagIsMid (set_bit f n)) e (record { word = q.0; low = q.1; error = q.2 })

pub error_bit-FlagIsMid : {f : ℕ} → FlagIsMid f → has_error f ≡ true → FlagIsMid (set_bit f 31)
error_bit-FlagIsMid {f} w h = record {
  word = ground (arith, w.word);
  low = ground (arith, w.low);
  error = λ e. ground (arith, w.word, h);
}

-- The last step of every command.
pub summary-FlagIsWf : {f : ℕ} → FlagIsMid f → FlagIsWf (if has_error f then set_bit f 31 else f)
summary-FlagIsWf {f} w = elim (Bool-cases (has_error f)) [
  | inl e ↦ rw e (record {
    word = (error_bit-FlagIsMid w e).word;
    low = (error_bit-FlagIsMid w e).low;
    summary = bit-set_bit f 31 ∙ sym ((error_bit-FlagIsMid w e).error (bit-set_bit f 31));
  })
  | inr e ↦ rw e (record { word = w.word; low = w.low; summary = clear_error w e })
]
  where
    clear_error : {f : ℕ} → FlagIsMid f → has_error f ≡ false → bit f 31 ≡ has_error f
    clear_error {f} w e = ground (arith, w.error, e)

-- A bit of 13 to 18 is among those that the error bit sums up.
set_bit-error : (f j : ℕ) → j < 6 → has_error (set_bit f (13 + j)) ≡ true
set_bit-error f zero h = ground arith
set_bit-error f (suc zero) h = ground arith
set_bit-error f (suc (suc zero)) h = ground arith
set_bit-error f (suc (suc (suc zero))) h = ground arith
set_bit-error f (suc (suc (suc (suc zero)))) h = ground arith
set_bit-error f (suc (suc (suc (suc (suc zero))))) h = ground arith
set_bit-error f (suc (suc (suc (suc (suc (suc j)))))) h = absurd (omega arith)

pub error_pair-FlagIsMid :
    {f : ℕ} (j : ℕ) → j < 6 → FlagIsMid f → FlagIsMid (set_bit (set_bit f (13 + j)) 31)
error_pair-FlagIsMid {f} j h w =
    error_bit-FlagIsMid (set_bit-FlagIsMid (13 + j) (omega arith) (omega arith) w)
      (set_bit-error f j h)
