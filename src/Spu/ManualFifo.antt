-- ===== src/Spu/ManualFifo.antt =====
-- The FIFO of the manual transfer of src/spu/spu_dma.c against a list.
use mathlib.Core.List.{append-nil, append_assoc}
use mathlib.Core.Path.{subst}
use zonistation_one.Base.{
  leb, ◌==◌, ◌!=◌, if◌then◌else◌, if-true, if-false, take, bit, ℕ, zero, suc, ◌+◌, ◌*◌, ◌/◌, ◌≤◌,
  ◌≡◌, refl, sym, ap, ◌∙◌, Bool, true, false, not, ◌&&◌, List, [], ◌∷◌, ◌++◌, arith,
}
use zonistation_one.Base.Map.{update}
use zonistation_one.Spu.Transfer.{
  spu_manual_fifo_push, spu_manual_fifo_flush, wrapped_addr, on_spu, transfer_mode, store_halfword,
  spu_transfer_write, flush_from, set_addr_reg, advance_addr,
}
use zonistation_one.Spu.Trap.{SpuOnBus, spu_check_irq, spu_raise_irq9}

-- The halfwords of an array from index `i` on.
abbrev pub queued : (ℕ → ℕ) → ℕ → ℕ → List ℕ
queued f i zero = []
queued f i (suc k) = f i ∷ queued f (suc i) k

update_next : (f : ℕ → ℕ) (i k v : ℕ) → update f (i + suc k) v i ≡ f i
update_next f i k v = ground arith

queued-update :
    (f : ℕ → ℕ) (i k v : ℕ) → queued (update f (i + k) v) i (suc k) ≡ (queued f i k ++ v ∷ [])
queued-update f i zero v = ap (λ x. x ∷ []) (ground arith)
queued-update f i (suc k) v =
    let shifted : (i + suc k) ≡ (suc i + k) = omega arith in
    ap (λ x. x ∷ queued (update f (i + suc k) v) (suc i) (suc k)) (update_next f i k v)
    ∙ ap (λ j. f i ∷ queued (update f j v) (suc i) (suc k)) shifted
    ∙ ap (λ xs. f i ∷ xs) (queued-update f (suc i) k v)

module _ {D : Type 0} where
  abbrev pub with_queue : SpuOnBus D → (ℕ → ℕ) → ℕ → SpuOnBus D
  with_queue s f n = on_spu (λ spu. record spu { manual_fifo = f; manual_fifo_count = n }) s

  abbrev pub push_all : SpuOnBus D → List ℕ → SpuOnBus D
  push_all s [] = s
  push_all s (v ∷ vs) = push_all (spu_manual_fifo_push s v) vs

  abbrev pub write_all : SpuOnBus D → List ℕ → SpuOnBus D
  write_all s [] = s
  write_all s (v ∷ vs) = write_all (spu_transfer_write s v) vs

  if-with_queue :
      (b : Bool) (x y : SpuOnBus D) (f : ℕ → ℕ) (n : ℕ)
      → (if b then with_queue x f n else with_queue y f n) ≡ with_queue (if b then x else y) f n
  if-with_queue true x y f n = refl
  if-with_queue false x y f n = refl

  Kept : (f : ℕ → ℕ) (n : ℕ) → Bool × SpuOnBus D → Bool × SpuOnBus D → Type 0
  Kept f n r t = r.1 ≡ with_queue t.1 f n

  if-Kept :
      (b : Bool) (f : ℕ → ℕ) (n : ℕ) (r r' t t' : Bool × SpuOnBus D)
      → Kept f n r t
      → Kept f n r' t'
      → Kept f n (if b then r else r') (if b then t else t')
  if-Kept true f n r r' t t' p q = p
  if-Kept false f n r r' t t' p q = q

  check-with_queue :
      (s : SpuOnBus D) (f : ℕ → ℕ) (n address : ℕ)
      → (spu_check_irq (with_queue s f n) address).1 ≡ with_queue (spu_check_irq s address).1 f n
  unfolding spu_check_irq Kept
  check-with_queue s f n address =
      let q = with_queue s f n in
      if-Kept (not (bit s.spu.control 6)) f n (false, q)
        (if s.spu.irq9_flag
          then (false, q)
          else if not (s.spu.irq_addr * 8 == address)
          then (false, q)
          else (true, spu_raise_irq9 q))
        (false, s)
        (if s.spu.irq9_flag
          then (false, s)
          else if not (s.spu.irq_addr * 8 == address)
          then (false, s)
          else (true, spu_raise_irq9 s))
        refl
        (if-Kept s.spu.irq9_flag f n (false, q)
          (if not (s.spu.irq_addr * 8 == address) then (false, q) else (true, spu_raise_irq9 q))
          (false, s)
          (if not (s.spu.irq_addr * 8 == address) then (false, s) else (true, spu_raise_irq9 s))
          refl
          (if-Kept (not (s.spu.irq_addr * 8 == address)) f n (false, q) (true, spu_raise_irq9 q)
            (false, s) (true, spu_raise_irq9 s) refl refl))

  store-with_queue :
      (s : SpuOnBus D) (f : ℕ → ℕ) (n v : ℕ)
      → store_halfword (with_queue s f n) v ≡ with_queue (store_halfword s v) f n
  unfolding store_halfword
  store-with_queue s f n v =
      let addr = wrapped_addr s.spu.transfer_addr in
      let stored =
        on_spu (λ spu. record spu { ram = update spu.ram (addr / 2) v; transfer_addr = addr }) s in
      ap advance_addr (check-with_queue stored f n addr)

  write-with_queue :
      (s : SpuOnBus D) (f : ℕ → ℕ) (n v : ℕ)
      → spu_transfer_write (with_queue s f n) v ≡ with_queue (spu_transfer_write s v) f n
  unfolding spu_transfer_write
  write-with_queue s f n v =
      ap
        (λ t.
          if transfer_mode s.spu != 1 && transfer_mode s.spu != 2
          then with_queue s f n
          else on_spu set_addr_reg t)
        (store-with_queue s f n v)
      ∙ if-with_queue (transfer_mode s.spu != 1 && transfer_mode s.spu != 2) s
          (on_spu set_addr_reg (store_halfword s v)) f n

  flush_from-queued :
      (s : SpuOnBus D) (f : ℕ → ℕ) (n i k : ℕ)
      → flush_from (with_queue s f n) i k ≡ with_queue (write_all s (queued f i k)) f n
  unfolding flush_from
  flush_from-queued s f n i zero = refl
  flush_from-queued s f n i (suc k) =
      ap (λ t. flush_from t (suc i) k) (write-with_queue s f n (f i))
      ∙ flush_from-queued (spu_transfer_write s (f i)) f n (suc i) k

  full_push :
      (s : SpuOnBus D) (f : ℕ → ℕ) (n v : ℕ)
      → leb 32 n ≡ true
      → spu_manual_fifo_push (with_queue s f n) v ≡ with_queue s f n
  unfolding spu_manual_fifo_push
  full_push s f n v e = if-true {x = with_queue s f n} (with_queue s (update f n v) (suc n)) e

  full-push_all :
      (s : SpuOnBus D) (f : ℕ → ℕ) (n : ℕ) (vs : List ℕ)
      → leb 32 n ≡ true
      → push_all (with_queue s f n) vs ≡ with_queue s f n
  full-push_all s f n [] e = refl
  full-push_all s f n (v ∷ vs) e =
      ap (λ t. push_all t vs) (full_push s f n v e) ∙ full-push_all s f n vs e

  push-with_queue :
      (s : SpuOnBus D) (f : ℕ → ℕ) (n v : ℕ)
      → leb 32 n ≡ false
      → spu_manual_fifo_push (with_queue s f n) v ≡ with_queue s (update f n v) (suc n)
  unfolding spu_manual_fifo_push
  push-with_queue s f n v e =
      if-false (with_queue s f n) {y = with_queue s (update f n v) (suc n)} e

  -- After the pushes the FIFO holds what it held and the halfwords that fit behind it.
  record Holds (s t : SpuOnBus D) (expected : List ℕ) : Type 0 where
    holds : queued t.spu.manual_fifo 0 t.spu.manual_fifo_count ≡ expected
    fits : t.spu.manual_fifo_count ≤ 32
    same : t ≡ with_queue s t.spu.manual_fifo t.spu.manual_fifo_count

  push_all-Holds :
      (s : SpuOnBus D) (f : ℕ → ℕ) (n room : ℕ) (vs : List ℕ)
      → n + room ≡ 32
      → Holds s (push_all (with_queue s f n) vs) (queued f 0 n ++ take room vs)
  push_all-Holds s f n zero vs e =
      subst (λ t. Holds s t (queued f 0 n ++ [])) (sym (full-push_all s f n vs (ground (arith, e))))
        (record { holds = sym (append-nil (queued f 0 n)); fits = omega (arith, e); same = refl })
  push_all-Holds s f n (suc room) [] e = record {
    holds = sym (append-nil (queued f 0 n));
    fits = omega (arith, e);
    same = refl;
  }
  push_all-Holds s f n (suc room) (v ∷ vs) e =
      let from_zero : n ≡ 0 + n = omega arith in
      subst (λ t. Holds s (push_all t vs) (queued f 0 n ++ v ∷ take room vs))
        (sym (push-with_queue s f n v (ground (arith, e))))
        (subst (λ xs. Holds s (push_all (with_queue s (update f n v) (suc n)) vs) xs)
          (ap (λ j. queued (update f j v) 0 (suc n) ++ take room vs) from_zero
            ∙ ap (λ xs. xs ++ take room vs) (queued-update f 0 n v)
            ∙ append_assoc (queued f 0 n) (v ∷ []) (take room vs))
          (push_all-Holds s (update f n v) (suc n) room vs (omega (arith, e))))

  flushed :
      (s t : SpuOnBus D) (vs : List ℕ)
      → Holds s t vs
      → spu_manual_fifo_flush t ≡ with_queue (write_all s vs) t.spu.manual_fifo 0
  unfolding spu_manual_fifo_flush
  flushed s t vs h =
      let n = t.spu.manual_fifo_count in
      let f = t.spu.manual_fifo in
      ap (λ k. flush_from (with_queue t f 0) 0 k) (ground (arith, h.fits))
      ∙ ap (λ x. flush_from (with_queue x f 0) 0 n) h.same
      ∙ flush_from-queued s f 0 0 n
      ∙ ap (λ xs. with_queue (write_all s xs) f 0) h.holds

  -- Halfwords pushed while the FIFO is empty and flushed later leave the SPU and the interconnect
  -- as writing the first 32 of them one by one does, apart from the array of the FIFO, and its
  -- count is 0.
  pub spu_manual_fifo_flush-spu_manual_fifo_push :
      (s : SpuOnBus D) (values : List ℕ)
      → s.spu.manual_fifo_count ≡ 0
      → spu_manual_fifo_flush (push_all s values)
        ≡ with_queue (write_all s (take 32 values)) (push_all s values).spu.manual_fifo 0
  spu_manual_fifo_flush-spu_manual_fifo_push s values e =
      flushed s (push_all s values) (take 32 values) (
        subst (λ n. Holds s (push_all (with_queue s s.spu.manual_fifo n) values) (take 32 values))
          (sym e) (push_all-Holds s s.spu.manual_fifo 0 32 values refl))
