-- ===== src/Cpu/CacheHit.antt =====
-- The instruction cache of src/cpu/cpu_icache.c: what a fetch leaves in it.
use zonistation_one.Base.{
  ltb, leb, ◌==◌, if◌then◌else◌, Bool-cases, if-true, if-false, if-same, ◌>>>◌, ℕ, zero, suc, ◌+◌,
  ◌-◌, ◌*◌, ◌%◌, ◌<◌, ◌≡◌, refl, sym, ap, ◌∙◌, ◌≢◌, inl, inr, Bool, true, false, not, ◌&&◌, ◌||◌,
  arith,
}
use zonistation_one.Base.Map.{update, update_self, update_ne}
use zonistation_one.Bus.Access.{mask_region}
use zonistation_one.Cpu.ICache.{
  line_index, word_index, charge_bios_rom_cycles, set_line, fetch_word, fill_line, cache_miss,
  cpu_icache_fetch, bios_rom_phys_start, bios_rom_phys_end, invalidate_below,
}
use zonistation_one.Machine.{ICacheLine, Cpu, Env}

module _ {D G : Type 0} (env : Env D G) where
  -- Filling the words from `j` on leaves the words below `j`, and the tag.
  fill_line-below :
      (left j start k : ℕ) (cpu : Cpu D G) (line : ICacheLine)
      → k < j
      → ((fill_line env left j start cpu line).1.tag ≡ line.tag)
        × ((fill_line env left j start cpu line).1.valid k ≡ line.valid k)
        × ((fill_line env left j start cpu line).1.words k ≡ line.words k)
  unfolding fill_line
  fill_line-below zero j start k cpu line lt = (refl, refl, refl)
  fill_line-below (suc left) j start k cpu line lt =
      let fetched = fetch_word env cpu (start + j * 4) in
      let line' = record line {
        words = update line.words j fetched.0;
        valid = update line.valid j true;
      } in
      let rest = fill_line-below left (j + 1) start k fetched.1 line' (omega arith) in
      let ne : k ≢ j = omega arith in
      (
        rest.0,
        rest.1 ∙ update_ne line.valid j k true ne,
        rest.2 ∙ update_ne line.words j k fetched.0 ne,
      )

  fill_line-first :
      (left j start : ℕ) (cpu : Cpu D G) (line : ICacheLine)
      → ((fill_line env (suc left) j start cpu line).1.tag ≡ line.tag)
        × ((fill_line env (suc left) j start cpu line).1.valid j ≡ true)
  unfolding fill_line
  fill_line-first left j start cpu line =
      let fetched = fetch_word env cpu (start + j * 4) in
      let line' = record line {
        words = update line.words j fetched.0;
        valid = update line.valid j true;
      } in
      let rest = fill_line-below left (j + 1) start j fetched.1 line' (omega arith) in
      (rest.0, rest.1 ∙ update_self line.valid j true)

  charge-icache :
      (cpu : Cpu D G) (paddr words : ℕ) (count : Bool)
      → (charge_bios_rom_cycles cpu paddr words count).icache ≡ cpu.icache
  unfolding charge_bios_rom_cycles
  charge-icache cpu paddr words count =
      if-same (λ (c : Cpu D G). c.icache)
        (not count || ltb paddr bios_rom_phys_start || leb bios_rom_phys_end paddr) refl refl

  is_hit : Cpu D G → ℕ → Bool
  is_hit cpu paddr =
      let line = cpu.icache (line_index paddr) in
      line.tag == paddr >>> 12 && line.valid (word_index paddr)

  hit_word : Cpu D G → ℕ → ℕ
  hit_word cpu paddr = (cpu.icache (line_index paddr)).words (word_index paddr)

  -- The line that a miss starts from, and the fill.
  emptied : Cpu D G → ℕ → ICacheLine
  emptied cpu paddr =
      let line = cpu.icache (line_index paddr) in
      record line { tag = paddr >>> 12; valid = invalidate_below (word_index paddr) line.valid }

  filled : Cpu D G → ℕ → ℕ → Cpu D G × ICacheLine
  filled cpu paddr left =
      fill_line env left (word_index paddr) (paddr - paddr % 16) cpu (emptied cpu paddr)

  missed_line :
      (cpu : Cpu D G) (paddr : ℕ) (count : Bool)
      → (cache_miss env cpu paddr count).1.icache (line_index paddr)
        ≡ (filled cpu paddr (4 - word_index paddr)).1
  unfolding cache_miss set_line filled emptied
  missed_line cpu paddr count =
      let fill = filled cpu paddr (4 - word_index paddr) in
      ap (λ (cache : ℕ → ICacheLine). cache (line_index paddr)) (charge-icache _ _ _ count)
      ∙ update_self fill.0.icache (line_index paddr) fill.1

  filled_word :
      (cpu : Cpu D G) (paddr : ℕ)
      → ((filled cpu paddr (4 - word_index paddr)).1.tag ≡ paddr >>> 12)
        × ((filled cpu paddr (4 - word_index paddr)).1.valid (word_index paddr) ≡ true)
  unfolding filled emptied
  filled_word cpu paddr =
      let word = word_index paddr in
      let count : 4 - word ≡ suc (3 - word) = omega arith in
      let first = fill_line-first (3 - word) word (paddr - paddr % 16) cpu (emptied cpu paddr) in
      (
        ap (λ n. (filled cpu paddr n).1.tag) count ∙ first.0,
        ap (λ n. (filled cpu paddr n).1.valid word) count ∙ first.1,
      )

  both : (t t' : ℕ) (v : Bool) → t ≡ t' → v ≡ true → (t == t' && v) ≡ true
  both t t' v e e' = ground arith

  cache_miss-is_hit :
      (cpu : Cpu D G) (paddr : ℕ) (count : Bool)
      → is_hit (cache_miss env cpu paddr count).1 paddr ≡ true
  unfolding is_hit
  cache_miss-is_hit cpu paddr count =
      let fill = filled_word cpu paddr in
      ap (λ (line : ICacheLine). line.tag == paddr >>> 12 && line.valid (word_index paddr))
        (missed_line cpu paddr count)
      ∙ both _ (paddr >>> 12) _ fill.0 fill.1

  missed_word :
      (cpu : Cpu D G) (paddr : ℕ) (count : Bool)
      → hit_word (cache_miss env cpu paddr count).1 paddr ≡ (cache_miss env cpu paddr count).0
  unfolding hit_word cache_miss filled emptied
  missed_word cpu paddr count =
      ap (λ (line : ICacheLine). line.words (word_index paddr)) (missed_line cpu paddr count)

  cached_fetch :
      (cpu : Cpu D G) (vaddr : ℕ) (count : Bool)
      → (vaddr >>> 29 == 5) ≡ false
      → cpu_icache_fetch env cpu vaddr count ≡ (
          if is_hit cpu (mask_region vaddr)
          then (hit_word cpu (mask_region vaddr), cpu)
          else cache_miss env cpu (mask_region vaddr) count)
  unfolding cpu_icache_fetch is_hit hit_word
  cached_fetch cpu vaddr count cached = if-false _ cached

  -- Fetching an instruction twice from a cached segment gives the same word and, the second
  -- time, changes nothing and costs nothing: the word of the first fetch is then in the cache.
  pub cpu_icache_fetch_lem :
      (cpu : Cpu D G) (vaddr : ℕ) (count count' : Bool)
      → (vaddr >>> 29 == 5) ≡ false
      → cpu_icache_fetch env (cpu_icache_fetch env cpu vaddr count).1 vaddr count'
        ≡ cpu_icache_fetch env cpu vaddr count
  cpu_icache_fetch_lem cpu vaddr count count' cached =
      let p = mask_region vaddr in
      let miss = cache_miss env cpu p count in
      elim (Bool-cases (is_hit cpu p)) [
        | inl e ↦
            let hit =
              λ (c : Bool). cached_fetch cpu vaddr c cached ∙ if-true (cache_miss env cpu p c) e in
            ap (λ (c : Cpu D G). cpu_icache_fetch env c vaddr count') (ap (λ r. r.1) (hit count))
            ∙ hit count'
            ∙ sym (hit count)
        | inr e ↦
            let first = cached_fetch cpu vaddr count cached ∙ if-false (hit_word cpu p, cpu) e in
            ap (λ (c : Cpu D G). cpu_icache_fetch env c vaddr count') (ap (λ r. r.1) first)
            ∙ cached_fetch miss.1 vaddr count' cached
            ∙ if-true _ (cache_miss-is_hit cpu p count)
            ∙ ap (λ w. (w, miss.1)) (missed_word cpu p count)
            ∙ sym first
      ]
