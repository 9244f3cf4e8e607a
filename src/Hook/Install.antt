-- ===== src/Hook/Install.antt =====
-- `symbol_hook` as a whole, and the `symbol_restore` that takes it back.
use porteus_gpu.Hook.Loop.{IsDecoder}
use porteus_gpu.Hook.Rights.{opened}
use porteus_gpu.Base.{
  ◌≤◌, sub64, if-both, Mem, read32, copy_bytes-write32, read32-write32, write32-Outside,
}
use porteus_gpu.Hook.Jump.{code_addr_from_offset-code_offset_from_addr, Reachable}
use porteus_gpu.Hook.Restore.{
  NoOverlap, IsCopy, IsRefusal, hook_into-HookEnd, installed, refused, HookEnd, jump_offset, hooked,
  Kept, jumped,
}
use porteus_gpu.Base.{
  ==→ne, inr, enomem, ==→eq, inl, efault, List, ◌==◌, ne→==, ap, ◌≢◌, refl, ◌∙◌, arith, update, ok,
  ◌∷◌, ◌⊎◌, fail, false, ◌^◌, returns, Errno, ◌<◌, ◌≡◌, ◌+◌, Status, Outcome, ℕ, some,
}
use porteus_gpu.Hook.{
  after_lookup, find_symbol_address, symbol_hook, malloc_free, code_addr_from_offset, code_at,
  op_jmp_size, op_jmp_rel32, symbol_restore, Kernel, Machine,
}
use porteus_gpu.Symbols.{KernSym}

-- Restoring a symbol ends, and leaves the memory but for the buffer, and the rights, as they were
-- before the hook, and frees the buffer.
pub record IsUndone (k : Kernel) (buf size : ℕ) (s : Machine) (o : Outcome (KernSym × Machine))
    : Type 0 where
  pub result : KernSym × Machine
  pub ended : o ≡ returns result
  pub unhooked : result.0.hijacked ≡ false
  pub memory : Kept buf size s.mem result.1.mem
  pub rights : result.1.page_rw ≡ s.page_rw
  pub buffer_freed : result.1.freed ≡ code_at buf ∷ s.freed

-- Bytes outside the buffer and the jump are as they were.
abbrev pub IsKeptBut : ℕ → ℕ → ℕ → Mem → Mem → Type 0
IsKeptBut buf size addr m m' =
    (b : ℕ) → (b < buf) ⊎ (buf + size + 15 ≤ b) → (b < addr) ⊎ (addr + op_jmp_size ≤ b) → m' b ≡ m b

-- How `symbol_hook` ends: `rejected` is before the allocation of the buffer, or with none.
pub data HookResult (k : Kernel) (sym : KernSym) (buf code : ℕ) (s : Machine)
    (o : Outcome (Status × KernSym × Machine)) : Type 0 where
  rejected :
      (e : Errno) (sym' : KernSym)
      → o ≡ returns (fail e, sym', s)
      → sym'.run ≡ sym.run
      → (s.mem sym.addr ≡ op_jmp_rel32) ⊎ (buf ≡ 0)
      → HookResult k sym buf code s o
  gave_up :
      (e : Errno) (sym' : KernSym) (s' : Machine)
      → o ≡ returns (fail e, sym', s')
      → sym'.run ≡ sym.run
      → IsRefusal k s.mem sym.addr sym.size e
      → Kept buf sym.size s.mem s'.mem
      → s'.page_rw ≡ s.page_rw
      → s'.freed ≡ code_at buf ∷ s.freed
      → HookResult k sym buf code s o
  installs :
      (sym' : KernSym) (s' : Machine) (last : ℕ)
      → o ≡ returns (ok, sym', s')
      → sym'.run ≡ buf
      → sym'.new_size ≡ sub64 last buf
      → op_jmp_size ≤ sym.size
      → IsCopy k (record sym { new_addr = buf }) s.mem s'.mem last
      → IsKeptBut buf sym.size sym.addr s.mem s'.mem
      → s'.mem sym.addr ≡ op_jmp_rel32
      → code_addr_from_offset sym.addr op_jmp_size (read32 s'.mem (sym.addr + 1)) ≡ code
      → s'.page_rw ≡ s.page_rw
      → IsUndone k buf sym.size s (symbol_restore k sym' s')
      → HookResult k sym buf code s o

module _ (k : Kernel) (sym : KernSym) (code : ℕ) (m : Mem) (fits : sym.addr + 5 < 2 ^ 64) where
  jumped_opcode : jumped sym code m sym.addr ≡ op_jmp_rel32
  jumped_opcode =
      write32-Outside (sym.addr + 1) (jump_offset sym code) (update m sym.addr op_jmp_rel32)
        sym.addr (omega arith)
      ∙ ground arith

  jumped_outside :
      (b : ℕ) → (b < sym.addr) ⊎ (sym.addr + op_jmp_size ≤ b) → jumped sym code m b ≡ m b
  jumped_outside b x =
      write32-Outside (sym.addr + 1) (jump_offset sym code) (update m sym.addr op_jmp_rel32) b
        (omega arith)
      ∙ ground arith

  jumped_leads :
      code < 2 ^ 64
      → Reachable sym.addr op_jmp_size code
      → code_addr_from_offset sym.addr op_jmp_size (read32 (jumped sym code m) (sym.addr + 1))
        ≡ code
  jumped_leads c r =
      rw
        (read32-write32 (sym.addr + 1) (jump_offset sym code) (update m sym.addr op_jmp_rel32)
          (omega arith))
        (code_addr_from_offset-code_offset_from_addr sym.addr op_jmp_size code c r)

  symbol_restore-hooked :
      (pte : ℕ) (s : Machine)
      → k.lookup_address sym.addr ≡ some pte
      → sym.name_alloc ≡ false
      → symbol_restore k (hooked sym m) (record s { mem = jumped sym code m })
        ≡ returns (
          record (hooked sym m) { hijacked = false },
          malloc_free sym.new_addr (record s { mem = m }),
        )
  unfolding symbol_restore
  symbol_restore-hooked pte s mapped n =
      let o = opened k sym.addr pte (record s { mem = jumped sym code m }) mapped in
      rw
        (
          symbol_restore,
          o.opens,
          copy_bytes-write32 sym.addr (jump_offset sym code) op_jmp_rel32 m,
          o.closes m,
          n,
        )
        refl

malloc_free_lem :
    (buf : ℕ) (s : Machine) → buf ≢ 0 → (malloc_free buf s).freed ≡ code_at buf ∷ s.freed
unfolding malloc_free
malloc_free_lem buf s h = rw (ne→== buf 0 h) refl

malloc_free_mem : (buf : ℕ) (s : Machine) → (malloc_free buf s).mem ≡ s.mem
unfolding malloc_free
malloc_free_mem buf s = if-both (λ (t : Machine). t.mem ≡ s.mem) (buf == 0) (λ _. refl) (λ _. refl)

malloc_free_rights : (buf : ℕ) (s : Machine) → (malloc_free buf s).page_rw ≡ s.page_rw
unfolding malloc_free
malloc_free_rights buf s =
    if-both (λ (t : Machine). t.page_rw ≡ s.page_rw) (buf == 0) (λ _. refl) (λ _. refl)

-- The symbol with its buffer.
abbrev pub buffered : Kernel → KernSym → KernSym
buffered k sym = record sym { new_addr = k.module_alloc sym.size }

module _ (k : Kernel) (sym : KernSym) (pte code : ℕ) (s : Machine)
    (mapped : k.lookup_address sym.addr ≡ some pte) (decoder : IsDecoder k s.mem sym.addr sym.size)
    (apart : NoOverlap sym.addr (k.module_alloc sym.size) sym.size)
    (fits : sym.addr + sym.size + 15 < 2 ^ 64)
    (buffer_fits : k.module_alloc sym.size + sym.size + 15 < 2 ^ 64)
    (unnamed : sym.name_alloc ≡ false) (c : code < 2 ^ 64)
    (reachable : Reachable sym.addr op_jmp_size code) where
  abbrev buf : ℕ
  buf = k.module_alloc sym.size

  IsUndone-hooked :
      (n : ℕ) (m : Mem)
      → buf ≢ 0
      → Kept buf sym.size s.mem m
      → IsUndone k buf sym.size s (
          symbol_restore k
            (hooked (record (buffered k sym) { new_size = n; run = buf }) m)
            (record s { mem = jumped sym code m }))
  IsUndone-hooked n m there kept =
      let sized = record (buffered k sym) { new_size = n; run = buf } in
      let before = record s { mem = m } in
      record {
        result = (record (hooked sized m) { hijacked = false }, malloc_free buf before);
        ended = symbol_restore-hooked k sized code m (omega arith) pte s mapped unnamed;
        unhooked = refl;
        memory = λ a o. ap (λ f. f a) (malloc_free_mem buf before) ∙ kept a o;
        rights = malloc_free_rights buf before;
        buffer_freed = malloc_free_lem buf before there;
      }

  HookResult-HookEnd :
      (o : Outcome (Status × KernSym × Machine))
      → buf ≢ 0
      → HookEnd k (buffered k sym) pte code s mapped decoder apart fits buffer_fits o
      → HookResult k sym buf code s o
  HookResult-HookEnd o there (refused e s' done why rights freed kept) =
      gave_up e (buffered k sym) (malloc_free buf s') done refl why
        (λ a x. ap (λ f. f a) (malloc_free_mem buf s') ∙ kept a x)
        (malloc_free_rights buf s' ∙ rights)
        (malloc_free_lem buf s' there ∙ ap (λ l. code_at buf ∷ l) freed)
  HookResult-HookEnd o there (installed last m done big copy kept) =
      let n = sub64 last buf in
      let sized = record (buffered k sym) { new_size = n; run = buf } in
      installs (hooked sized m) (record s { mem = jumped sym code m }) last done refl refl big copy
        (λ b x y. jumped_outside k sym code m (omega arith) b y ∙ kept b x)
        (jumped_opcode k sym code m (omega arith))
        (jumped_leads k sym code m (omega arith) c reachable) refl (IsUndone-hooked n m there kept)

  pub symbol_hook_lem :
      (fuel : ℕ) (start : KernSym) (name : List ℕ)
      → find_symbol_address k.kallsyms_on_each_symbol start name ≡ (ok, sym)
      → sym.size < fuel
      → HookResult k sym buf code s (symbol_hook k fuel start name code s)
  unfolding symbol_hook after_lookup
  symbol_hook_lem fuel start name found enough =
      rw (symbol_hook, found)
        (if-both (HookResult k sym buf code s) (s.mem sym.addr == op_jmp_rel32)
          (λ j. rejected efault sym refl refl (inl (==→eq _ _ j)))
          (λ _.
            if-both (HookResult k sym buf code s) (buf == 0)
              (λ z. rejected enomem (buffered k sym) refl refl (inr (==→eq _ _ z)))
              (λ nz. HookResult-HookEnd _ (==→ne _ _ nz) (
                hook_into-HookEnd k (buffered k sym) pte code s mapped decoder apart fits
                  buffer_fits fuel enough))))
