-- ===== src/Hook.antt =====
-- togpu/driver/xt_TOGPU_hook.c: the first bytes of a kernel function are overwritten by a jump, and a copy
-- of its code, with the relative addresses adjusted, stands in for it.
mod Code
pub mod Copy
pub mod Copied
pub mod Loop
pub mod Rights
pub mod Install
pub mod Jump
pub mod Fixup
pub mod Restore
pub mod Tests
unfoldable pub use Code.{inside, copy_and_fixup_insn}
pub use Code.{
  Insn, sign_extend32, op_jmp_rel32, op_call_rel32, op_jmp_size, code_addr_from_offset,
  code_offset_from_addr,
}
use porteus_gpu.Base.{Mem, memcpy, copy_bytes, memset, write32, read32}
use porteus_gpu.Symbols.{find_symbol_address, Iterator, KernSym}
use porteus_gpu.Base.{
  true, enomem, update, fault, false, efault, none, some, ok, eilseq, fail, not, ◌-◌, returns,
  waits, ◌∷◌, zero, ◌||◌, ◌&&◌, ◌^◌, leb, ltb, Status, ◌%◌, ◌==◌, ◌+◌, List, Outcome, add64, Bool,
  Option, if◌then◌else◌, suc, sub64, ℕ, [],
}

-- What is given to the kernel's `module_free`: code, or the name in a `struct kernsym`.
pub data Block : Type 0 where
  code_at : ℕ → Block
  name_in : Option (List ℕ) → Block

-- The memory, the bit _PAGE_RW of each page table entry, and the blocks freed so far.
pub record Machine : Type 0 where
  pub mem : Mem
  pub page_rw : ℕ → Bool
  pub freed : List Block

-- What the kernel and its instruction decoder give: the symbols, `lookup_address`, which may be NULL,
-- `module_alloc`, which gives 0 when it fails, and `kernel_insn_init` with `insn_get_length`.
pub record Kernel : Type 0 where
  pub kallsyms_on_each_symbol : Iterator
  pub lookup_address : ℕ → Option ℕ
  pub module_alloc : ℕ → ℕ
  pub decode : Mem → ℕ → Insn

-- `while (end_addr > orig_addr && *(u8 *)(end_addr - 1) == '\0')`, with `end_addr` that far past it.
pub trim_zeros : Mem → ℕ → ℕ → ℕ
trim_zeros m orig zero = zero
trim_zeros m orig (suc n) = if m (orig + n) == 0 then trim_zeros m orig n else suc n

-- `malloc_free`
pub malloc_free : ℕ → Machine → Machine
malloc_free buf s = if buf == 0 then s else record s { freed = code_at buf ∷ s.freed }

module _ (k : Kernel) where
  -- `set_addr_rw`: the flag, which says that the page was not writable.
  pub set_addr_rw : ℕ → Machine → Outcome (Bool × Machine)
  set_addr_rw addr s = elim (k.lookup_address addr) [
    | none ↦ fault
    | some pte ↦
        if s.page_rw pte
        then returns (false, s)
        else returns (true, record s { page_rw = update s.page_rw pte true })
  ]

  -- `set_addr_ro`
  pub set_addr_ro : ℕ → Bool → Machine → Outcome Machine
  set_addr_ro addr flag s =
      if flag
      then elim (k.lookup_address addr) [
        | none ↦ fault
        | some pte ↦ returns (record s { page_rw = update s.page_rw pte false })
      ]
      else returns s

  -- The loop that copies the instructions, with fuel: the status, and where the copy ends.
  pub copy_code : ℕ → KernSym → ℕ → ℕ → ℕ → Mem → Outcome (Status × ℕ × Mem)
  copy_code zero func orig_addr dest_addr end_addr m = waits
  copy_code (suc fuel) func orig_addr dest_addr end_addr m =
      let insn = k.decode m orig_addr in
      let m' = copy_and_fixup_insn insn orig_addr dest_addr func m in
      let rest =
        copy_code fuel func (add64 orig_addr insn.length) (add64 dest_addr insn.length) end_addr
          m' in
      if ltb orig_addr end_addr
      then if insn.length == 0 then returns (fail eilseq, dest_addr, m) else rest
      else returns (ok, dest_addr, m)

  -- What `symbol_hook` does once the copy is there: the original bytes are kept, and the jump is written.
  pub write_jump : KernSym → ℕ → Machine → Outcome (KernSym × Machine)
  write_jump sym code s = elim (set_addr_rw sym.addr s) [
    | waits ↦ waits
    | fault ↦ fault
    | returns (pte_ro, s₁) ↦
        let orig_start_bytes : ℕ → ℕ = λ i. s₁.mem (sym.addr + i) in
        let opcode = update s₁.mem sym.addr op_jmp_rel32 in
        let jump =
          write32 (add64 sym.addr 1) (code_offset_from_addr sym.addr op_jmp_size code) opcode in
        elim (set_addr_ro sym.addr pte_ro (record s₁ { mem = jump })) [
          | waits ↦ waits
          | fault ↦ fault
          | returns s₂ ↦
              returns (record sym { orig_start_bytes = orig_start_bytes; hijacked = true }, s₂)
        ]
  ]

  -- The end of the code, without the zeros that pad it.
  pub code_end : KernSym → Mem → ℕ
  code_end sym m =
      let end_addr = add64 sym.addr sym.size in
      if ltb sym.addr end_addr
      then sym.addr + trim_zeros m sym.addr (end_addr - sym.addr)
      else end_addr

  -- What follows the loop that copies; the label `out_error` frees the buffer.
  pub after_copy :
      KernSym → ℕ → Machine → Outcome (Status × ℕ × Mem) → Outcome (Status × KernSym × Machine)
  after_copy sym code s waits = waits
  after_copy sym code s fault = fault
  after_copy sym code s (returns (fail e, dest_addr, m)) =
      returns (fail e, sym, malloc_free sym.new_addr (record s { mem = m }))
  after_copy sym code s (returns (ok, dest_addr, m)) =
      let new_size = sub64 dest_addr sym.new_addr in
      elim (write_jump (record sym { new_size = new_size; run = sym.new_addr }) code
        (record s { mem = m })) [
          | waits ↦ waits
          | fault ↦ fault
          | returns (hooked, s₂) ↦ returns (ok, hooked, s₂)
        ]

  -- `symbol_hook` from the allocation on.
  pub hook_into : ℕ → KernSym → ℕ → Machine → Outcome (Status × KernSym × Machine)
  hook_into fuel sym code s =
      let cleared = memset sym.new_addr 0 sym.size s.mem in
      let end_addr = code_end sym cleared in
      let s₁ = record s { mem = cleared } in
      if ltb sym.size op_jmp_size
      then returns (fail efault, sym, malloc_free sym.new_addr s₁)
      else if sym.addr == end_addr
      then returns (fail eilseq, sym, malloc_free sym.new_addr s₁)
      else after_copy sym code s (copy_code fuel sym sym.addr sym.new_addr end_addr cleared)

  -- What follows the lookup of the symbol.
  unfoldable pub after_lookup :
      ℕ → ℕ → Machine → Status × KernSym → Outcome (Status × KernSym × Machine)
  after_lookup fuel code s (fail e, sym) = returns (fail e, sym, s)
  after_lookup fuel code s (ok, sym) =
      let new_addr = k.module_alloc sym.size in
      let buffered = record sym { new_addr = new_addr } in
      if s.mem sym.addr == op_jmp_rel32
      then returns (fail efault, sym, s)
      else if new_addr == 0
      then returns (fail enomem, buffered, s)
      else hook_into fuel buffered code s

  -- `symbol_hook`
  unfoldable pub symbol_hook :
      ℕ → KernSym → List ℕ → ℕ → Machine → Outcome (Status × KernSym × Machine)
  symbol_hook fuel sym symbol_name code s =
      after_lookup fuel code s (find_symbol_address k.kallsyms_on_each_symbol sym symbol_name)

  -- `symbol_restore`
  pub symbol_restore : KernSym → Machine → Outcome (KernSym × Machine)
  symbol_restore sym s =
      let named = λ (r : KernSym × Machine).
        if r.0.name_alloc
        then (
          record r.0 { name_alloc = false },
          record r.1 { freed = name_in r.0.name ∷ r.1.freed },
        )
        else r in
      if sym.hijacked
      then elim (set_addr_rw sym.addr s) [
        | waits ↦ waits
        | fault ↦ fault
        | returns (pte_ro, s₁) ↦
            let m = copy_bytes sym.addr sym.orig_start_bytes op_jmp_size s₁.mem in
            elim (set_addr_ro sym.addr pte_ro (record s₁ { mem = m })) [
              | waits ↦ waits
              | fault ↦ fault
              | returns s₂ ↦
                  returns (named (record sym { hijacked = false }, malloc_free sym.new_addr s₂))
            ]
      ]
      else returns (named (sym, s))

-- "module_alloc" and "module_free"
abbrev pub module_alloc_name : List ℕ
module_alloc_name = 109 ∷ 111 ∷ 100 ∷ 117 ∷ 108 ∷ 101 ∷ 95 ∷ 97 ∷ 108 ∷ 108 ∷ 111 ∷ 99 ∷ []

abbrev pub module_free_name : List ℕ
module_free_name = 109 ∷ 111 ∷ 100 ∷ 117 ∷ 108 ∷ 101 ∷ 95 ∷ 102 ∷ 114 ∷ 101 ∷ 101 ∷ []

-- `hook_init`: the records of the kernel's own allocator, and of its release function.
unfoldable pub hook_init : Iterator → KernSym → KernSym → Status × KernSym × KernSym
hook_init each sym_module_alloc sym_module_free =
    let (ret, alloc) = find_symbol_address each sym_module_alloc module_alloc_name in
    let (ret', free) = find_symbol_address each sym_module_free module_free_name in
    elim ret [
      | fail e ↦ (fail e, alloc, sym_module_free)
      | ok ↦ elim ret' [ fail e ↦ (fail e, alloc, free) | ok ↦ (ok, alloc, free) ]
    ]
