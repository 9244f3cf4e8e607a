-- ===== src/Hook/Jump.antt =====
-- Relative addresses: a jump that is written, and one that is moved, lead where they should.
use porteus_gpu.Base.{memcpy, read32, Mem, read32-write32}
use porteus_gpu.Base.{
  add64_small, true, ◌||◌, ◌==◌, false, ◌+◌, arith, ◌≤◌, ◌≡◌, ◌-◌, ◌⊎◌, add64, ◌^◌, sub64, ◌<◌, ℕ,
}
use porteus_gpu.Hook.{
  inside, op_jmp_rel32, op_call_rel32, copy_and_fixup_insn, KernSym, Insn, code_offset_from_addr,
  code_addr_from_offset,
}

-- The destination can be reached from the instruction by a signed 32-bit offset.
abbrev pub Reachable : ℕ → ℕ → ℕ → Type 0
Reachable insn_addr insn_len dest =
    (sub64 dest (add64 insn_addr insn_len) < 2 ^ 31)
    ⊎ (2 ^ 64 - 2 ^ 31 ≤ sub64 dest (add64 insn_addr insn_len))

-- An offset that was computed for a destination leads back to it.
pub code_addr_from_offset-code_offset_from_addr :
    (insn_addr insn_len dest : ℕ)
    → dest < 2 ^ 64
    → Reachable insn_addr insn_len dest
    → code_addr_from_offset insn_addr insn_len (code_offset_from_addr insn_addr insn_len dest)
      ≡ dest
code_addr_from_offset-code_offset_from_addr insn_addr insn_len dest d r = ground arith

module _ (insn : Insn) (kaddr dest : ℕ) (func : KernSym) (m : Mem) where
  -- The copy of a relative call or jump to an address outside the function that is copied leads
  -- to the same address, if a signed 32-bit offset from the copy reaches it and neither place
  -- passes 2 ^ 64.
  pub copied_branch_leads :
      (insn.opcode ≡ op_call_rel32) ⊎ (insn.opcode ≡ op_jmp_rel32)
      → (kaddr + insn.length < 2 ^ 64) × (dest + insn.offset_immediate < 2 ^ 64)
      → inside func (code_addr_from_offset kaddr insn.length insn.immediate) ≡ false
      → Reachable dest insn.length (code_addr_from_offset kaddr insn.length insn.immediate)
      → code_addr_from_offset dest insn.length
          (read32 (copy_and_fixup_insn insn kaddr dest func m) (dest + insn.offset_immediate))
        ≡ code_addr_from_offset kaddr insn.length insn.immediate
  unfolding copy_and_fixup_insn
  copied_branch_leads op fits out r =
      let target = code_addr_from_offset kaddr insn.length insn.immediate in
      let offset = code_offset_from_addr dest insn.length target in
      rw
        (
          copy_and_fixup_insn,
          branch insn.opcode op,
          out,
          add64_small dest insn.offset_immediate fits.1,
          read32-write32 (dest + insn.offset_immediate) offset (memcpy dest kaddr insn.length m)
              (omega arith),
        )
        (code_addr_from_offset-code_offset_from_addr dest insn.length target (omega arith) r)
    where
      branch :
          (c : ℕ)
          → (c ≡ op_call_rel32) ⊎ (c ≡ op_jmp_rel32)
          → ((c == op_call_rel32) || (c == op_jmp_rel32)) ≡ true
      branch c h = ground arith
