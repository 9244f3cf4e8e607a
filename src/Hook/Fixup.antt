-- ===== src/Hook/Fixup.antt =====
-- Where the relative addresses of a copied instruction lead, by `copy_and_fixup_insn` of
-- togpu/driver/xt_TOGPU_hook.c: those that are adjusted, and those that are copied as they are.
use porteus_gpu.Hook.Jump.{
  code_addr_from_offset-code_offset_from_addr, copied_branch_leads, Reachable,
}
use porteus_gpu.Hook.{
  sign_extend32, code_offset_from_addr, copy_and_fixup_insn, op_jmp_rel32, code_addr_from_offset,
  inside, KernSym, op_call_rel32, Insn,
}
use porteus_gpu.Base.{
  read32-write32, read32-memcpy, add64_small, sub64, add64, arith, refl, read32, ◌||◌, ◌^◌, false,
  memcpy, ◌<◌, ◌≤◌, ◌==◌, ◌+◌, Mem, ◌⊎◌, true, ◌≡◌, ℕ,
}

-- The instruction is a relative call or jump, which has its offset in the immediate.
abbrev pub IsBranch : Insn → Type 0
IsBranch insn = (insn.opcode ≡ op_call_rel32) ⊎ (insn.opcode ≡ op_jmp_rel32)

-- The field that may be adjusted: where it stands in the instruction, and its value.
pub data IsOperandAt (insn : Insn) : ℕ → ℕ → Type 0 where
  branch : IsBranch insn → IsOperandAt insn insn.offset_immediate insn.immediate
  operand :
      ¬ IsBranch insn
      → insn.rip_relative ≡ true
      → IsOperandAt insn insn.offset_displacement insn.displacement

-- The instruction is copied as it is: its address lies inside the function, or it has none that counts.
pub data IsLeftAlone (insn : Insn) (kaddr : ℕ) (func : KernSym) : Type 0 where
  stays :
      {o v : ℕ}
      → IsOperandAt insn o v
      → inside func (code_addr_from_offset kaddr insn.length v) ≡ true
      → IsLeftAlone insn kaddr func
  unrelated : ¬ IsBranch insn → insn.rip_relative ≡ false → IsLeftAlone insn kaddr func

pub is_branch :
    (c : ℕ)
    → (c ≡ op_call_rel32) ⊎ (c ≡ op_jmp_rel32)
    → ((c == op_call_rel32) || (c == op_jmp_rel32)) ≡ true
is_branch c h = ground arith

pub no_branch :
    (c : ℕ)
    → ¬ ((c ≡ op_call_rel32) ⊎ (c ≡ op_jmp_rel32))
    → ((c == op_call_rel32) || (c == op_jmp_rel32)) ≡ false
no_branch c h = ground arith

module _ (insn : Insn) (kaddr dest : ℕ) (func : KernSym) (m : Mem) where
  -- The copy of a relative call or jump, or of another instruction with an operand relative to
  -- the instruction pointer, whose address lies outside the function that is copied, leads to the
  -- same address, if a signed 32-bit offset from the copy reaches it and neither place passes 2 ^
  -- 64.
  pub copied_field_leads :
      {o v : ℕ}
      → IsOperandAt insn o v
      → (kaddr + insn.length < 2 ^ 64) × (dest + o < 2 ^ 64)
      → inside func (code_addr_from_offset kaddr insn.length v) ≡ false
      → Reachable dest insn.length (code_addr_from_offset kaddr insn.length v)
      → code_addr_from_offset dest insn.length
          (read32 (copy_and_fixup_insn insn kaddr dest func m) (dest + o))
        ≡ code_addr_from_offset kaddr insn.length v
  unfolding copy_and_fixup_insn
  copied_field_leads (branch op) fits out r =
      copied_branch_leads insn kaddr dest func m op fits out r
  copied_field_leads (operand other rip) fits out r =
      let target = code_addr_from_offset kaddr insn.length insn.displacement in
      let offset = code_offset_from_addr dest insn.length target in
      rw
        (
          copy_and_fixup_insn,
          no_branch insn.opcode other,
          rip,
          out,
          add64_small dest insn.offset_displacement fits.1,
          read32-write32 (dest + insn.offset_displacement) offset (memcpy dest kaddr insn.length m)
              (omega arith),
        )
        (code_addr_from_offset-code_offset_from_addr dest insn.length target (omega arith) r)

  pub copied_as_is :
      IsLeftAlone insn kaddr func
      → copy_and_fixup_insn insn kaddr dest func m ≡ memcpy dest kaddr insn.length m
  unfolding copy_and_fixup_insn
  copied_as_is (stays (branch op) within) =
      rw (copy_and_fixup_insn, is_branch insn.opcode op, within) refl
  copied_as_is (stays (operand other rip) within) =
      rw (copy_and_fixup_insn, no_branch insn.opcode other, rip, within) refl
  copied_as_is (unrelated other rip) =
      rw (copy_and_fixup_insn, no_branch insn.opcode other, rip) refl

  -- A relative call, jump or operand whose address lies inside the function leads, in the copy,
  -- as far past it as the copy lies past the original, modulo 2 ^ 64, so to its place in the
  -- copy; and so does, inside or outside, every 32-bit relative address of an instruction that is
  -- neither a relative call or jump (opcodes e8 and e9) nor relative to the instruction pointer,
  -- such as a conditional jump.
  pub copied_verbatim_shifts :
      (o : ℕ)
      → IsLeftAlone insn kaddr func
      → o + 4 ≤ insn.length
      → kaddr < 2 ^ 64
      → code_addr_from_offset dest insn.length
          (read32 (copy_and_fixup_insn insn kaddr dest func m) (dest + o))
        ≡ add64 (code_addr_from_offset kaddr insn.length (read32 m (kaddr + o))) (sub64 dest kaddr)
  copied_verbatim_shifts o as_is fits low =
      rw (copied_as_is as_is, read32-memcpy dest kaddr insn.length o m fits)
        (shifted (sign_extend32 (read32 m (kaddr + o))))
    where
      shifted :
          (s : ℕ)
          → add64 (add64 dest insn.length) s
            ≡ add64 (add64 (add64 kaddr insn.length) s) (sub64 dest kaddr)
      shifted s = omega arith
