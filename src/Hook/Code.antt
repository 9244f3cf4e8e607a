-- ===== src/Hook/Code.antt =====
-- togpu/driver/xt_TOGPU_hook.c, `copy_and_fixup_insn`: one instruction is copied, and its relative address
-- adjusted.
use porteus_gpu.Symbols.{KernSym}
use porteus_gpu.Base.{
  not, write32, ◌||◌, ◌-◌, ◌==◌, ◌+◌, ◌^◌, ◌&&◌, memcpy, Mem, ◌%◌, ltb, leb, add64, Bool, sub64,
  if◌then◌else◌, ℕ,
}

-- `struct insn` after `insn_get_length`. `immediate` and `displacement` are 32 bits each; the offsets
-- are those of `insn_offset_immediate` and `insn_offset_displacement`.
pub record Insn : Type 0 where
  pub length : ℕ
  pub opcode : ℕ
  pub immediate : ℕ
  pub displacement : ℕ
  pub offset_immediate : ℕ
  pub offset_displacement : ℕ
  pub rip_relative : Bool

abbrev pub op_jmp_rel32 : ℕ
op_jmp_rel32 = 233

abbrev pub op_call_rel32 : ℕ
op_call_rel32 = 232

abbrev pub op_jmp_size : ℕ
op_jmp_size = 5

-- `(s64)(s32)(v)`, as a 64-bit word
abbrev pub sign_extend32 : ℕ → ℕ
sign_extend32 v = if ltb v (2 ^ 31) then v else v + (2 ^ 64 - 2 ^ 32)

-- `CODE_ADDR_FROM_OFFSET` and `CODE_OFFSET_FROM_ADDR`
abbrev pub code_addr_from_offset : ℕ → ℕ → ℕ → ℕ
code_addr_from_offset insn_addr insn_len offset =
    add64 (add64 insn_addr insn_len) (sign_extend32 offset)

abbrev pub code_offset_from_addr : ℕ → ℕ → ℕ → ℕ
code_offset_from_addr insn_addr insn_len dest_addr =
    sub64 dest_addr (add64 insn_addr insn_len) % 2 ^ 32

-- Whether an address lies in the function that is copied.
unfoldable pub inside : KernSym → ℕ → Bool
inside func addr = leb func.addr addr && ltb addr (add64 func.addr func.size)

-- `copy_and_fixup_insn`, of an instruction of length above 0 at `kaddr`.
unfoldable pub copy_and_fixup_insn : Insn → ℕ → ℕ → KernSym → Mem → Mem
copy_and_fixup_insn insn kaddr dest func m =
    let copied = memcpy dest kaddr insn.length m in
    let branch = code_addr_from_offset kaddr insn.length insn.immediate in
    let operand = code_addr_from_offset kaddr insn.length insn.displacement in
    if (insn.opcode == op_call_rel32) || (insn.opcode == op_jmp_rel32)
    then if inside func branch
      then copied
      else write32 (add64 dest insn.offset_immediate)
          (code_offset_from_addr dest insn.length branch) copied
    else if not insn.rip_relative
    then copied
    else if inside func operand
    then copied
    else write32 (add64 dest insn.offset_displacement)
        (code_offset_from_addr dest insn.length operand) copied
