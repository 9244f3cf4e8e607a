-- ===== src/Hook/Copied.antt =====
-- What a copy of an instruction holds, and of a function.
use mathlib.Core.Path.{subst, ap}
use porteus_gpu.Hook.Copy.{IsInsn}
use porteus_gpu.Hook.Fixup.{
  IsOperandAt, branch, operand, IsLeftAlone, stays, unrelated, copied_as_is, is_branch, no_branch,
}
use porteus_gpu.Symbols.{KernSym}
use porteus_gpu.Hook.{
  op_jmp_rel32, op_call_rel32, copy_and_fixup_insn, code_addr_from_offset, code_offset_from_addr,
  inside, Insn,
}
use porteus_gpu.Base.{
  refl, inr, write32-Outside, inl, arith, ◌||◌, read32-write32, add64_small, read32_same, memcpy,
  ◌%◌, read32, ◌⊎◌, memcpy_at, write32, ◌==◌, false, Bool-cases, ◌∙◌, ◌≡◌, ◌^◌, ◌≤◌, ◌<◌, ◌+◌, Mem,
  ℕ,
}

-- In `m'` a copy at `dest` of the instruction that is at `kaddr` in `m`: byte by byte the same, or so but
-- for the field of an address outside the function, which leads from the copy to the same address.
pub data IsCopyOf (insn : Insn) (kaddr dest : ℕ) (func : KernSym) (m m' : Mem) : Type 0 where
  as_is :
      IsLeftAlone insn kaddr func
      → ((i : ℕ) → i < insn.length → m' (dest + i) ≡ m (kaddr + i))
      → IsCopyOf insn kaddr dest func m m'
  adjusted :
      (o v : ℕ)
      → IsOperandAt insn o v
      → inside func (code_addr_from_offset kaddr insn.length v) ≡ false
      → ((i : ℕ) → i < insn.length → (i < o) ⊎ (o + 4 ≤ i) → m' (dest + i) ≡ m (kaddr + i))
      → (dest + insn.length + read32 m' (dest + o)) % 2 ^ 32
        ≡ code_addr_from_offset kaddr insn.length v % 2 ^ 32
      → IsCopyOf insn kaddr dest func m m'

IsOperandAt-in : {insn : Insn} {o v : ℕ} → IsInsn insn → IsOperandAt insn o v → o + 4 ≤ insn.length
IsOperandAt-in v (branch op) = v.immediate_in op
IsOperandAt-in v (operand other rip) = v.displacement_in rip

module _ (insn : Insn) (kaddr dest : ℕ) (func : KernSym) where
  -- The copy holds in memories that agree on the bytes concerned.
  pub IsCopyOf-same :
      (m m₀ m' m'' : Mem)
      → IsInsn insn
      → ((i : ℕ) → i < insn.length → m (kaddr + i) ≡ m₀ (kaddr + i))
      → ((i : ℕ) → i < insn.length → m'' (dest + i) ≡ m' (dest + i))
      → IsCopyOf insn kaddr dest func m m'
      → IsCopyOf insn kaddr dest func m₀ m''
  IsCopyOf-same m m₀ m' m'' v from to (as_is alone same) =
      as_is alone (λ i l. to i l ∙ same i l ∙ from i l)
  IsCopyOf-same m m₀ m' m'' v from to (adjusted o w at out same leads) =
      let fits = IsOperandAt-in v at in
      let word : read32 m'' (dest + o) ≡ read32 m' (dest + o) =
        read32_same m' m'' (dest + o)
          (λ i l. subst (λ q. m'' q ≡ m' q) (omega arith) (to (o + i) (omega arith))) in
      adjusted o w at out (λ i l x. to i l ∙ same i l x ∙ from i l) (rw word leads)

  module _ (v : IsInsn insn) (fits : dest + insn.length < 2 ^ 64) (m : Mem) where
    copies_as_is :
        IsLeftAlone insn kaddr func
        → IsCopyOf insn kaddr dest func m (copy_and_fixup_insn insn kaddr dest func m)
    copies_as_is alone = as_is alone (λ i l.
        ap (λ f. f (dest + i)) (copied_as_is insn kaddr dest func m alone)
        ∙ memcpy_at dest kaddr insn.length i m l)

    copies_adjusted :
        (o w : ℕ)
        → IsOperandAt insn o w
        → inside func (code_addr_from_offset kaddr insn.length w) ≡ false
        → copy_and_fixup_insn insn kaddr dest func m
          ≡ write32
              (dest + o)
              (code_offset_from_addr dest insn.length (code_addr_from_offset kaddr insn.length w))
              (memcpy dest kaddr insn.length m)
        → IsCopyOf insn kaddr dest func m (copy_and_fixup_insn insn kaddr dest func m)
    copies_adjusted o w at out e =
        let target = code_addr_from_offset kaddr insn.length w in
        let offset = code_offset_from_addr dest insn.length target in
        let copied = memcpy dest kaddr insn.length m in
        let word : read32 (copy_and_fixup_insn insn kaddr dest func m) (dest + o) ≡ offset =
          ap (λ f. read32 f (dest + o)) e ∙ read32-write32 (dest + o) offset copied (omega arith) in
        adjusted o w at out
          (λ i l x.
            ap (λ f. f (dest + i)) e
            ∙ write32-Outside (dest + o) offset copied (dest + i) (omega arith)
            ∙ memcpy_at dest kaddr insn.length i m l)
          (rw word (omega arith))

    copies_operand :
        (o w : ℕ)
        → IsOperandAt insn o w
        → IsCopyOf insn kaddr dest func m (copy_and_fixup_insn insn kaddr dest func m)
    unfolding copy_and_fixup_insn
    copies_operand o w at =
        elim (Bool-cases (inside func (code_addr_from_offset kaddr insn.length w))) [
          | inl within ↦ copies_as_is (stays at within)
          | inr out ↦ copies_adjusted o w at out (fixed at out)
        ]
      where
        fixed :
            {o w : ℕ}
            → IsOperandAt insn o w
            → inside func (code_addr_from_offset kaddr insn.length w) ≡ false
            → copy_and_fixup_insn insn kaddr dest func m
              ≡ write32
                  (dest + o)
                  (code_offset_from_addr dest insn.length
                    (code_addr_from_offset kaddr insn.length w))
                  (memcpy dest kaddr insn.length m)
        fixed (branch op) out =
            let l = v.immediate_in op in
            rw
              (
                copy_and_fixup_insn,
                is_branch insn.opcode op,
                out,
                add64_small dest insn.offset_immediate (omega arith),
              )
              refl
        fixed (operand other rip) out =
            let l = v.displacement_in rip in
            rw
              (
                copy_and_fixup_insn,
                no_branch insn.opcode other,
                rip,
                out,
                add64_small dest insn.offset_displacement (omega arith),
              )
              refl

    -- `copy_and_fixup_insn` makes such a copy.
    pub copy_and_fixup_insn-IsCopyOf :
        IsCopyOf insn kaddr dest func m (copy_and_fixup_insn insn kaddr dest func m)
    copy_and_fixup_insn-IsCopyOf =
        elim (Bool-cases ((insn.opcode == op_call_rel32) || (insn.opcode == op_jmp_rel32))) [
          | inl op ↦ copies_operand _ _ (branch (ground (arith, op)))
          | inr other ↦ elim (Bool-cases insn.rip_relative) [
            | inl rip ↦ copies_operand _ _ (operand (λ b. ground (arith, other)) rip)
            | inr none_there ↦ copies_as_is (unrelated (λ b. ground (arith, other)) none_there)
          ]
        ]
