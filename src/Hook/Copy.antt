-- ===== src/Hook/Copy.antt =====
-- The copy of one instruction writes into the new buffer alone.
use porteus_gpu.Base.{
  if-both, memcpy, write32, Mem, sym, ◌∙◌, not, refl, ◌||◌, arith, false, ◌==◌, add64, Bool, true,
  ◌^◌, ◌⊎◌, ◌<◌, ◌≤◌, ◌+◌, ◌≡◌, ℕ,
}
use porteus_gpu.Symbols.{KernSym}
use porteus_gpu.Hook.{inside, op_jmp_rel32, op_call_rel32, Insn, copy_and_fixup_insn}
use porteus_gpu.Base.{Outside, memcpy-Outside, write32-Outside}

-- The 32-bit fields of an instruction that may be adjusted lie within it.
pub record IsInsn (insn : Insn) : Type 0 where
  pub immediate_in :
      (insn.opcode ≡ op_call_rel32) ⊎ (insn.opcode ≡ op_jmp_rel32)
      → insn.offset_immediate + 4 ≤ insn.length
  pub displacement_in : insn.rip_relative ≡ true → insn.offset_displacement + 4 ≤ insn.length

module _ (dest n : ℕ) (a : ℕ) (h : dest + n < 2 ^ 64) (o : Outside dest n a) where
  fixup-Outside :
      (m : Mem) (kaddr offset v : ℕ)
      → offset + 4 ≤ n
      → write32 (add64 dest offset) v (memcpy dest kaddr n m) a ≡ m a
  fixup-Outside m kaddr offset v l =
      write32-Outside (add64 dest offset) v (memcpy dest kaddr n m) a (omega arith)
      ∙ memcpy-Outside dest kaddr n m a o

pub copy_and_fixup_insn-Outside :
    (insn : Insn) (kaddr dest : ℕ) (func : KernSym) (m : Mem) (a : ℕ)
    → IsInsn insn
    → dest + insn.length < 2 ^ 64
    → Outside dest insn.length a
    → copy_and_fixup_insn insn kaddr dest func m a ≡ m a
unfolding copy_and_fixup_insn
copy_and_fixup_insn-Outside insn kaddr dest func m a v h o =
    if-both P ((insn.opcode == op_call_rel32) || (insn.opcode == op_jmp_rel32))
      (λ branch.
        if-both P (inside func _) (λ _. same)
          (λ _.
            fixup-Outside dest insn.length a h o m kaddr _ _
              (v.immediate_in (opcode insn.opcode branch))))
      (λ _.
        if-both P (not insn.rip_relative) (λ _. same)
          (λ rip.
            if-both P (inside func _) (λ _. same)
              (λ _.
                fixup-Outside dest insn.length a h o m kaddr _ _
                  (v.displacement_in (relative insn.rip_relative rip)))))
  where
    P : Mem → Type 0
    P m' = m' a ≡ m a

    same : memcpy dest kaddr insn.length m a ≡ m a
    same = memcpy-Outside dest kaddr insn.length m a o

    opcode :
        (c : ℕ)
        → ((c == op_call_rel32) || (c == op_jmp_rel32)) ≡ true
        → (c ≡ op_call_rel32) ⊎ (c ≡ op_jmp_rel32)
    opcode c e = ground arith

    relative : (b : Bool) → not b ≡ false → b ≡ true
    relative true e = refl
    relative false e = sym e
