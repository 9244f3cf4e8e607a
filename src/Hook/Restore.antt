-- ===== src/Hook/Restore.antt =====
-- The jump that `symbol_hook` writes leads to the new code, and `symbol_restore` takes it back.
use porteus_gpu.Base.{
  ==→ne, inr, ap, ==→eq, Bool-cases, ltb→lt, inl, write32-Outside, if-both, write32, Mem, memset,
  memset-Outside,
}
use porteus_gpu.Hook.Loop.{copy_code_total, IsDecoder, IsLooped, IsUndecodable, Copied, first}
use porteus_gpu.Hook.Rights.{opened}
use porteus_gpu.Base.{
  ◌∙◌, subst, eilseq, ok, efault, zero, sub64, ◌==◌, ltb, fail, ◌-◌, Errno, add64, suc, Status,
  Outcome, ◌≤◌, ◌⊎◌, sym, refl, arith, add64_small, returns, ◌^◌, true, update, ◌<◌, ◌+◌, ◌≡◌, ℕ,
  some,
}
use porteus_gpu.Hook.{
  malloc_free, after_copy, hook_into, trim_zeros, code_end, write_jump, op_jmp_rel32, op_jmp_size,
  code_offset_from_addr, Kernel, Machine,
}
use porteus_gpu.Symbols.{KernSym}

-- The offset that the jump holds.
abbrev pub jump_offset : KernSym → ℕ → ℕ
jump_offset sym code = code_offset_from_addr sym.addr op_jmp_size code

-- The memory with the jump, and the record that remembers what was there.
abbrev pub jumped : KernSym → ℕ → Mem → Mem
jumped sym code m = write32 (sym.addr + 1) (jump_offset sym code) (update m sym.addr op_jmp_rel32)

abbrev pub hooked : KernSym → Mem → KernSym
hooked sym m = record sym { orig_start_bytes = λ i. m (sym.addr + i); hijacked = true }

module _ (k : Kernel) (sym : KernSym) (pte : ℕ) (code : ℕ) (s : Machine)
    (mapped : k.lookup_address sym.addr ≡ some pte) (fits : sym.addr + 5 < 2 ^ 64) where
  write_jump_lem :
      write_jump k sym code s ≡ returns (hooked sym s.mem, record s { mem = jumped sym code s.mem })
  unfolding write_jump
  write_jump_lem =
      let o = opened k sym.addr pte s mapped in
      rw
        (
          write_jump,
          o.opens,
          add64_small sym.addr 1 (omega arith),
          o.closes (jumped sym code s.mem),
        )
        refl

flip {ℓ} : {A : Type ℓ} {a b : A} → a ≡ b → b ≡ a
flip p = sym p

-- Bytes outside the new buffer, of the symbol's size and 15 more, are as they were.
abbrev pub Kept : ℕ → ℕ → Mem → Mem → Type 0
Kept buf size m m' = (a : ℕ) → (a < buf) ⊎ (buf + size + 15 ≤ a) → m' a ≡ m a

trim_zeros_le : (m : Mem) (orig n : ℕ) → trim_zeros m orig n ≤ n
unfolding trim_zeros
trim_zeros_le m orig zero = omega arith
trim_zeros_le m orig (suc n) =
    let rest = trim_zeros_le m orig n in
    if-both (λ t. t ≤ suc n) (m (orig + n) == 0) (λ _. omega arith) (λ _. omega arith)

code_end_le :
    (k : Kernel) (sym : KernSym) (m : Mem)
    → sym.addr + sym.size < 2 ^ 64
    → code_end k sym m ≤ sym.addr + sym.size
unfolding code_end
code_end_le k sym m h =
    let short = trim_zeros_le m sym.addr (add64 sym.addr sym.size - sym.addr) in
    if-both (λ e. e ≤ sym.addr + sym.size) (ltb sym.addr (add64 sym.addr sym.size))
      (λ _. omega arith) (λ _. omega arith)

-- The bytes that are trimmed are zeros.
trim_zeros_clear :
    (m : Mem) (orig n b : ℕ) → orig + trim_zeros m orig n ≤ b → b < orig + n → m b ≡ 0
unfolding trim_zeros
trim_zeros_clear m orig zero b from to = absurd (omega arith)
trim_zeros_clear m orig (suc n) b from to = elim (Bool-cases (m (orig + n) == 0)) [
  | inl z ↦
      let rest : orig + trim_zeros m orig n ≤ b = rw z at from in
      elim (Bool-cases (b == orig + n)) [
        | inl same ↦ ap m (==→eq _ _ same) ∙ ==→eq _ _ z
        | inr other ↦
            let ne = ==→ne b (orig + n) other in trim_zeros_clear m orig n b rest (omega arith)
      ]
  | inr nz ↦ let none_left : orig + suc n ≤ b = rw nz at from in absurd (omega arith)
]

code_end_clear :
    (k : Kernel) (sym : KernSym) (m : Mem) (b : ℕ)
    → sym.addr + sym.size < 2 ^ 64
    → code_end k sym m ≤ b
    → b < sym.addr + sym.size
    → m b ≡ 0
unfolding code_end
code_end_clear k sym m b fits from to = elim (Bool-cases (ltb sym.addr (add64 sym.addr sym.size))) [
  | inl some_code ↦
      let past : sym.addr + trim_zeros m sym.addr (add64 sym.addr sym.size - sym.addr) ≤ b =
        rw some_code at from in
      trim_zeros_clear m sym.addr (add64 sym.addr sym.size - sym.addr) b past (omega arith)
  | inr empty ↦ absurd (ground (arith, empty))
]

-- Why a function with a buffer is not hooked, by the error: it is shorter than a jump, it has zeros alone,
-- or an instruction of it cannot be decoded.
pub data IsRefusal (k : Kernel) (m : Mem) (addr size : ℕ) : Errno → Type 0 where
  too_short : size < op_jmp_size → IsRefusal k m addr size efault
  only_zeros :
      op_jmp_size ≤ size
      → ((b : ℕ) → addr ≤ b → b < addr + size → m b ≡ 0)
      → IsRefusal k m addr size eilseq
  undecodable :
      op_jmp_size ≤ size → IsUndecodable k m addr (addr + size) → IsRefusal k m addr size eilseq

-- In `m'` the buffer holds, up to `last`, a copy of the function's instructions up to zeros at its end.
pub record IsCopy (k : Kernel) (func : KernSym) (m m' : Mem) (last : ℕ) : Type 0 where
  pub end : ℕ
  pub within : end ≤ func.addr + func.size
  pub zeros : (b : ℕ) → end ≤ b → b < func.addr + func.size → m b ≡ 0
  pub code : Copied k func m m' end last func.addr func.new_addr

IsUndecodable-later :
    {k : Kernel} {m : Mem} {lo a b : ℕ} → a ≤ b → IsUndecodable k m lo a → IsUndecodable k m lo b
IsUndecodable-later le u = record {
  place = u.place;
  starts = u.starts;
  in_code = (let l = u.in_code in omega arith);
  no_length = u.no_length;
}

-- The function and the buffer, with 15 bytes more each, do not overlap.
abbrev pub NoOverlap : ℕ → ℕ → ℕ → Type 0
NoOverlap addr buf size = (addr + size + 15 ≤ buf) ⊎ (buf + size + 15 ≤ addr)

code_end_from :
    (k : Kernel) (sym : KernSym) (m : Mem)
    → sym.addr + sym.size < 2 ^ 64
    → sym.addr ≤ code_end k sym m
unfolding code_end
code_end_from k sym m h =
    if-both (λ e. sym.addr ≤ e) (ltb sym.addr (add64 sym.addr sym.size)) (λ _. omega arith)
      (λ _. omega arith)

module _ (k : Kernel) (sym : KernSym) (pte : ℕ) (code : ℕ) (s : Machine)
    (mapped : k.lookup_address sym.addr ≡ some pte) (decoder : IsDecoder k s.mem sym.addr sym.size)
    (apart : NoOverlap sym.addr sym.new_addr sym.size) (fits : sym.addr + sym.size + 15 < 2 ^ 64)
    (buffer_fits : sym.new_addr + sym.size + 15 < 2 ^ 64) where
  -- How the hooking of a symbol with a buffer ends.
  pub data HookEnd (o : Outcome (Status × KernSym × Machine)) : Type 0 where
    refused :
        (e : Errno) (s' : Machine)
        → o ≡ returns (fail e, sym, malloc_free sym.new_addr s')
        → IsRefusal k s.mem sym.addr sym.size e
        → s'.page_rw ≡ s.page_rw
        → s'.freed ≡ s.freed
        → Kept sym.new_addr sym.size s.mem s'.mem
        → HookEnd o
    installed :
        (last : ℕ) (m : Mem)
        → o
          ≡ returns (
            ok,
            hooked (record sym { new_size = sub64 last sym.new_addr; run = sym.new_addr }) m,
            record s { mem = jumped sym code m },
          )
        → op_jmp_size ≤ sym.size
        → IsCopy k sym s.mem (jumped sym code m) last
        → Kept sym.new_addr sym.size s.mem m
        → HookEnd o

  -- The jump is not in the buffer.
  jumped-buffer :
      (m : Mem) (b : ℕ)
      → sym.new_addr ≤ b
      → b < sym.new_addr + sym.size + 15
      → jumped sym code m b ≡ m b
  jumped-buffer m b from to =
      write32-Outside (sym.addr + 1) (jump_offset sym code) (update m sym.addr op_jmp_rel32) b
        (ground arith)
      ∙ ground arith

  abbrev cleared : Mem
  cleared = memset sym.new_addr 0 sym.size s.mem

  abbrev end_addr : ℕ
  end_addr = code_end k sym cleared

  cleared_code : (b : ℕ) → sym.addr ≤ b → b < sym.addr + sym.size + 15 → cleared b ≡ s.mem b
  cleared_code b from to = memset-Outside sym.new_addr 0 sym.size s.mem b (ground arith)

  end_zeros : (b : ℕ) → end_addr ≤ b → b < sym.addr + sym.size → sym.addr ≤ b → s.mem b ≡ 0
  end_zeros b from to code_from =
      flip (cleared_code b code_from (omega arith))
      ∙ code_end_clear k sym cleared b (omega arith) from to

  after_copy-HookEnd :
      (o : Outcome (Status × ℕ × Mem))
      → op_jmp_size ≤ sym.size
      → sym.addr ≤ end_addr
      → IsLooped k sym s.mem sym.addr sym.size end_addr
          (sym.new_addr + sym.size + 15)
          sym.addr
          sym.new_addr
          cleared
          o
      → HookEnd (after_copy k sym code s o)
  unfolding after_copy
  after_copy-HookEnd o big from c =
      let le = code_end_le k sym cleared (omega arith) in
      let kept : Kept sym.new_addr sym.size s.mem c.result.2 = λ a x.
        c.kept a (omega arith) ∙ memset-Outside sym.new_addr 0 sym.size s.mem a (omega arith) in
      subst (λ r. HookEnd (after_copy k sym code s r)) (flip c.ended)
        (elim c.outcome [
          | inl (bad, place) ↦
              rw (after_copy, bad)
                (refused eilseq (record s { mem = c.result.2 }) refl
                  (undecodable big (IsUndecodable-later le place)) refl refl kept)
          | inr (fine, copied_there) ↦
              let sized = record sym {
                new_size = sub64 c.result.1 sym.new_addr;
                run = sym.new_addr;
              } in
              let jump =
                write_jump_lem k sized pte code (record s { mem = c.result.2 }) mapped
                  (omega arith) in
              rw (after_copy, fine)
                (installed c.result.1 c.result.2 (rw (after_copy, jump) refl) big
                  (record {
                    end = end_addr;
                    within = le;
                    zeros = λ b x y. end_zeros b x y (omega arith);
                    code = copied_there (jumped sym code c.result.2) (jumped-buffer c.result.2);
                  })
                  kept)
        ])

  pub hook_into-HookEnd : (fuel : ℕ) → sym.size < fuel → HookEnd (hook_into k fuel sym code s)
  unfolding hook_into
  hook_into-HookEnd fuel enough =
      let kept : Kept sym.new_addr sym.size s.mem cleared =
        λ a o. memset-Outside sym.new_addr 0 sym.size s.mem a (omega arith) in
      let le = code_end_le k sym cleared (omega arith) in
      if-both HookEnd (ltb sym.size op_jmp_size)
        (λ small.
          refused efault (record s { mem = cleared }) refl (too_short (ltb→lt _ _ small)) refl refl
            kept)
        (λ big.
          let long : op_jmp_size ≤ sym.size = ground (arith, big) in
          let from = code_end_from k sym cleared (omega arith) in
          if-both HookEnd (sym.addr == end_addr)
            (λ empty.
              let at = ==→eq sym.addr end_addr empty in
              refused eilseq (record s { mem = cleared }) refl
                (only_zeros long (λ b x y. end_zeros b (omega arith) y x)) refl refl kept)
            (λ _. after_copy-HookEnd _ long from (
              copy_code_total k sym s.mem sym.addr sym.size end_addr (sym.new_addr + sym.size + 15)
                decoder le fits buffer_fits sym.new_addr (ground arith) fuel sym.addr sym.new_addr
                cleared first (omega arith) (omega arith) (omega arith) (λ _. omega arith)
                cleared_code)))
