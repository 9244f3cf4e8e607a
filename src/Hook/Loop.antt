-- ===== src/Hook/Loop.antt =====
-- The loop of `symbol_hook` that copies the instructions ends, and what it leaves.
use porteus_gpu.Hook.Copied.{IsCopyOf, IsCopyOf-same, copy_and_fixup_insn-IsCopyOf}
use porteus_gpu.Hook.Copy.{IsInsn, copy_and_fixup_insn-Outside}
use porteus_gpu.Symbols.{KernSym}
use porteus_gpu.Hook.{copy_code, copy_and_fixup_insn, Kernel}
use porteus_gpu.Base.{
  refl, zero, ==→ne, ==→eq, ◌==◌, ltb→lt, ltb, inr, Bool-cases, inl, ok, eilseq, suc, ◌∙◌, arith,
  ◌-◌, fail, ◌⊎◌, returns, ◌^◌, ◌≢◌, ◌+◌, ◌≡◌, Status, Outcome, ◌≤◌, add64, ◌<◌, Mem, ℕ,
}

-- Where an instruction starts, in the code at `lo` of memory `m`.
pub data Start (k : Kernel) (m : Mem) (lo : ℕ) : ℕ → Type 0 where
  first : Start k m lo lo
  after : (a : ℕ) → Start k m lo a → Start k m lo (add64 a (k.decode m a).length)

-- The decoder on the instructions of the function of `size` bytes at `lo`: they have at most 15 bytes, with
-- their fields in them, and it reads them alike in memories that agree on the function and 15 bytes more.
pub record IsDecoder (k : Kernel) (m : Mem) (lo size : ℕ) : Type 0 where
  pub short : (a : ℕ) → Start k m lo a → a < lo + size → (k.decode m a).length ≤ 15
  pub valid :
      (a : ℕ) → Start k m lo a → a < lo + size → (k.decode m a).length ≢ 0 → IsInsn (k.decode m a)
  pub alike :
      (m' : Mem) (a : ℕ)
      → Start k m lo a
      → a < lo + size
      → ((b : ℕ) → lo ≤ b → b < lo + size + 15 → m' b ≡ m b)
      → k.decode m' a ≡ k.decode m a

-- In `m'`, from `dest` to `last`, a copy of each instruction that starts in `m` from `orig` to before `end`.
pub data Copied (k : Kernel) (func : KernSym) (m m' : Mem) (end last : ℕ) : ℕ → ℕ → Type 0 where
  done : {orig : ℕ} → end ≤ orig → Copied k func m m' end last orig last
  copied :
      {orig dest : ℕ}
      → orig < end
      → (k.decode m orig).length ≢ 0
      → IsCopyOf (k.decode m orig) orig dest func m m'
      → Copied k func m m' end last
          (add64 orig (k.decode m orig).length)
          (add64 dest (k.decode m orig).length)
      → Copied k func m m' end last orig dest

-- The decoder finds no instruction where one should start.
pub record IsUndecodable (k : Kernel) (m : Mem) (lo end : ℕ) : Type 0 where
  pub place : ℕ
  pub starts : Start k m lo place
  pub in_code : place < end
  pub no_length : (k.decode m place).length ≡ 0

module _ (k : Kernel) (func : KernSym) (m₀ : Mem) (lo size end hi : ℕ) where
  -- The loop has ended: the area from `dest` to `hi` alone is written, and the copy is there in every memory
  -- that agrees with the result on it, or an instruction cannot be decoded.
  pub record IsLooped (orig dest : ℕ) (m : Mem) (o : Outcome (Status × ℕ × Mem)) : Type 0 where
    pub result : Status × ℕ × Mem
    pub ended : o ≡ returns result
    pub kept : (a : ℕ) → (a < dest) ⊎ (hi ≤ a) → result.2 a ≡ m a
    pub outcome :
        ((result.0 ≡ fail eilseq) × IsUndecodable k m₀ lo end)
        ⊎ ((result.0 ≡ ok)
            × ((m' : Mem)
                → ((b : ℕ) → dest ≤ b → b < hi → m' b ≡ result.2 b)
                → Copied k func m₀ m' end result.1 orig dest))

  module _ (decoder : IsDecoder k m₀ lo size) (whole : end ≤ lo + size)
      (low : lo + size + 15 < 2 ^ 64) (high : hi < 2 ^ 64) (buf : ℕ)
      (apart : (lo + size + 15 ≤ buf) ⊎ (hi ≤ lo)) where
    -- One instruction more, before the rest.
    IsLooped-copied :
        (orig dest : ℕ) (m : Mem) (o : Outcome (Status × ℕ × Mem))
        → Start k m₀ lo orig
        → lo ≤ orig
        → orig < end
        → (k.decode m₀ orig).length ≢ 0
        → buf ≤ dest
        → dest + 15 ≤ hi
        → ((b : ℕ) → lo ≤ b → b < lo + size + 15 → m b ≡ m₀ b)
        → IsLooped
            (add64 orig (k.decode m₀ orig).length)
            (add64 dest (k.decode m₀ orig).length)
            (copy_and_fixup_insn (k.decode m₀ orig) orig dest func m)
            o
        → IsLooped orig dest m o
    IsLooped-copied orig dest m o st from lt ne above room agree c =
        let insn = k.decode m₀ orig in
        let short = decoder.short orig st (omega arith) in
        let v = decoder.valid orig st (omega arith) ne in
        let m₁ = copy_and_fixup_insn insn orig dest func m in
        record {
          result = c.result;
          ended = c.ended;
          kept = λ a x.
              c.kept a (omega arith)
              ∙ copy_and_fixup_insn-Outside insn orig dest func m a v (omega arith) (omega arith);
          outcome = elim c.outcome [
            | inl bad ↦ inl bad
            | inr (fine, rest) ↦ inr (
              fine,
              λ m' same.
                  copied lt ne
                    (IsCopyOf-same insn orig dest func m m₀ m₁ m' v
                      (λ i l. agree (orig + i) (omega arith) (omega arith))
                      (λ i l.
                        same (dest + i) (omega arith) (omega arith)
                        ∙ c.kept (dest + i) (omega arith))
                      (copy_and_fixup_insn-IsCopyOf insn orig dest func v (omega arith) m))
                    (rest m' (λ b x y. same b (omega arith) y)),
            )
          ];
        }

    -- The loop that copies the code ends, with fuel for a round per byte.
    pub copy_code_total :
        (fuel orig dest : ℕ) (m : Mem)
        → Start k m₀ lo orig
        → lo ≤ orig
        → end - orig < fuel
        → buf ≤ dest
        → (orig < end → dest + (end - orig) + 15 ≤ hi)
        → ((b : ℕ) → lo ≤ b → b < lo + size + 15 → m b ≡ m₀ b)
        → IsLooped orig dest m (copy_code k fuel func orig dest end m)
    unfolding copy_code
    copy_code_total zero orig dest m st from f above room agree = absurd (omega arith)
    copy_code_total (suc fuel) orig dest m st from f above room agree =
        elim (Bool-cases (ltb orig end)) [
          | inr past ↦
              rw (past, copy_code)
                (record {
                  result = (ok, dest, m);
                  ended = refl;
                  kept = λ a x. refl;
                  outcome = inr (refl, λ m' same. done (ground (arith, past)));
                })
          | inl more ↦
              let lt = ltb→lt orig end more in
              let eq = decoder.alike m orig st (omega arith) agree in
              elim (Bool-cases ((k.decode m₀ orig).length == 0)) [
                | inl z ↦
                    rw (more, eq, z, copy_code)
                      (record {
                        result = (fail eilseq, dest, m);
                        ended = refl;
                        kept = λ a x. refl;
                        outcome = inl (
                          refl,
                          record {
                            place = orig;
                            starts = st;
                            in_code = lt;
                            no_length = ==→eq _ _ z;
                          },
                        );
                      })
                | inr nz ↦
                    let insn = k.decode m₀ orig in
                    let ne = ==→ne insn.length 0 nz in
                    let short = decoder.short orig st (omega arith) in
                    let v = decoder.valid orig st (omega arith) ne in
                    let fits = room lt in
                    rw (more, eq, nz, copy_code)
                      (IsLooped-copied orig dest m _ st from lt ne above (omega arith) agree (
                        copy_code_total fuel (add64 orig insn.length) (add64 dest insn.length)
                          (copy_and_fixup_insn insn orig dest func m) (after orig st) (omega arith)
                          (omega arith) (omega arith) (λ q. omega arith)
                          (λ b x y.
                            copy_and_fixup_insn-Outside insn orig dest func m b v (omega arith)
                              (omega arith)
                            ∙ agree b x y)))
              ]
        ]
