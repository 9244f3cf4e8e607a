-- ===== src/PageWalk/Blocks.antt =====
-- The blocks of addresses that an entry of each level of the page tables covers.
use porteus_gpu.Base.{ltb, if◌then◌else◌, ◌+◌, suc, ◌*◌, arith, ◌≡◌, ◌^◌, ◌/◌, ◌<◌, ◌≤◌, ℕ}

-- What an entry of each level covers.
abbrev pub pgd_size : ℕ
pgd_size = 2 ^ 39

abbrev pub pud_size : ℕ
pud_size = 2 ^ 30

abbrev pub pmd_size : ℕ
pmd_size = 2 ^ 21

-- User addresses end here.
abbrev pub user_end : ℕ
user_end = 2 ^ 47

-- The start of the next block, or the end of the range.
abbrev pub block_end : ℕ → ℕ → ℕ → ℕ
block_end size a e = let boundary = a / size * size + size in if ltb boundary e then boundary else e

-- The addresses from a up to e lie in one block.
abbrev pub OneBlock : ℕ → ℕ → ℕ → Type 0
OneBlock size a e = e ≤ a / size * size + size

pub pgd_block : (a c e : ℕ) → a ≤ c → c < e → OneBlock pgd_size a e → a / pgd_size ≡ c / pgd_size
pgd_block a c e h l o = omega arith

pub pud_block : (a c e : ℕ) → a ≤ c → c < e → OneBlock pud_size a e → a / pud_size ≡ c / pud_size
pud_block a c e h l o = omega arith

pub pmd_block : (a c e : ℕ) → a ≤ c → c < e → OneBlock pmd_size a e → a / pmd_size ≡ c / pmd_size
pmd_block a c e h l o = omega arith

-- A block that ends before the range does is followed by the next.
pub record NextBlock (size a e b : ℕ) : Type 0 where
  pub above : a ≤ b
  pub one : OneBlock size a b
  pub next : b < e → b / size ≡ suc (a / size)

pub pgd-NextBlock : (a e : ℕ) → a < e → NextBlock pgd_size a e (block_end pgd_size a e)
pgd-NextBlock a e h = record { above = ground arith; one = ground arith; next = λ l. ground arith }

pub pud-NextBlock : (a e : ℕ) → a < e → NextBlock pud_size a e (block_end pud_size a e)
pud-NextBlock a e h = record { above = ground arith; one = ground arith; next = λ l. ground arith }

pub pmd-NextBlock : (a e : ℕ) → a < e → NextBlock pmd_size a e (block_end pmd_size a e)
pmd-NextBlock a e h = record { above = ground arith; one = ground arith; next = λ l. ground arith }
