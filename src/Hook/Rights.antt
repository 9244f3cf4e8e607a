-- ===== src/Hook/Rights.antt =====
-- The page that is made writable for a store has its old rights after it.
use porteus_gpu.Base.{
  Mem, refl, update_same, update-update, update, true, inr, false, inl, returns, Bool-cases, ◌≡◌,
  Bool, ℕ, some,
}
use porteus_gpu.Hook.{Kernel, Machine, set_addr_rw, set_addr_ro}

-- A store of the whole memory between `set_addr_rw` and `set_addr_ro`.
pub record Opened (k : Kernel) (addr : ℕ) (s : Machine) : Type 0 where
  pub flag : Bool
  pub rights : ℕ → Bool
  pub opens : set_addr_rw k addr s ≡ returns (flag, record s { page_rw = rights })
  pub closes :
      (m : Mem)
      → set_addr_ro k addr flag (record s { page_rw = rights; mem = m })
        ≡ returns (record s { mem = m })

pub opened :
    (k : Kernel) (addr pte : ℕ) (s : Machine) → k.lookup_address addr ≡ some pte → Opened k addr s
unfolding set_addr_rw set_addr_ro
opened k addr pte s found = elim (Bool-cases (s.page_rw pte)) [
  | inl w ↦ record {
    flag = false;
    rights = s.page_rw;
    opens = rw (set_addr_rw, found, w) refl;
    closes = λ m. refl;
  }
  | inr w ↦ record {
    flag = true;
    rights = update s.page_rw pte true;
    opens = rw (set_addr_rw, found, w) refl;
    closes = λ m.
        rw
          (
            set_addr_ro,
            found,
            update-update s.page_rw pte true false,
            update_same s.page_rw pte false w,
          )
          refl;
  }
]
