-- ===== src/Symbols.antt =====
-- togpu/driver/xt_TOGPU_symbols.c, for kernels from 2.6.30 on: a symbol of the kernel is found by name
-- in one pass over all symbols; the symbol after it gives its end.
pub mod Lookup
pub mod Address
mod Tests
use porteus_gpu.Base.{
  ◌+◌, length, not, waits, fault, returns, Outcome, ◌&&◌, ◌==◌, ◌∷◌, [], efault, fail, ok, none,
  false, true, some, if◌then◌else◌, Status, Bool, ℕ, sub64, Option, List,
}

-- `struct kernsym` of xt_TOGPU.h. `name` is the string, `none` for a NULL pointer; `orig_start_bytes` is
-- an array of five bytes.
pub record KernSym : Type 0 where
  pub addr : ℕ
  pub end_addr : ℕ
  pub size : ℕ
  pub name : Option (List ℕ)
  pub name_alloc : Bool
  pub orig_start_bytes : ℕ → ℕ
  pub new_addr : ℕ
  pub new_size : ℕ
  pub found : Bool
  pub hijacked : Bool
  pub run : ℕ

-- A symbol of the kernel: its name and its address.
pub record Symbol : Type 0 where
  pub name : Option (List ℕ)
  pub addr : ℕ

-- `!strcmp(a, b)`
unfoldable pub same_name : List ℕ → List ℕ → Bool
same_name [] [] = true
same_name [] (b ∷ q) = false
same_name (a ∷ p) [] = false
same_name (a ∷ p) (b ∷ q) = (a == b) && same_name p q

-- `name && sym->name && !strcmp(name, sym->name)`
unfoldable pub names : Option (List ℕ) → Option (List ℕ) → Bool
names (some a) (some b) = same_name a b
names (some a) none = false
names none b = false

-- `find_symbol_callback`: the result, and the record.
unfoldable pub find_symbol_callback : KernSym → Option (List ℕ) → ℕ → Bool × KernSym
find_symbol_callback sym name addr =
    if sym.found
    then (true, record sym { end_addr = addr })
    else if names name sym.name
    then (false, record sym { addr = addr; found = true })
    else (false, sym)

-- What the lookup takes from the pass: the size, and the symbol's own code as the one to run.
abbrev pub measured : KernSym → KernSym
measured sym =
    let size = sub64 sym.end_addr sym.addr in
    record sym { size = size; new_size = size; run = sym.addr }

-- `kallsyms_on_each_symbol` of the kernel: it calls back on one symbol after another, until a call
-- returns something else than 0, and returns what the last call returned; its data is the record.
abbrev pub Callback : Type 0
Callback = KernSym → Option (List ℕ) → ℕ → Bool × KernSym

abbrev pub Iterator : Type 0
Iterator = Callback → KernSym → Bool × KernSym

module _ (kallsyms_on_each_symbol : Iterator) where
  -- `find_symbol_address`
  unfoldable pub find_symbol_address : KernSym → List ℕ → Status × KernSym
  find_symbol_address sym symbol_name =
      let start = record sym { name = some symbol_name; found = false } in
      let (ret, sym₁) = kallsyms_on_each_symbol find_symbol_callback start in
      if ret then (ok, measured sym₁) else (fail efault, sym₁)

-- The copy of the name that `malloc` has room for, by its size.
unfoldable pub named : (ℕ → Bool) → KernSym → Option (List ℕ) → Outcome (Bool × KernSym)
named malloc sym none = fault
named malloc sym (some text) =
    if malloc (length text + 1)
    then returns (false, record sym { name = some text; name_alloc = true; found = true })
    else fault

-- `find_address_callback`, with the sizes that `malloc` has memory for.
unfoldable pub find_address_callback :
    (ℕ → Bool) → KernSym → Option (List ℕ) → ℕ → Outcome (Bool × KernSym)
find_address_callback malloc sym name addr =
    if sym.found
    then returns (true, record sym { end_addr = addr })
    else if not (addr == 0) && (sym.addr == addr)
    then named malloc sym name
    else returns (false, sym)

-- `kallsyms_on_each_symbol` with a call that may dereference NULL.
abbrev pub FaultyCallback : Type 0
FaultyCallback = KernSym → Option (List ℕ) → ℕ → Outcome (Bool × KernSym)

abbrev pub FaultyIterator : Type 0
FaultyIterator = FaultyCallback → KernSym → Outcome (Bool × KernSym)

-- What follows the pass in `find_address_symbol`.
unfoldable pub after_pass : Outcome (Bool × KernSym) → Outcome (Status × KernSym)
after_pass (returns (true, sym)) = returns (ok, measured sym)
after_pass (returns (false, sym)) = returns (fail efault, sym)
after_pass waits = waits
after_pass fault = fault

module _ (malloc : ℕ → Bool) (kallsyms_on_each_symbol : FaultyIterator) where
  -- `find_address_symbol`
  unfoldable pub find_address_symbol : KernSym → ℕ → Outcome (Status × KernSym)
  find_address_symbol sym addr = after_pass (
      kallsyms_on_each_symbol (find_address_callback malloc)
        (record sym { found = false; addr = addr }))
