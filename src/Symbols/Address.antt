-- ===== src/Symbols/Address.antt =====
-- What `find_address_symbol` finds: the first symbol at the address, and the symbol after it.
use porteus_gpu.Symbols.Lookup.{FirstWhere, First-empty, First-alone, First-skipped, first, skipped}
use porteus_gpu.Symbols.{
  Symbol, KernSym, FaultyIterator, FaultyCallback, find_address_symbol, find_address_callback,
  named, after_pass,
}
use porteus_gpu.Base.{
  sub64, ◌+◌, length, eq→==, ◌∙◌, sym, ne→==, ==→ne, inr, ==→eq, inl, ◌==◌, efault, refl,
  Bool-cases, fault, fail, ◌≢◌, [], some, false, waits, true, ok, ◌∷◌, returns, ◌≡◌, Bool, Outcome,
  List, ℕ,
}

unfoldable pub after_call :
    Outcome (Bool × KernSym) → (KernSym → Outcome (Bool × KernSym)) → Outcome (Bool × KernSym)
after_call (returns (true, s)) go_on = returns (true, s)
after_call (returns (false, s)) go_on = go_on s
after_call waits go_on = waits
after_call fault go_on = fault

-- The calls that the kernel makes for a list of symbols.
unfoldable pub call_on_each : List Symbol → FaultyIterator
call_on_each [] f s = returns (false, s)
call_on_each (y ∷ ys) f s = after_call (f s y.name y.addr) (call_on_each ys f)

-- The symbols of the kernel are these, in this order, and each has a name.
abbrev pub IteratesAll : FaultyIterator → List Symbol → Type 0
IteratesAll each symbols = (f : FaultyCallback) (s : KernSym) → each f s ≡ call_on_each symbols f s

abbrev pub AllNamed : List Symbol → Type 0
AllNamed [] = Unit {0}
AllNamed (y ∷ ys) = ((text : List ℕ) × (y.name ≡ some text)) × AllNamed ys

module _ (malloc : ℕ → Bool) (grants : (n : ℕ) → malloc n ≡ true) (a : ℕ) (there : a ≢ 0)
    (ks : KernSym) where
  -- The record as the pass begins.
  abbrev pub sought_at : KernSym
  sought_at = record ks { found = false; addr = a }

  -- The record after the callback on the symbol.
  abbrev pub met : Symbol → KernSym
  met s = record sought_at { name = s.name; name_alloc = true; found = true }

  call_matching :
      (y : Symbol) (text : List ℕ)
      → y.name ≡ some text
      → y.addr ≡ a
      → find_address_callback malloc sought_at y.name y.addr ≡ returns (false, met y)
  unfolding find_address_callback named
  call_matching y text e at =
      rw
        (
          ne→== y.addr 0 (λ zero_addr. there (sym at ∙ zero_addr)),
          eq→== a y.addr (sym at),
          e,
          grants (length text + 1),
        )
        refl

  call_other :
      (y : Symbol)
      → y.addr ≢ a
      → find_address_callback malloc sought_at y.name y.addr ≡ returns (false, sought_at)
  unfolding find_address_callback
  call_other y ne = elim (Bool-cases (y.addr == 0)) [
    | inl null ↦ rw null refl
    | inr some_addr ↦ rw (some_addr, ne→== a y.addr (λ e. ne (sym e))) refl
  ]

  call_after :
      (y t : Symbol)
      → find_address_callback malloc (met y) t.name t.addr
        ≡ returns (true, record (met y) { end_addr = t.addr })
  unfolding find_address_callback
  call_after y t = refl

  -- The pass stops at the successor of the first symbol at the address, or there is no such pair.
  pub data AddressPass (symbols : List Symbol) : Type 0 where
    hit :
        (s t : Symbol)
        → FirstWhere (λ y. y.addr ≡ a) symbols s t
        → call_on_each symbols (find_address_callback malloc) sought_at
          ≡ returns (true, record (met s) { end_addr = t.addr })
        → AddressPass symbols
    miss :
        ((s t : Symbol) → ¬ FirstWhere (λ y. y.addr ≡ a) symbols s t)
        → (s : KernSym)
        → call_on_each symbols (find_address_callback malloc) sought_at ≡ returns (false, s)
        → AddressPass symbols

  AddressPass-matched :
      (y : Symbol) (ys : List Symbol) (text : List ℕ)
      → y.name ≡ some text
      → y.addr ≡ a
      → AddressPass (y ∷ ys)
  unfolding call_on_each after_call
  AddressPass-matched y [] text e at =
      miss (First-alone y at) (met y) (rw (call_matching y text e at) refl)
  AddressPass-matched y (t ∷ ys) text e at =
      hit y t (first at) (rw (call_matching y text e at, call_after y t) refl)

  AddressPass-skipped :
      (y : Symbol) (ys : List Symbol) → y.addr ≢ a → AddressPass ys → AddressPass (y ∷ ys)
  unfolding call_on_each after_call
  AddressPass-skipped y ys ne (hit s t found run) =
      hit s t (skipped ne found) (rw (call_other y ne) run)
  AddressPass-skipped y ys ne (miss absent s run) =
      miss (λ s t. First-skipped ne (absent s t)) s (rw (call_other y ne) run)

  address_pass : (symbols : List Symbol) → AllNamed symbols → AddressPass symbols
  unfolding call_on_each
  address_pass [] all = miss First-empty sought_at refl
  address_pass (y ∷ ys) ((text, e), all) = elim (Bool-cases (y.addr == a)) [
    | inl same ↦ AddressPass-matched y ys text e (==→eq y.addr a same)
    | inr other ↦ AddressPass-skipped y ys (==→ne y.addr a other) (address_pass ys all)
  ]

module _ (malloc : ℕ → Bool) (each : FaultyIterator) (symbols : List Symbol) where
  -- What the lookup of an address returns.
  pub data AddressLookup (a : ℕ) (sym : KernSym) : Type 0 where
    named_at :
        (s t : Symbol)
        → FirstWhere (λ y. y.addr ≡ a) symbols s t
        → find_address_symbol malloc each sym a
          ≡ returns (
            ok,
            record sym {
              addr = a;
              name = s.name;
              name_alloc = true;
              found = true;
              end_addr = t.addr;
              size = sub64 t.addr a;
              new_size = sub64 t.addr a;
              run = a;
            },
          )
        → AddressLookup a sym
    nowhere :
        ((s t : Symbol) → ¬ FirstWhere (λ y. y.addr ≡ a) symbols s t)
        → (s : KernSym) → find_address_symbol malloc each sym a ≡ returns (fail efault, s)
        → AddressLookup a sym

  -- If the kernel calls back on a list of named symbols in order, and there is memory for each name,
  -- the lookup of an address that is not 0 either finds the first symbol at that address, copies its
  -- name, and takes the address of the symbol straight after it as its end, or returns -EFAULT, and
  -- then no first symbol at that address has a successor.
  pub find_address_symbol_lem :
      IteratesAll each symbols
      → AllNamed symbols
      → ((n : ℕ) → malloc n ≡ true)
      → (sym : KernSym) (a : ℕ) → a ≢ 0
      → AddressLookup a sym
  unfolding find_address_symbol after_pass
  find_address_symbol_lem iterates all grants sym a there =
      elim (address_pass malloc grants a there sym symbols all) [
        | hit s t found run ↦ named_at s t found (
            rw
              (
                iterates (find_address_callback malloc) (record sym { found = false; addr = a }),
                run,
              )
              refl)
        | miss absent s run ↦ nowhere absent s (
            rw
              (
                iterates (find_address_callback malloc) (record sym { found = false; addr = a }),
                run,
              )
              refl)
      ]
