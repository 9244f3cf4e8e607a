-- ===== src/Symbols/Lookup.antt =====
-- What `find_symbol_address` finds: the first symbol of the name, and the symbol after it.
use porteus_gpu.Base.{
  sub64, efault, fail, ok, sym, subst, ◌∙◌, arith, ==→eq, none, ap, inr, inl, ◌⊎◌, ◌==◌, Bool-cases,
  eq→==, refl, ◌≢◌, [], ◌∷◌, false, some, true, ◌≡◌, Option, ℕ, List,
}
use porteus_gpu.Symbols.{
  find_symbol_address, find_symbol_callback, KernSym, Callback, names, Symbol, Iterator, same_name,
}

-- The calls that the kernel makes for a list of symbols.
unfoldable pub call_each : List Symbol → Iterator
call_each [] f s = (false, s)
call_each (y ∷ ys) f s =
    let (stop, s₁) = f s y.name y.addr in
    elim stop [ true ↦ (true, s₁) | false ↦ call_each ys f s₁ ]

-- The symbols of the kernel are these, in this order.
abbrev pub Iterates : Iterator → List Symbol → Type 0
Iterates each symbols = (f : Callback) (s : KernSym) → each f s ≡ call_each symbols f s

-- `s` is the first symbol that `P` holds of, and `t` comes straight after it.
pub data FirstWhere (P : Symbol → Type 0) : List Symbol → Symbol → Symbol → Type 0 where
  first : {s t : Symbol} {rest : List Symbol} → P s → FirstWhere P (s ∷ t ∷ rest) s t
  skipped :
      {y s t : Symbol} {rest : List Symbol}
      → ¬ P y
      → FirstWhere P rest s t
      → FirstWhere P (y ∷ rest) s t

-- `s` is the first symbol of the name.
abbrev pub First : List ℕ → List Symbol → Symbol → Symbol → Type 0
First name = FirstWhere (λ s. s.name ≡ some name)

module _ {P : Symbol → Type 0} where
  pub First-empty : (s t : Symbol) → ¬ FirstWhere P [] s t
  First-empty s t f = elim f [ ]

  pub First-alone : (y : Symbol) → P y → (s t : Symbol) → ¬ FirstWhere P (y ∷ []) s t
  First-alone y e s t (skipped ne f) = First-empty s t f

  pub First-skipped :
      {y s t : Symbol} {ys : List Symbol}
      → ¬ P y
      → ¬ FirstWhere P ys s t
      → ¬ FirstWhere P (y ∷ ys) s t
  First-skipped ne absent (first e) = absurd (ne e)
  First-skipped ne absent (skipped _ f) = absent f

same_name_refl : (a : List ℕ) → same_name a a ≡ true
unfolding same_name
same_name_refl [] = refl
same_name_refl (x ∷ a) = rw (same_name_refl a, eq→== x x refl) refl

same_name→eq : (a b : List ℕ) → same_name a b ≡ true → a ≡ b
unfolding same_name
same_name→eq [] [] h = refl
same_name→eq [] (y ∷ b) h = ground arith
same_name→eq (x ∷ a) [] h = ground arith
same_name→eq (x ∷ a) (y ∷ b) h = elim (Bool-cases (x == y)) [
  | inl e ↦ elim (Bool-cases (same_name a b)) [
    | inl r ↦ rw (==→eq x y e, same_name→eq a b r) refl
    | inr r ↦ grind arith
  ]
  | inr n ↦ grind arith
]

same_name-differs : (a b : List ℕ) → same_name a b ≡ false → a ≢ b
same_name-differs a b n e =
    grind (arith, same_name_refl a, subst (λ c. same_name a c ≡ false) (sym e) n)

-- The test of the names is equality with a name that is there.
names-cases :
    (o : Option (List ℕ)) (name : List ℕ)
    → ((o ≡ some name) × (names o (some name) ≡ true))
      ⊎ ((o ≢ some name) × (names o (some name) ≡ false))
unfolding names
names-cases none name = inr (grind arith, refl)
names-cases (some a) name = elim (Bool-cases (same_name a name)) [
  | inl e ↦ inl (ap some (same_name→eq a name e), e)
  | inr n ↦ inr (λ e. same_name-differs a name n (ap (λ o. elim o [ none ↦ [] | some x ↦ x ]) e), n)
]

-- After the symbol is found, the next call stops the pass.
call_each_found :
    (symbols : List Symbol) (t : Symbol) (sym : KernSym)
    → sym.found ≡ true
    → call_each (t ∷ symbols) find_symbol_callback sym ≡ (true, record sym { end_addr = t.addr })
unfolding call_each find_symbol_callback
call_each_found symbols t sym h = rw h refl

-- What the record becomes when the symbol and its successor are there.
abbrev pub located : KernSym → Symbol → Symbol → KernSym
located sym s t = record sym { addr = s.addr; found = true; end_addr = t.addr }

call_each_on :
    (y : Symbol) (ys : List Symbol) (s s' : KernSym)
    → find_symbol_callback s y.name y.addr ≡ (false, s')
    → call_each (y ∷ ys) find_symbol_callback s ≡ call_each ys find_symbol_callback s'
unfolding call_each
call_each_on y ys s s' e =
    ap (λ r. elim r.0 [ true ↦ (true, r.1) | false ↦ call_each ys find_symbol_callback r.1 ]) e

module _ (name : List ℕ) (sym : KernSym) where
  -- The record as the pass begins.
  abbrev pub sought : KernSym
  sought = record sym { name = some name; found = false }

  call_each_match :
      (y : Symbol) (ys : List Symbol)
      → names y.name (some name) ≡ true
      → call_each (y ∷ ys) find_symbol_callback sought
        ≡ call_each ys find_symbol_callback (record sought { addr = y.addr; found = true })
  unfolding find_symbol_callback
  call_each_match y ys n = call_each_on y ys sought _ (callback y n)
    where
      callback :
          (y : Symbol)
          → names y.name (some name) ≡ true
          → find_symbol_callback sought y.name y.addr
            ≡ (false, record sought { addr = y.addr; found = true })
      callback y n = rw n refl

  call_each_other :
      (y : Symbol) (ys : List Symbol)
      → names y.name (some name) ≡ false
      → call_each (y ∷ ys) find_symbol_callback sought ≡ call_each ys find_symbol_callback sought
  unfolding find_symbol_callback
  call_each_other y ys n = call_each_on y ys sought _ (callback y n)
    where
      callback :
          (y : Symbol)
          → names y.name (some name) ≡ false
          → find_symbol_callback sought y.name y.addr ≡ (false, sought)
      callback y n = rw n refl

  -- The pass stops at the successor of the first symbol of the name, or there is no such pair.
  pub data Pass (symbols : List Symbol) : Type 0 where
    hit :
        (s t : Symbol)
        → First name symbols s t
        → call_each symbols find_symbol_callback sought ≡ (true, located sought s t)
        → Pass symbols
    miss :
        ((s t : Symbol) → ¬ First name symbols s t)
        → (call_each symbols find_symbol_callback sought).0 ≡ false
        → Pass symbols

  Pass-matched :
      (y : Symbol) (ys : List Symbol)
      → y.name ≡ some name
      → names y.name (some name) ≡ true
      → Pass (y ∷ ys)
  unfolding call_each
  Pass-matched y [] e n = miss (First-alone y e) (rw (call_each_match y [] n) refl)
  Pass-matched y (t ∷ ys) e n = hit y t (first e) (
      call_each_match y (t ∷ ys) n
      ∙ call_each_found ys t (record sought { addr = y.addr; found = true }) refl)

  Pass-skipped :
      (y : Symbol) (ys : List Symbol)
      → y.name ≢ some name
      → names y.name (some name) ≡ false
      → Pass ys
      → Pass (y ∷ ys)
  Pass-skipped y ys ne n (hit s t found run) =
      hit s t (skipped ne found) (call_each_other y ys n ∙ run)
  Pass-skipped y ys ne n (miss none_there run) =
      miss (λ s t. First-skipped ne (none_there s t)) (rw (call_each_other y ys n) run)

  pass : (symbols : List Symbol) → Pass symbols
  unfolding call_each
  pass [] = miss First-empty refl
  pass (y ∷ ys) = elim (names-cases y.name name) [
    | inl same ↦ Pass-matched y ys same.0 same.1
    | inr other ↦ Pass-skipped y ys other.0 other.1 (pass ys)
  ]

module _ (each : Iterator) (symbols : List Symbol) where
  -- What the lookup of a name returns.
  pub data Lookup (name : List ℕ) (sym : KernSym) : Type 0 where
    located_at :
        (s t : Symbol)
        → First name symbols s t
        → find_symbol_address each sym name ≡ (
          ok,
          record (located (sought name sym) s t) {
            size = sub64 t.addr s.addr;
            new_size = sub64 t.addr s.addr;
            run = s.addr;
          },
        )
        → Lookup name sym
    unknown :
        ((s t : Symbol) → ¬ First name symbols s t)
        → (find_symbol_address each sym name).0 ≡ fail efault
        → Lookup name sym

  -- If the kernel calls back on a list of symbols in order, the lookup of a name either finds the
  -- first symbol of that name, takes the address of the symbol straight after it as its end, this
  -- address less the symbol's own as its size, and the symbol's address as what is run, or
  -- returns -EFAULT, and then no first symbol of that name has a successor.
  pub find_symbol_address_lem :
      Iterates each symbols → (sym : KernSym) (name : List ℕ) → Lookup name sym
  unfolding find_symbol_address
  find_symbol_address_lem iterates sym name = elim (pass name sym symbols) [
    | hit s t found run ↦
        located_at s t found (rw (iterates find_symbol_callback (sought name sym), run) refl)
    | miss absent run ↦
        unknown absent (rw (iterates find_symbol_callback (sought name sym), run) refl)
  ]
