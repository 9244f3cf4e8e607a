-- ===== src/Symbols/Tests.antt =====
-- A kernel of three symbols.
use porteus_gpu.Symbols.Address.{after_call, call_on_each}
use porteus_gpu.Symbols.Lookup.{sought, located, find_symbol_address_lem, call_each, Lookup}
use porteus_gpu.Base.{
  returns, fault, length, true, efault, ok, fail, ◌≡◌, refl, ◌∷◌, false, ℕ, List, none, some, [],
}
use porteus_gpu.Symbols.{
  after_pass, named, find_address_callback, find_address_symbol, measured, same_name, names, Symbol,
  find_symbol_callback, find_symbol_address, KernSym,
}

abbrev blank : KernSym
blank = record {
  addr = 0;
  end_addr = 0;
  size = 0;
  name = none;
  name_alloc = false;
  orig_start_bytes = λ _. 0;
  new_addr = 0;
  new_size = 0;
  found = false;
  hijacked = false;
  run = 0;
}

abbrev symbol_at : ℕ → ℕ → Symbol
symbol_at c a = record { name = some (c ∷ []); addr = a }

abbrev three : List Symbol
three = symbol_at 97 1000 ∷ symbol_at 98 1016 ∷ symbol_at 99 1048 ∷ []

find_b :
    find_symbol_address (call_each three) blank (98 ∷ [])
    ≡ (ok, measured (located (sought (98 ∷ []) blank) (symbol_at 98 1016) (symbol_at 99 1048)))
unfolding find_symbol_address find_symbol_callback call_each names same_name
find_b = refl

find_last : (find_symbol_address (call_each three) blank (99 ∷ [])).0 ≡ fail efault
unfolding find_symbol_address find_symbol_callback call_each names same_name
find_last = refl

find_symbol_address_lem_example : Lookup (call_each three) three (98 ∷ []) blank
find_symbol_address_lem_example =
    find_symbol_address_lem (call_each three) three (λ f s. refl) blank (98 ∷ [])

-- The symbol at an address, with the copy of its name.
b_at_1016 : KernSym
b_at_1016 = measured (record blank {
  addr = 1016;
  end_addr = 1048;
  name = some (98 ∷ []);
  name_alloc = true;
  found = true;
})

find_at_1016 :
    find_address_symbol (λ n. true) (call_on_each three) blank 1016 ≡ returns (ok, b_at_1016)
unfolding find_address_symbol find_address_callback named call_on_each after_call after_pass length
    b_at_1016
find_at_1016 = refl

-- There is no memory for the copy.
find_without_memory : find_address_symbol (λ n. false) (call_on_each three) blank 1016 ≡ fault
unfolding find_address_symbol find_address_callback named call_on_each after_call after_pass length
find_without_memory = refl
