-- ===== src/Hook/Tests.antt =====
-- A function of eight bytes at 4096, copied to 65536, under a decoder that takes each byte for an
-- instruction of one byte, and a call that is moved.
use porteus_gpu.Hook.Fixup.{copied_field_leads, copied_verbatim_shifts, branch, unrelated}
use porteus_gpu.Base.{
  ◌+◌, ℕ, read32, inr, inl, refl, ◌==◌, true, arith, if◌then◌else◌, ◌≡◌, ◌/◌, false, ◌∷◌, List,
  none, some, [],
}
use porteus_gpu.Symbols.{Symbol, KernSym}
use porteus_gpu.Symbols.Lookup.{call_each}
use porteus_gpu.Hook.{
  copy_and_fixup_insn, op_call_rel32, Insn, Machine, code_addr_from_offset, Kernel, inside,
}

abbrev pub byte_insn : Insn
byte_insn = record {
  length = 1;
  opcode = 144;
  immediate = 0;
  displacement = 0;
  offset_immediate = 0;
  offset_displacement = 0;
  rip_relative = false;
}

abbrev two : List Symbol
two = record { name = some (97 ∷ []); addr = 4096 } ∷ record { name = none; addr = 4104 } ∷ []

abbrev kernel : Kernel
kernel = record {
  kallsyms_on_each_symbol = call_each two;
  lookup_address = λ a. some (a / 4096);
  module_alloc = λ n. 65536;
  decode = λ m a. byte_insn;
}

abbrev pub machine : Machine
machine = record { mem = λ a. if a == 4101 then 195 else 144; page_rw = λ p. false; freed = [] }

abbrev pub fresh : KernSym
fresh = record {
  addr = 0;
  end_addr = 0;
  size = 0;
  name = none;
  name_alloc = false;
  orig_start_bytes = λ _. 0;
  new_addr = 0;
  new_size = 0;
  found = false;
  hijacked = false;
  run = 0;
}

abbrev symbol_a : KernSym
symbol_a = record {
  addr = 4096;
  end_addr = 4104;
  size = 8;
  name = some (97 ∷ []);
  name_alloc = false;
  orig_start_bytes = λ _. 0;
  new_addr = 0;
  new_size = 8;
  found = true;
  hijacked = false;
  run = 4096;
}

-- A call, five bytes long, of an address 100 past its end.
abbrev call_insn : Insn
call_insn = record {
  length = 5;
  opcode = op_call_rel32;
  immediate = 100;
  displacement = 0;
  offset_immediate = 1;
  offset_displacement = 0;
  rip_relative = false;
}

outside_a : inside symbol_a (code_addr_from_offset 4096 5 100) ≡ false
unfolding inside
outside_a = refl

copied_field_leads_example :
    code_addr_from_offset 65536 5
      (read32 (copy_and_fixup_insn call_insn 4096 65536 symbol_a machine.mem) 65537)
    ≡ 4201
copied_field_leads_example =
    copied_field_leads call_insn 4096 65536 symbol_a machine.mem (branch (inl refl)) (omega arith)
      outside_a (inr (omega arith))

-- A conditional jump, six bytes long: 0f 84, and an offset.
abbrev je_insn : Insn
je_insn = record {
  length = 6;
  opcode = 15;
  immediate = 100;
  displacement = 0;
  offset_immediate = 2;
  offset_displacement = 0;
  rip_relative = false;
}

abbrev je_mem : ℕ → ℕ
je_mem a = if a == 4096 then 15 else if a == 4097 then 132 else if a == 4098 then 100 else 0

-- The jump led to 4202, and its copy leads to a place that is not code.
copied_verbatim_shifts_example :
    code_addr_from_offset 65536 6
      (read32 (copy_and_fixup_insn je_insn 4096 65536 symbol_a je_mem) (65536 + 2))
    ≡ 65642
unfolding read32
copied_verbatim_shifts_example =
    copied_verbatim_shifts je_insn 4096 65536 symbol_a je_mem 2 (unrelated (λ p. ground arith) refl)
      (omega arith) (omega arith)
