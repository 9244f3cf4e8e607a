-- ===== src/Iptables/Tests.antt =====
-- Command lines with `--to-gpu` once and not at all.
use porteus_gpu.Iptables.Options.{
  parse_all_once, to_gpu, parse_all, Argument, Silent, IsStrtoui, checked,
}
use porteus_gpu.Iptables.{
  parameter_problem, bad_value, togpu_check, togpu_parse, TogpuInfo, Strtoui, parsed, exits,
}
use porteus_gpu.Base.{
  ◌-◌, ◌^◌, ◌&&◌, leb, ◌==◌, Option, if◌then◌else◌, some, ℕ, refl, ◌≡◌, ◌++◌, ◌∷◌, arith, List,
  none, [],
}

abbrev other : List Argument
other = record { letter = 50; text = [] } ∷ []

abbrev no_info : TogpuInfo
no_info = record { to = 0 }

other-Silent : Silent other
unfolding Silent
other-Silent = (omega arith, tt)

-- A library for numbers of one digit, and an `x` for 2 ^ 32.
abbrev digit : List ℕ → Option ℕ
digit [] = none
digit (c ∷ rest) = if c == 120 then some (2 ^ 32) else some (c - 48)

abbrev one_digit : Strtoui
one_digit text low high = elim (digit text) [
  | none ↦ none
  | some n ↦ if leb low n && leb n high then some n else none
]

one_digit-IsStrtoui : IsStrtoui one_digit digit
one_digit-IsStrtoui text low high n e = rw (one_digit, e) refl

missing : checked (parse_all one_digit other 0 no_info) ≡ exits parameter_problem
unfolding checked parse_all togpu_parse togpu_check
missing = refl

too_large : checked (parse_all one_digit (to_gpu (120 ∷ []) ∷ []) 0 no_info) ≡ exits bad_value
unfolding checked parse_all togpu_parse togpu_check
too_large = refl

parse_all_once_example :
    checked (parse_all one_digit (other ++ (to_gpu (51 ∷ []) ∷ other)) 0 no_info)
    ≡ parsed (record { to = 3 })
parse_all_once_example =
    parse_all_once one_digit digit one_digit-IsStrtoui other other (51 ∷ []) 3 no_info refl
      other-Silent other-Silent
