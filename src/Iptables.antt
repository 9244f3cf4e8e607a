-- ===== src/Iptables.antt =====
-- togpu/iptables_extension/libxt_TOGPU.c: the options of the rule's target.
pub mod Options
mod Tests
use Prim.Native.Nat.{ℕ, bit_and, bit_or}
use porteus_gpu.Base.{◌-◌, List, ◌^◌, not, ◌==◌, Option, if◌then◌else◌, none, some, []}

-- `struct xt_togpu_info`
pub record TogpuInfo : Type 0 where
  pub to : ℕ

-- `PARAM_TO_GPU`, and the character '1' that stands for `--to-gpu`
abbrev pub param_to_gpu : ℕ
param_to_gpu = 1

-- The library's error exits, which do not return: an option given twice, a bad value, a missing option.
pub data Problem : Type 0 where
  only_once bad_value parameter_problem : Problem

pub data Parsed {ℓ} (A : Type ℓ) : Type ℓ where
  parsed : A → Parsed A
  exits : Problem → Parsed A

-- UINT32_MAX
abbrev pub uint32_max : ℕ
uint32_max = 2 ^ 32 - 1

-- `xtables_strtoui` of the library: the number that the text holds, if it lies between the bounds.
abbrev pub Strtoui : Type 0
Strtoui = List ℕ → ℕ → ℕ → Option ℕ

-- `TOGPU_parse`, with the option's argument; the flags and the rule.
pub togpu_parse : Strtoui → ℕ → List ℕ → ℕ → TogpuInfo → Parsed (ℕ × TogpuInfo)
togpu_parse strtoui c optarg flags info =
    if c == 49
    then if not (bit_and flags param_to_gpu == 0)
      then exits only_once
      else elim (strtoui optarg 0 uint32_max) [
        | none ↦ exits bad_value
        | some v ↦ parsed (bit_or flags param_to_gpu, record info { to = v })
      ]
    else parsed (flags, info)

-- `TOGPU_check`
pub togpu_check : ℕ → Parsed (Unit {0})
togpu_check flags = if bit_and flags param_to_gpu == 0 then exits parameter_problem else parsed tt
