-- ===== src/Iptables/Options.antt =====
-- What the library does with a command line: each option is parsed, from flags 0, and the result is checked.
use porteus_gpu.Base.{
  inr, arith, inl, Bool-cases, none, ◌&&◌, ◌^◌, ltb, leb, if◌then◌else◌, sym, ◌∙◌, refl, ne→==, ap,
  ◌≡◌, ◌++◌, ◌≢◌, Option, ◌∷◌, ℕ, List, some, [],
}
use porteus_gpu.Iptables.{
  uint32_max, bad_value, Strtoui, togpu_check, TogpuInfo, togpu_parse, Parsed, parsed, exits,
}

pub record Argument : Type 0 where
  pub letter : ℕ
  pub text : List ℕ

-- `number` is the number that a text holds, if any: `xtables_strtoui` gives it if it lies between the bounds.
abbrev pub IsStrtoui : Strtoui → (List ℕ → Option ℕ) → Type 0
IsStrtoui strtoui number =
    (text : List ℕ) (low high n : ℕ)
    → number text ≡ some n
    → strtoui text low high ≡ (if leb low n && leb n high then some n else none)

-- No option of the list is `--to-gpu`.
unfoldable pub Silent : List Argument → Type 0
Silent [] = Unit
Silent (o ∷ os) = (o.letter ≢ 49) × Silent os

unfoldable pub checked : Parsed (ℕ × TogpuInfo) → Parsed TogpuInfo
checked (exits p) = exits p
checked (parsed r) = elim (togpu_check r.0) [ exits p ↦ exits p | parsed u ↦ parsed r.1 ]

abbrev pub to_gpu : List ℕ → Argument
to_gpu text = record { letter = 49; text = text }

append_nil : (os : List Argument) → os ++ [] ≡ os
append_nil [] = refl
append_nil (o ∷ os) = ap (λ r. o ∷ r) (append_nil os)

module _ (strtoui : Strtoui) where
  unfoldable pub parse_all : List Argument → ℕ → TogpuInfo → Parsed (ℕ × TogpuInfo)
  parse_all [] flags info = parsed (flags, info)
  parse_all (o ∷ os) flags info = elim (togpu_parse strtoui o.letter o.text flags info) [
    | exits p ↦ exits p
    | parsed r ↦ parse_all os r.0 r.1
  ]

  parse_all-Silent :
      (before after : List Argument) (flags : ℕ) (info : TogpuInfo)
      → Silent before
      → parse_all (before ++ after) flags info ≡ parse_all after flags info
  unfolding parse_all togpu_parse Silent
  parse_all-Silent [] after flags info s = refl
  parse_all-Silent (o ∷ os) after flags info s =
      rw (parse_all, togpu_parse, ne→== o.letter 49 s.0) (parse_all-Silent os after flags info s.1)

  module _ (number : List ℕ → Option ℕ) (reads : IsStrtoui strtoui number) where
    read_to_gpu :
        (after : List Argument) (text : List ℕ) (v : ℕ) (info : TogpuInfo)
        → number text ≡ some v
        → Silent after
        → checked (parse_all (to_gpu text ∷ after) 0 info)
          ≡ (if ltb v (2 ^ 32) then parsed (record { to = v }) else exits bad_value)
    unfolding parse_all togpu_parse togpu_check checked
    read_to_gpu after text v info e t = elim (Bool-cases (ltb v (2 ^ 32))) [
      | inl small ↦
          let given : strtoui text 0 uint32_max ≡ some v =
            rw (reads text 0 uint32_max v e) (ground arith) in
          rw (small, given)
            (ap checked (
              ap (λ os. parse_all os 1 (record { to = v })) (sym (append_nil after))
              ∙ parse_all-Silent after [] 1 (record { to = v }) t))
      | inr large ↦
          let given : strtoui text 0 uint32_max ≡ none =
            rw (reads text 0 uint32_max v e) (ground arith) in
          rw (large, given) refl
    ]

    -- A command line with `--to-gpu` once, with a value that is a number, among other options
    -- passes the final check and gives that number, if it is below 2 ^ 32, and is refused for a
    -- bad value else.
    pub parse_all_once :
        (before after : List Argument) (text : List ℕ) (v : ℕ) (info : TogpuInfo)
        → number text ≡ some v
        → Silent before
        → Silent after
        → checked (parse_all (before ++ (to_gpu text ∷ after)) 0 info)
          ≡ (if ltb v (2 ^ 32) then parsed (record { to = v }) else exits bad_value)
    parse_all_once before after text v info e s t =
        ap checked (parse_all-Silent before (to_gpu text ∷ after) 0 info s)
        ∙ read_to_gpu after text v info e t
