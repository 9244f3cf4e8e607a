-- ===== src/Base/Turns.antt =====
-- Processors of which at most one is not at rest: the one that takes a step is that one, and what its
-- place says of the state has to hold after the step.
use Prim.Native.Nat.{ℕ}
use mathlib.Core.Path.{subst, ◌≡◌, ap, sym, ◌∙◌, refl}
use mathlib.Core.Logic.{◌≢◌, inl, inr}
use mathlib.Core.Bool.{Bool, true, false}
use native.Mathlib.Omega.{arith}
use porteus_gpu.Base.Tests.{◌==◌, Bool-cases, ==→eq, ==→ne, eq→==}
use porteus_gpu.Base.Word.{update}

update_here : {A : Type 0} (f : ℕ → A) (c a : ℕ) (x : A) → c ≡ a → update f c x a ≡ x
update_here f c a x e = rw (eq→== c a e) refl

-- All but `a` are at rest.
abbrev Rests : {A : Type 0} → A → (ℕ → A) → ℕ → Type 0
Rests rest pc a = (d : ℕ) → d ≢ a → pc d ≡ rest

module _ {A : Type 0} (rest : A) (is_busy : A → Bool) (idle : is_busy rest ≡ false) (pc : ℕ → A)
    (a : ℕ) (others : Rests rest pc a) (c : ℕ) (p : A) (at : pc c ≡ p)
    (busy : is_busy p ≡ true) where
  actor : c ≡ a
  actor = elim (Bool-cases (c == a)) [
    | inl same ↦ ==→eq c a same
    | inr other ↦
        absurd (ground (arith, ap is_busy (sym at ∙ others c (==→ne c a other)), busy, idle))
  ]

  actor_at : pc a ≡ p
  actor_at = ap pc (sym actor) ∙ at

  -- It is that one after its step.
  moved_at : (q : A) → update pc c q a ≡ q
  moved_at q = update_here pc c a q actor

  moved-Rests : (q : A) → Rests rest (update pc c q) a
  moved-Rests q d ne = let same = actor in ground (arith, others d ne)

-- A state in which all processors but `a` are at rest, and `Fits` what the place of `a` says of it.
pub record IsTurn {S A : Type 0} (rest : A) (pc : S → ℕ → A) (Fits : S → A → Type 0) (a : ℕ) (s : S)
    : Type 0 where
  pub others : Rests rest (pc s) a
  pub fits : Fits s (pc s a)

module _ {S A : Type 0} (rest : A) (pc : S → ℕ → A) (Fits : S → A → Type 0) (s : S)
    (alone : (c : ℕ) → pc s c ≡ rest) where
  -- A state in which all are at rest, and the next step is that of `c`.
  pub IsTurn-rest : (a : ℕ) → Fits s rest → IsTurn rest pc Fits a s
  IsTurn-rest a fit = record { others = λ d ne. alone d; fits = subst (Fits s) (sym (alone a)) fit }

  pub rest-Fits : (a : ℕ) → IsTurn rest pc Fits a s → Fits s rest
  rest-Fits a v = subst (Fits s) (alone a) v.fits

  pub IsTurn-enters :
      (c : ℕ) (q : A) (t : S) → pc t ≡ update (pc s) c q → Fits t q → IsTurn rest pc Fits c t
  IsTurn-enters c q t e fit = record {
    others = λ d other. ap (λ f. f d) e ∙ ground (arith, alone d);
    fits = subst (Fits t) (sym (ap (λ f. f c) e ∙ update_here (pc s) c c q refl)) fit;
  }

module _ {S A : Type 0} (rest : A) (is_busy : A → Bool) (idle : is_busy rest ≡ false)
    (pc : S → ℕ → A) (Fits : S → A → Type 0) (a : ℕ) (s : S) (v : IsTurn rest pc Fits a s) (c : ℕ)
    (p : A) (at : pc s c ≡ p) (busy : is_busy p ≡ true) where
  pub Fits-at : Fits s p
  Fits-at = subst (Fits s) (actor_at rest is_busy idle (pc s) a v.others c p at busy) v.fits

  pub IsTurn-moves : (q : A) (t : S) → pc t ≡ update (pc s) c q → Fits t q → IsTurn rest pc Fits a t
  IsTurn-moves q t e fit = record {
    others = λ d ne.
        ap (λ f. f d) e ∙ moved-Rests rest is_busy idle (pc s) a v.others c p at busy q d ne;
    fits =
        subst (Fits t)
          (sym (ap (λ f. f a) e ∙ moved_at rest is_busy idle (pc s) a v.others c p at busy q)) fit;
  }
