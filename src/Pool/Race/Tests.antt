-- ===== src/Pool/Race/Tests.antt =====
-- Two allocations in turn, the second of which passes over the slot of the first, and two at once.
use porteus_gpu.Pool.Race.Overlap.{two_allocations_collide}
use porteus_gpu.Pool.Race.Safe.{one_allocation_safe}
use porteus_gpu.Pool.Search.{IsSlot}
use porteus_gpu.Pool.Race.{
  places, goes_on, claims, claimed, sees_free, sees_busy, begins, bumped, here, found, later,
  searching, Anytime, Alone, idle, Race, Reach, IsFreshRace,
}
use porteus_gpu.Base.{refl, none, ◌≢◌, some, ◌≡◌, update, arith, ℕ}

abbrev fresh : Race
fresh = record { skbs = λ i. 0; next = 1; pc = λ c. idle; out = λ h. none }

fresh-IsFreshRace : IsFreshRace fresh
fresh-IsFreshRace = record {
  next_slot = omega arith;
  vacant = λ i. refl;
  quiet = λ c. refl;
  none_out = λ h. refl;
}

-- Processor 0 has put the buffer at 4096 into slot 1.
abbrev first_out : Race
first_out = record {
  skbs = update fresh.skbs 1 4096;
  next = 1;
  pc =
      update (update (update (update fresh.pc 0 (searching 4096)) 0 (found 4096)) 0 (claimed 4096))
        0 idle;
  out = update fresh.out 4096 (some 1);
}

Reach-first : Reach Alone fresh first_out
Reach-first =
    later
      (later
        (later (later here (begins 0 4096 refl (λ c. refl) (omega arith) refl))
          (sees_free 0 4096 refl refl))
        (claims 0 4096 refl))
      (places 0 4096 refl)

abbrev both_out : Race
both_out = record {
  skbs = update first_out.skbs 2 8192;
  next = 2;
  pc =
      update
        (update
          (update
            (update (update (update first_out.pc 1 (searching 8192)) 1 (bumped 8192)) 1
              (searching 8192))
            1 (found 8192))
          1 (claimed 8192))
        1 idle;
  out = update first_out.out 8192 (some 2);
}

Reach-both : Reach Alone fresh both_out
Reach-both =
    later
      (later
        (later
          (later
            (later (later Reach-first (begins 1 8192 refl (λ c. ground arith) (omega arith) refl))
              (sees_busy 1 8192 refl (omega arith)))
            (goes_on 1 8192 refl (omega arith)))
          (sees_free 1 8192 refl refl))
        (claims 1 8192 refl))
      (places 1 8192 refl)

one_allocation_safe_example : IsSlot 1 × (both_out.skbs 1 ≡ 4096) × (◌≢◌ {A = ℕ} 1 2)
one_allocation_safe_example =
    one_allocation_safe 8192 4096 1 2 fresh-IsFreshRace Reach-both refl refl (omega arith)

two_allocations_collide_example :
    (t : Race) × Reach Anytime fresh t
    × (t.out 4096 ≡ some 1)
    × (t.out 8192 ≡ some 1)
    × (t.skbs 1 ≡ 8192)
two_allocations_collide_example =
    two_allocations_collide fresh 0 1 4096 8192 (omega arith) refl refl refl (omega arith)
      (omega arith) (omega arith) refl refl
