-- ===== src/Pool/Race/Overlap.antt =====
-- Two allocations that overlap.
use porteus_gpu.Pool.Race.{
  places, claims, sees_free, begins, here, later, Anytime, Reach, idle, Race,
}
use porteus_gpu.Base.{arith, some, none, ◌≡◌, ◌≢◌, ℕ}

-- From every state in which nfgpu_next is at a free slot, two allocations on different processors
-- can be interleaved so that both buffers get that slot, which holds the native head of the
-- second alone.
pub two_allocations_collide :
    (s : Race) (c d g h : ℕ)
    → c ≢ d
    → s.pc c ≡ idle
    → s.pc d ≡ idle
    → s.skbs s.next ≡ 0
    → g ≢ 0
    → h ≢ 0
    → g ≢ h
    → s.out g ≡ none
    → s.out h ≡ none
    → (t : Race) × Reach Anytime s t
      × (t.out g ≡ some s.next)
      × (t.out h ≡ some s.next)
      × (t.skbs s.next ≡ h)
two_allocations_collide s c d g h cd ic id free g0 h0 gh og oh = (
  _,
  later
      (later
        (later
          (later
            (later
              (later
                (later (later here (begins c g ic tt g0 og)) (begins d h (ground arith) tt h0 oh))
                (sees_free c g (ground arith) free))
              (sees_free d h (ground arith) free))
            (claims c g (ground arith)))
          (claims d h (ground arith)))
        (places c g (ground arith)))
      (places d h (ground arith)),
  ground arith,
  ground arith,
  ground arith,
)
