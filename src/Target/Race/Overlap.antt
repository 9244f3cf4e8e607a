-- ===== src/Target/Race/Overlap.antt =====
-- Packets that are announced at once.
use porteus_gpu.Target.Race.{
  accepts, answers, sees, reads, measures, posts, here, later, resting, Anytime, Reach, IsQuiet,
  Mailbox,
}
use porteus_gpu.Config.{max_skbs}
use porteus_gpu.Base.{◌<◌, refl, arith, ◌+◌, ◌≡◌, ◌≢◌, ℕ}

-- From every state with nothing announced, two packets in different slots on two processors can
-- be announced so that both are accepted, with the word clear, while the GPU has ended a round
-- for the second only.
pub second_hides_first :
    (s : Mailbox) (c d i j k l : ℕ)
    → c ≢ d
    → i ≢ 0
    → j ≢ 0
    → i < max_skbs
    → j < max_skbs
    → i ≢ j
    → IsQuiet s
    → (t : Mailbox) × Reach Anytime s t
      × (t.index ≡ 0)
      × (t.sender c ≡ resting)
      × (t.sender d ≡ resting)
      × (t.accepted i ≡ s.accepted i + 1)
      × (t.accepted j ≡ s.accepted j + 1)
      × (t.served i ≡ s.served i)
      × (t.served j ≡ s.served j + 1)
second_hides_first s c d i j k l cd i0 j0 im jm ij q =
    let rc = q.all_resting c in
    let rd = q.all_resting d in
    let w = q.idle in
    (
      _,
      later
          (later
            (later
              (later
                (later
                  (later
                    (later
                      (later (later here (posts c i k rc tt i0 im)) (measures c i k (ground arith)))
                      (posts d j l (ground arith) tt j0 jm))
                    (measures d j l (ground arith)))
                  (sees w j0))
                (reads refl))
              (answers j refl))
            (accepts c i (ground arith) refl))
          (accepts d j (ground arith) refl),
      refl,
      ground arith,
      ground arith,
      ground arith,
      ground arith,
      ground arith,
      ground arith,
    )
