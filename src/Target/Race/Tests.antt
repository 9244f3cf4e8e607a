-- ===== src/Target/Race/Tests.antt =====
-- One packet that is served, and two at once.
use porteus_gpu.Target.Race.Overlap.{second_hides_first}
use porteus_gpu.Target.Race.Safe.{accepted-le-served}
use porteus_gpu.Target.Race.{
  accepts, answers, sees, reads, waiting, here, later, Alone, Anytime, Reach, measures, posts,
  polling, indexed, resting, IsQuiet, Mailbox,
}
use porteus_gpu.Base.{arith, ◌≡◌, refl, update, ◌≤◌}

abbrev quiet : Mailbox
quiet = record {
  index = 0;
  len = 60;
  sender = λ c. resting;
  gpu = waiting;
  served = λ i. 0;
  accepted = λ i. 0;
}

quiet-IsQuiet : IsQuiet quiet
quiet-IsQuiet = record {
  cleared = refl;
  idle = refl;
  all_resting = λ c. refl;
  balanced = λ i. refl;
}

abbrev served_once : Mailbox
served_once = record quiet {
  len = 100;
  sender = update (update (update quiet.sender 0 (indexed 5 100)) 0 (polling 5)) 0 resting;
  served = update quiet.served 5 1;
  accepted = update quiet.accepted 5 1;
}

Reach-served : Reach Alone quiet served_once
Reach-served =
    later
      (later
        (later
          (later
            (later (later here (posts 0 5 100 refl (λ c. refl) (omega arith) (omega arith)))
              (measures 0 5 100 refl))
            (sees refl (omega arith)))
          (reads refl))
        (answers 5 refl))
      (accepts 0 5 refl refl)

accepted-le-served_example : served_once.accepted 5 ≤ served_once.served 5
accepted-le-served_example = accepted-le-served 5 quiet-IsQuiet Reach-served

second_hides_first_example :
    (t : Mailbox) × Reach Anytime quiet t
    × (t.index ≡ 0)
    × (t.sender 0 ≡ resting)
    × (t.sender 1 ≡ resting)
    × (t.accepted 5 ≡ 1)
    × (t.accepted 6 ≡ 1)
    × (t.served 5 ≡ 0)
    × (t.served 6 ≡ 1)
second_hides_first_example =
    second_hides_first quiet 0 1 5 6 100 200 (omega arith) (omega arith) (omega arith) (omega arith)
      (omega arith) (omega arith) quiet-IsQuiet
