-- ===== src/PageWalk/Loops.antt =====
-- The rule for the walk's loops: from an invariant of the rounds, that the loop ends, and where.
use porteus_gpu.PageWalk.{as_round, page_size, Round, range_loop}
use porteus_gpu.Base.{
  subst, refl, zero, arith, ==→ne, ==→eq, ◌==◌, Bool-cases, Status-cases, ◌*◌, ◌+◌, ◌≤◌, ◌%◌,
  Status, Outcome, ◌<◌, Errno, ℕ, suc, ◌≡◌, inl, inr, ok, fail, returns, waits, fault,
}

-- An aligned range with room for its pages in the fuel.
pub record IsRange (fuel a end : ℕ) : Type 0 where
  pub nonempty : a < end
  pub start_aligned : a % page_size ≡ 0
  pub end_aligned : end % page_size ≡ 0
  pub enough : end ≤ a + fuel * page_size

module _ {S : Type 0} where
  -- The walk returns: with `P` of the state on success, and with `Q` of the error and the state else.
  abbrev pub Ends : (S → Type 0) → (Errno → S → Type 0) → Outcome (Status × S) → Type 0
  Ends P Q (returns (ok, s)) = P s
  Ends P Q (returns (fail e, s)) = Q e s
  Ends P Q waits = ⊥
  Ends P Q fault = ⊥

  -- The same of one call: a callback's result.
  abbrev pub Gives : (S → Type 0) → (Errno → S → Type 0) → Status × S → Type 0
  Gives P Q (ok, s) = P s
  Gives P Q (fail e, s) = Q e s

  -- A round that started at `a` has failed with `Q`, or leads on to an aligned address at most `end`,
  -- where the invariant holds, and below `end` with a pointer that belongs there.
  abbrev pub Leads :
      (P : ℕ → S → Type 0)
      → (Errno → S → Type 0)
      → (ℕ → ℕ → Type 0)
      → ℕ
      → ℕ
      → Outcome (Round S)
      → Type 0
  Leads P Q At a end (returns r) = elim r.err [
    | ok ↦
        (a < r.next)
        × (r.next ≤ end)
        × (r.next % page_size ≡ 0)
        × P r.next r.state
        × (r.next < end → At r.pointer r.next)
    | fail e ↦ Q e r.state
  ]
  Leads P Q At a end waits = ⊥
  Leads P Q At a end fault = ⊥

  -- What follows a round: the rest of the loop from where it leads.
  range_loop_step :
      (P : ℕ → S → Type 0) (Q : Errno → S → Type 0) (At : ℕ → ℕ → Type 0)
      (round : ℕ → ℕ → S → Outcome (Round S)) (fuel p a end : ℕ) (s : S) (o : Outcome (Round S))
      → round p a s ≡ o
      → Leads P Q At a end o
      → ((r : Round S)
          → a < r.next
          → r.next < end
          → r.next % page_size ≡ 0
          → P r.next r.state
          → At r.pointer r.next
          → Ends (P end) Q (range_loop round fuel r.pointer r.next end r.state))
      → Ends (P end) Q (range_loop round (suc fuel) p a end s)
  unfolding range_loop
  range_loop_step P Q At round fuel p a end s waits e l rest = absurd l
  range_loop_step P Q At round fuel p a end s fault e l rest = absurd l
  range_loop_step P Q At round fuel p a end s (returns r) e l rest = elim (Status-cases r.err) [
    | inl good ↦
        let l' = rw good at l in
        elim (Bool-cases (r.next == end)) [
          | inl last ↦
              rw (e, range_loop) (rw (good, last) (subst (λ n. P n r.state) (==→eq _ _ last) l'.3))
          | inr more ↦
              rw (e, range_loop)
                (rw (good, more)
                  (let below : r.next < end = let ne = ==→ne _ _ more in omega arith in
                    rest r l'.0 below l'.2 l'.3 (l'.4 below)))
        ]
    | inr (c, bad) ↦ rw (e, range_loop) (rw bad (rw bad at l))
  ]

  -- If every round from `lo` on leads on, the loop ends: at `end`, or with the error of the round that
  -- failed.
  pub range_loop-Ends :
      (P : ℕ → S → Type 0) (Q : Errno → S → Type 0) (At : ℕ → ℕ → Type 0)
      (round : ℕ → ℕ → S → Outcome (Round S)) (lo end : ℕ)
      → ((p a : ℕ) (s : S)
          → lo ≤ a
          → a < end
          → a % page_size ≡ 0
          → P a s
          → At p a
          → Leads P Q At a end (round p a s))
      → (fuel p a : ℕ) (s : S) → lo ≤ a
      → IsRange fuel a end
      → P a s
      → At p a
      → Ends (P end) Q (range_loop round fuel p a end s)
  range_loop-Ends P Q At round lo end keep zero p a s above r h at = absurd (omega arith)
  range_loop-Ends P Q At round lo end keep (suc fuel) p a s above r h at =
      range_loop_step P Q At round fuel p a end s (round p a s) refl
        (keep p a s above r.nonempty r.start_aligned h at)
        (λ q from to al h' at'.
          range_loop-Ends P Q At round lo end keep fuel q.pointer q.next q.state (omega arith)
            (record {
              nonempty = to;
              start_aligned = al;
              end_aligned = r.end_aligned;
              enough = let en = r.enough in omega arith;
            })
            h' at')

  pub Gives-ok :
      (P : S → Type 0) (Q : Errno → S → Type 0) (r : Status × S) → Gives P Q r → r.0 ≡ ok → P r.1
  Gives-ok P Q (ok, s) g e = g
  Gives-ok P Q (fail c, s) g e = absurd (cc e)

  pub Gives-fail :
      (P : S → Type 0) (Q : Errno → S → Type 0) (r : Status × S) {c : Errno}
      → Gives P Q r
      → r.0 ≡ fail c
      → Q c r.1
  Gives-fail P Q (ok, s) g e = absurd (cc e)
  Gives-fail P Q (fail c, s) g e = subst (λ k. Q k s) (cc e) g

  pub Ends-returns :
      (P : S → Type 0) (Q : Errno → S → Type 0) (r : Status × S)
      → Gives P Q r
      → Ends P Q (returns r)
  Ends-returns P Q (ok, s) g = g
  Ends-returns P Q (fail c, s) g = g

  pub Leads-as_round :
      (P : ℕ → S → Type 0) (Q : Errno → S → Type 0) (At : ℕ → ℕ → Type 0) (a end n p : ℕ)
      (o : Outcome (Status × S))
      → a < n
      → n ≤ end
      → n % page_size ≡ 0
      → (n < end → At p n)
      → Ends (P n) Q o
      → Leads P Q At a end (as_round n p o)
  Leads-as_round P Q At a end n p (returns (ok, s)) from to al at h = (from, to, al, h, at)
  Leads-as_round P Q At a end n p (returns (fail c, s)) from to al at h = h
  Leads-as_round P Q At a end n p waits from to al at h = absurd h
  Leads-as_round P Q At a end n p fault from to al at h = absurd h
