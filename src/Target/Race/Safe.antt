-- ===== src/Target/Race/Safe.antt =====
-- Packets that are announced one after the other.
use porteus_gpu.Target.Race.{
  here, answers, sees, reads, waiting, seen, working, Gpu, accepts, measures, posts, later, Alone,
  Reach, Step, IsQuiet, polling, indexed, resting, Mailbox, Sender,
}
use porteus_gpu.Base.{
  IsTurn-enters, IsTurn, IsTurn-rest, IsTurn-moves, rest-Fits, Fits-at, ◌≤◌, inr, arith, inl, refl,
  ◌==◌, if◌then◌else◌, ◌+◌, false, ◌⊎◌, ap, update, Bool, ◌≢◌, true, ◌≡◌, ℕ,
}

-- The announcement of slot i stands, or has been answered.
abbrev Stands : Mailbox → ℕ → Type 0
Stands s i =
    (s.index ≡ i)
    × ((s.gpu ≡ waiting) ⊎ (s.gpu ≡ seen) ⊎ (s.gpu ≡ working i))
    × ((j : ℕ) → s.served j ≡ s.accepted j)

abbrev Answered : Mailbox → ℕ → Type 0
Answered s i =
    (s.index ≡ 0)
    × (s.gpu ≡ waiting)
    × ((j : ℕ) → s.served j ≡ s.accepted j + (if i == j then 1 else 0))

abbrev Under : Mailbox → ℕ → Type 0
Under s i = (i ≢ 0) × (Stands s i ⊎ Answered s i)

-- What the state of the one processor that may announce says of the words and the GPU.
abbrev Fits : Mailbox → Sender → Type 0
Fits s resting = (s.index ≡ 0) × (s.gpu ≡ waiting) × ((j : ℕ) → s.served j ≡ s.accepted j)
Fits s (indexed i l) = Under s i
Fits s (polling i) = Under s i

abbrev senders : Mailbox → ℕ → Sender
senders s = s.sender

-- All processors but `a` rest.
abbrev IsSafe : ℕ → Mailbox → Type 0
IsSafe = IsTurn resting senders Fits

is_busy : Sender → Bool
is_busy resting = false
is_busy (indexed i l) = true
is_busy (polling i) = true

module _ (a : ℕ) (s : Mailbox) (v : IsSafe a s) where
  busy-Fits : (c : ℕ) (p : Sender) → s.sender c ≡ p → is_busy p ≡ true → Fits s p
  unfolding is_busy
  busy-Fits = Fits-at resting is_busy refl senders Fits a s v

  moves_on :
      (c : ℕ) (p q : Sender) (t : Mailbox)
      → s.sender c ≡ p
      → is_busy p ≡ true
      → t.sender ≡ update s.sender c q
      → Fits t q
      → IsSafe a t
  unfolding is_busy
  moves_on c p q t at busy = IsTurn-moves resting is_busy refl senders Fits a s v c p at busy q t

-- The GPU works on the slot that stands in the first word.
Under-gpu :
    (s : Mailbox) (i k : ℕ)
    → Under s k
    → s.gpu ≡ working i
    → (i ≡ k) × ((j : ℕ) → s.served j ≡ s.accepted j)
Under-gpu s i k (ne, inl (at, inl idle, same)) g = absurd (cc)
Under-gpu s i k (ne, inl (at, inr (inl saw), same)) g = absurd (cc)
Under-gpu s i k (ne, inl (at, inr (inr works), same)) g = (cc, same)
Under-gpu s i k (ne, inr (at, idle, same)) g = absurd (cc)

-- What the GPU does, at each state of the processor.
taken : Mailbox → Gpu → Mailbox
taken s g = record s { gpu = g }

Under-sees : (s : Mailbox) (k : ℕ) → s.index ≢ 0 → Under s k → Under (taken s seen) k
unfolding taken
Under-sees s k there (ne, inl (at, gpu, same)) = (ne, inl (at, inr (inl refl), same))
Under-sees s k there (ne, inr (at, idle, same)) = absurd (there at)

sees-Fits : (s : Mailbox) (p : Sender) → s.index ≢ 0 → Fits s p → Fits (taken s seen) p
sees-Fits s resting there fit = absurd (there fit.0)
sees-Fits s (indexed k m) there fit = Under-sees s k there fit
sees-Fits s (polling k) there fit = Under-sees s k there fit

Under-reads : (s : Mailbox) (k : ℕ) → s.gpu ≡ seen → Under s k → Under (taken s (working s.index)) k
unfolding taken
Under-reads s k saw (ne, inl (at, gpu, same)) = (ne, inl (at, inr (inr (ap working at)), same))
Under-reads s k saw (ne, inr (at, idle, same)) = absurd (cc)

reads-Fits :
    (s : Mailbox) (p : Sender) → s.gpu ≡ seen → Fits s p → Fits (taken s (working s.index)) p
reads-Fits s resting saw fit = let idle = fit.1 in absurd (cc)
reads-Fits s (indexed k m) saw fit = Under-reads s k saw fit
reads-Fits s (polling k) saw fit = Under-reads s k saw fit

answered : Mailbox → ℕ → Mailbox
answered s i = record s { index = 0; gpu = waiting; served = update s.served i (s.served i + 1) }

Under-answered : (s : Mailbox) (i k : ℕ) → Under s k → s.gpu ≡ working i → Under (answered s i) k
unfolding answered
Under-answered s i k fit g =
    let u = Under-gpu s i k fit g in (fit.0, inr (refl, refl, λ j. ground (arith, u.1 j)))

answered-Fits :
    (s : Mailbox) (i : ℕ) (p : Sender) → Fits s p → s.gpu ≡ working i → Fits (answered s i) p
answered-Fits s i resting fit g = let idle = fit.1 in absurd (cc)
answered-Fits s i (indexed k m) fit g = Under-answered s i k fit g
answered-Fits s i (polling k) fit g = Under-answered s i k fit g

accepted-Fits :
    (s : Mailbox) (i : ℕ)
    → s.index ≡ 0
    → Under s i
    → (s.index ≡ 0)
      × (s.gpu ≡ waiting)
      × ((j : ℕ) → s.served j ≡ update s.accepted i (s.accepted i + 1) j)
accepted-Fits s i cleared (ne, inl (at, gpu, same)) = absurd (omega arith)
accepted-Fits s i cleared (_, inr (at, gpu, same)) = (at, gpu, λ j. ground (arith, same j))

Step-IsSafe : (a : ℕ) {s t : Mailbox} → Step Alone s t → IsSafe a s → (b : ℕ) × IsSafe b t
unfolding is_busy taken answered
Step-IsSafe a {s} (posts c i l at alone ne bound) v =
    let fit = rest-Fits resting senders Fits s alone a v in
    (
      c,
      IsTurn-enters resting senders Fits s alone c (indexed i l) _ refl
          (ne, inl (refl, inl fit.1, fit.2)),
    )
Step-IsSafe a {s} (measures c i l at) v =
    let fit = busy-Fits a s v c (indexed i l) at refl in
    (a, moves_on a s v c (indexed i l) (polling i) _ at refl refl fit)
Step-IsSafe a {s} (accepts c i at cleared) v =
    let fit = busy-Fits a s v c (polling i) at refl in
    (a, moves_on a s v c (polling i) resting _ at refl refl (accepted-Fits s i cleared fit))
Step-IsSafe a {s} (sees idle there) v =
    (a, record { others = v.others; fits = sees-Fits s (s.sender a) there v.fits })
Step-IsSafe a {s} (reads saw) v =
    (a, record { others = v.others; fits = reads-Fits s (s.sender a) saw v.fits })
Step-IsSafe a {s} (answers i g) v =
    (a, record { others = v.others; fits = answered-Fits s i (s.sender a) v.fits g })

Reach-IsSafe : {s t : Mailbox} → Reach Alone s t → IsQuiet s → (a : ℕ) × IsSafe a t
Reach-IsSafe {s} here q =
    (0, IsTurn-rest resting senders Fits s q.all_resting 0 (q.cleared, q.idle, q.balanced))
Reach-IsSafe (later r st) q = let (a, v) = Reach-IsSafe r q in Step-IsSafe a st v

Fits-served : (s : Mailbox) (p : Sender) (j : ℕ) → Fits s p → s.accepted j ≤ s.served j
Fits-served s resting j fit = omega (arith, fit.2 j)
Fits-served s (indexed i l) j (ne, inl (at, g, same)) = omega (arith, same j)
Fits-served s (indexed i l) j (ne, inr (at, g, same)) = ground (arith, same j)
Fits-served s (polling i) j (ne, inl (at, g, same)) = omega (arith, same j)
Fits-served s (polling i) j (ne, inr (at, g, same)) = ground (arith, same j)

-- If no packet is announced while another is under way, then in every interleaving of the steps
-- of the processors and the GPU from a state with nothing announced, the GPU has ended at least
-- as many rounds for each slot as the target has accepted packets in it.
pub accepted-le-served :
    {s t : Mailbox} (j : ℕ) → IsQuiet s → Reach Alone s t → t.accepted j ≤ t.served j
accepted-le-served {t = t} j q r =
    let (a, v) = Reach-IsSafe r q in Fits-served t (t.sender a) j v.fits
