-- ===== src/Pool/Live.antt =====
-- The hooks over time: allocations and releases one after the other, with the buffers that are out.
use porteus_gpu.Pool.Release.{
  restore-IsGivenBack, IsGivenBack, skb_release_data-slot, skb_release_data_native,
}
use porteus_gpu.Pool.Search.{IsSlot}
use porteus_gpu.Config.{skb_size, memory_mask, max_memory}
use porteus_gpu.Pool.RoundTrip.{relocate_eq, IsMoved, IsFresh, netdev_alloc_skb-cases}
use porteus_gpu.Pool.Window.{IsMapped}
use porteus_gpu.Pool.{
  restore, skb_release_data, slot_address, netdev_alloc_skb, SkBuff, SkbApi, Driver,
}
use porteus_gpu.Base.{
  ◌^◌, ◌<◌, sym, Option-cases, refl, ◌∙◌, ap, ne→==, arith, ◌≤◌, eq→==, Bool, update, ◌==◌,
  if◌then◌else◌, ◌*◌, returns, ◌+◌, none, some, ◌≢◌, inr, inl, Option, ◌%◌, ℕ, ◌≡◌,
}

-- The driver, and for each slot the native buffer of the socket buffer that lies there.
pub record System : Type 0 where
  pub drv : Driver
  pub live : ℕ → Option SkBuff

-- The module as it is loaded, with the buffers mapped at `kva`.
abbrev pub IsInitial : System → Type 0
IsInitial t =
    IsMapped t.drv.kva
    × (t.drv.kva % max_memory ≡ 0)
    × IsSlot t.drv.next
    × ((i : ℕ) → t.drv.skbs i ≡ 0)
    × ((i : ℕ) → t.live i ≡ none)

-- The slots in use are those with a live buffer, and each holds the address of its native buffer.
pub record IsSafe (t : System) : Type 0 where
  pub mapped : IsMapped t.drv.kva
  pub aligned : t.drv.kva % max_memory ≡ 0
  pub next_slot : IsSlot t.drv.next
  pub held :
      (i : ℕ) (s : SkBuff) → t.live i ≡ some s → IsSlot i × (t.drv.skbs i ≡ s.head) × (s.head ≢ 0)
  pub head_fits : (i : ℕ) (s : SkBuff) → t.live i ≡ some s → s.head < 2 ^ 64
  pub vacant : (i : ℕ) → t.live i ≡ none → t.drv.skbs i ≡ 0

module _ (api : SkbApi) where
  -- What may happen between two calls into the hooks: an allocation that returns, the release of a
  -- live buffer whose head is still its slot, the release of a buffer from elsewhere, START and STOP.
  pub data Step (t : System) : System → Type 0 where
    alloc :
        (fuel : ℕ) (s : SkBuff) {d' : Driver} {s' : SkBuff}
        → IsFresh s
        → memory_mask s.head ≢ memory_mask t.drv.kva
        → netdev_alloc_skb api fuel t.drv (some s) ≡ returns (d', some s')
        → Step t (record {
          drv = d';
          live = if s'.head == s.head then t.live else update t.live d'.next (some s);
        })
    release :
        (i : ℕ) (u s : SkBuff)
        → t.live i ≡ some s
        → u.head ≡ slot_address t.drv.kva i
        → Step t (record { drv = (skb_release_data t.drv u).0; live = update t.live i none })
    release_native :
        (u : SkBuff)
        → memory_mask u.head ≢ memory_mask t.drv.kva
        → Step t (record t { drv = (skb_release_data t.drv u).0 })
    switch : (on : Bool) → Step t (record t { drv = record t.drv { running = on } })

  pub data Reach (t : System) : System → Type 0 where
    here : Reach t t
    later : {u v : System} → Reach t u → Step u v → Reach t v

  -- A moved buffer has a new head, in the window.
  moved_head :
      (d : Driver) (s : SkBuff) (i : ℕ) {d' : Driver} {s' : SkBuff}
      → IsMapped d.kva
      → d.kva % max_memory ≡ 0
      → memory_mask s.head ≢ memory_mask d.kva
      → IsMoved api d s i d' s'
      → (s'.head ≡ d.kva + i * skb_size) × (s'.head ≢ s.head)
  moved_head d s i m al far mv =
      let place = mv.place.slot in
      rw (mv.buffer, relocate_eq api s (slot_address d.kva i)) (omega arith, λ e. far (omega arith))

-- A fresh buffer takes a vacant slot.
IsSafe-take :
    (t : System) (i : ℕ) (s : SkBuff)
    → IsSafe t
    → IsSlot i
    → s.head ≢ 0
    → s.head < 2 ^ 64
    → IsSafe (record {
      drv = record t.drv { skbs = update t.drv.skbs i s.head; next = i };
      live = update t.live i (some s);
    })
IsSafe-take t i s v hi h fits = record {
  mapped = v.mapped;
  aligned = v.aligned;
  next_slot = hi;
  held = λ j b e. ground (arith, v.held j b);
  head_fits = λ j b e. ground (arith, v.head_fits j b);
  vacant = λ j e. ground (arith, v.vacant j);
}

-- A live buffer leaves its slot.
IsSafe-give :
    (t : System) (i : ℕ)
    → IsSafe t
    → IsSafe (record {
      drv = record t.drv { skbs = update t.drv.skbs i 0 };
      live = update t.live i none;
    })
IsSafe-give t i v = record {
  mapped = v.mapped;
  aligned = v.aligned;
  next_slot = v.next_slot;
  held = λ j b e. ground (arith, v.held j b);
  head_fits = λ j b e. ground (arith, v.head_fits j b);
  vacant = λ j e. ground (arith, v.vacant j);
}

-- A free slot has no live buffer.
vacant_of_free : {u : System} {i : ℕ} → IsSafe u → u.drv.skbs i ≡ 0 → u.live i ≡ none
vacant_of_free {u} {i} v free = elim (Option-cases (u.live i)) [
  | inl e ↦ e
  | inr (s, e) ↦ let h = v.held i s e in absurd (h.2 (sym h.1 ∙ free))
]

-- The release of a live buffer, in a state that is safe.
release_live :
    (t : System) (i : ℕ) (u s : SkBuff)
    → IsSafe t
    → t.live i ≡ some s
    → u.head ≡ slot_address t.drv.kva i
    → skb_release_data t.drv u ≡ (record t.drv { skbs = update t.drv.skbs i 0 }, restore u s.head)
release_live t i u s v live e =
    let h = v.held i s live in
    let freed = skb_release_data-slot t.drv u i v.mapped h.0 (omega arith) (rw h.1 h.2) e in
    freed ∙ ap (λ a. (record t.drv { skbs = update t.drv.skbs i 0 }, restore u a)) h.1

module _ (api : SkbApi) where
  -- One call of a hook keeps the pool safe.
  pub Step-IsSafe : {t u : System} → Step api t u → IsSafe t → IsSafe u
  Step-IsSafe {t} (alloc fuel s f far e) v =
      elim (netdev_alloc_skb-cases api fuel t.drv s v.next_slot e) [
        | inl same ↦ rw (same.0, same.1, eq→== s.head s.head refl) v
        | inr (i, mv) ↦
            let moved = moved_head api t.drv s i v.mapped v.aligned far mv in
            rw (ne→== _ _ moved.1, mv.driver)
              (IsSafe-take t i s v mv.place.slot f.nonnull f.head_fits)
      ]
  Step-IsSafe {t} (release i u s live e) v = rw (release_live t i u s v live e) (IsSafe-give t i v)
  Step-IsSafe {t} (release_native u far) v = rw (skb_release_data_native t.drv u far) v
  Step-IsSafe {t} (switch on) v = record {
    mapped = v.mapped;
    aligned = v.aligned;
    next_slot = v.next_slot;
    held = v.held;
    head_fits = v.head_fits;
    vacant = v.vacant;
  }

  pub IsInitial-IsSafe : {t : System} → IsInitial t → IsSafe t
  IsInitial-IsSafe {t} h = record {
    mapped = h.0;
    aligned = h.1;
    next_slot = h.2;
    held = λ i s e. absurd (ground (arith, h.4 i));
    head_fits = λ i s e. absurd (ground (arith, h.4 i));
    vacant = λ i e. h.3 i;
  }

  pub Reach-IsSafe : {t u : System} → Reach api t u → IsInitial t → IsSafe u
  Reach-IsSafe here h = IsInitial-IsSafe h
  Reach-IsSafe (later r st) h = Step-IsSafe st (Reach-IsSafe r h)

  -- In every state that calls of the two hooks reach from a freshly loaded module whose mapping
  -- is aligned to 32 MB, releasing the live buffer of a slot hands the native release function a
  -- buffer at the head that the native allocator returned for it, with the offsets of data, tail
  -- and end from the head, and the length, that it had in the slot, and clears that slot alone.
  pub release_gives_back :
      {t u : System} (i : ℕ) (b s : SkBuff)
      → IsInitial t
      → Reach api t u
      → u.live i ≡ some s
      → b.head ≡ slot_address u.drv.kva i
      → IsGivenBack b s.head (skb_release_data u.drv b).1
        × ((skb_release_data u.drv b).0.skbs ≡ update u.drv.skbs i 0)
  release_gives_back {u} i b s h r live e =
      let v = Reach-IsSafe r h in
      let given = release_live u i b s v live e in
      rw given (restore-IsGivenBack b s.head (v.head_fits i s live), refl)

  moved_end :
      (d : Driver) (s : SkBuff) (i : ℕ) {d' : Driver} {s' : SkBuff}
      → IsMapped d.kva
      → IsMoved api d s i d' s'
      → s'.end ≤ s'.head + skb_size
  moved_end d s i m mv =
      let place = mv.place.slot in
      let small = mv.small in rw (mv.buffer, relocate_eq api s (slot_address d.kva i)) (omega arith)

  -- In every state that calls of the two hooks reach from a freshly loaded module whose mapping
  -- is aligned to 32 MB, an allocation that gives a buffer from elsewhere a new head puts it at
  -- the address of a slot from 1 to 8191 that has no live buffer, and the end of the buffer lies
  -- at most 4 KB past the head.
  pub alloc_takes_vacant :
      {t u : System} (fuel : ℕ) (s : SkBuff) {d' : Driver} {s' : SkBuff}
      → IsInitial t
      → Reach api t u
      → memory_mask s.head ≢ memory_mask u.drv.kva
      → netdev_alloc_skb api fuel u.drv (some s) ≡ returns (d', some s')
      → s'.head ≢ s.head
      → IsSlot d'.next
        × (u.live d'.next ≡ none)
        × (s'.head ≡ u.drv.kva + d'.next * skb_size)
        × (s'.end ≤ s'.head + skb_size)
  alloc_takes_vacant {u} fuel s h r far e ne =
      let v = Reach-IsSafe r h in
      elim (netdev_alloc_skb-cases api fuel u.drv s v.next_slot e) [
        | inl same ↦ absurd (ne (ap (λ (b : SkBuff). b.head) same.1))
        | inr (i, mv) ↦ rw mv.driver (
          mv.place.slot,
          vacant_of_free v mv.place.free,
          (moved_head api u.drv s i v.mapped v.aligned far mv).0,
          moved_end u.drv s i v.mapped mv,
        )
      ]
