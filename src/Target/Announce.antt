-- ===== src/Target/Announce.antt =====
-- What `nfgpu_target` announces, and to whom it returns.
use porteus_gpu.Config.{max_skbs, max_memory}
use porteus_gpu.Pool.Window.{slot_index-slot_address, memory_mask-slot_address, IsMapped}
use porteus_gpu.Pool.Live.{Reach-IsSafe, Reach, IsInitial, System}
use porteus_gpu.Pool.{slot_address, SkBuff, SkbApi}
use porteus_gpu.Target.{profile, nf_accept, memory_mask, Driver, nfgpu_target, target_index, poll}
use porteus_gpu.Base.{
  refl, zero, suc, none, some, true, false, returns, waits, ◌%◌, arith, ◌≢◌, ◌<◌, ℕ, ◌≡◌,
}

-- Polling ends as soon as the GPU has cleared the word.
pub poll_cleared :
    (fuel : ℕ) (reads : ℕ → ℕ) (k : ℕ) → k < fuel → reads k ≡ 0 → poll fuel reads ≡ true
unfolding poll
poll_cleared zero reads k h e = absurd (omega arith)
poll_cleared (suc fuel) reads zero h e = rw e refl
poll_cleared (suc fuel) reads (suc k) h e =
    ground (arith, poll_cleared fuel (λ j. reads (suc j)) k (omega arith) e)

pub poll_busy : (fuel : ℕ) (reads : ℕ → ℕ) → ((k : ℕ) → reads k ≢ 0) → poll fuel reads ≡ false
unfolding poll
poll_busy zero reads h = refl
poll_busy (suc fuel) reads h =
    ground (arith, h 0, poll_busy fuel (λ j. reads (suc j)) (λ j. h (suc j)))

-- While the module runs, a packet whose buffer lies in slot `i` of a mapping aligned to 32 MB is for the
-- GPU, and its index is `i`.
pub target_index-slot :
    (d : Driver) (skb : SkBuff) (i : ℕ)
    → d.running ≡ true
    → IsMapped d.kva
    → d.kva % max_memory ≡ 0
    → i < max_skbs
    → skb.head ≡ slot_address d.kva i
    → target_index d skb ≡ some i
unfolding target_index
target_index-slot d skb i on m al hi e =
    ground (arith, memory_mask-slot_address d.kva i m hi, slot_index-slot_address d.kva i m hi)

nfgpu_target_posted :
    (fuel : ℕ) (reads : ℕ → ℕ) (t0 t1 i : ℕ) (d : Driver) (skb : SkBuff)
    → target_index d skb ≡ some i
    → poll fuel reads ≡ true
    → nfgpu_target fuel reads t0 t1 d skb
      ≡ returns (nf_accept, profile d t0 t1, some (record { index = i; len = skb.len }))
unfolding nfgpu_target
nfgpu_target_posted fuel reads t0 t1 i d skb e clear = ground arith

-- In every state that calls of the two hooks reach from a freshly loaded module whose mapping is
-- aligned to 32 MB, while the module runs, a packet in the live buffer of slot i is announced to
-- the GPU under that slot's number, which is not 0, with the packet's length, and is accepted,
-- once some poll within the fuel finds the word cleared.
pub nfgpu_target_announces :
    (api : SkbApi) {t u : System} (fuel : ℕ) (reads : ℕ → ℕ) (t0 t1 i k : ℕ) (s skb : SkBuff)
    → IsInitial t
    → Reach api t u
    → u.drv.running ≡ true
    → u.live i ≡ some s
    → skb.head ≡ slot_address u.drv.kva i
    → k < fuel
    → reads k ≡ 0
    → (nfgpu_target fuel reads t0 t1 u.drv skb
        ≡ returns (nf_accept, profile u.drv t0 t1, some (record { index = i; len = skb.len })))
      × (i ≢ 0)
nfgpu_target_announces api {u} fuel reads t0 t1 i k s skb h r on live e hk clear =
    let v = Reach-IsSafe api r h in
    let place = (v.held i s live).0 in
    (
      nfgpu_target_posted fuel reads t0 t1 i u.drv skb
          (target_index-slot u.drv skb i on v.mapped v.aligned place.1 e)
          (poll_cleared fuel reads k hk clear),
      omega arith,
    )

-- A packet that is for the GPU keeps the target polling, whatever the fuel, if no poll finds the
-- word cleared.
pub nfgpu_target_waits :
    (fuel : ℕ) (reads : ℕ → ℕ) (t0 t1 : ℕ) (d : Driver) (skb : SkBuff) {i : ℕ}
    → target_index d skb ≡ some i
    → ((k : ℕ) → reads k ≢ 0)
    → nfgpu_target fuel reads t0 t1 d skb ≡ waits
unfolding nfgpu_target
nfgpu_target_waits fuel reads t0 t1 d skb e busy =
    rw (e, poll_busy fuel reads busy, nfgpu_target) refl

-- A packet whose buffer is outside the 32 MB window of the mapping is accepted at once: nothing
-- is announced, nothing is polled and the driver's state stays.
pub nfgpu_target_passes :
    (fuel : ℕ) (reads : ℕ → ℕ) (t0 t1 : ℕ) (d : Driver) (skb : SkBuff)
    → memory_mask skb.head ≢ memory_mask d.kva
    → nfgpu_target fuel reads t0 t1 d skb ≡ returns (nf_accept, d, none)
unfolding nfgpu_target target_index
nfgpu_target_passes fuel reads t0 t1 d skb far = ground arith

pub nfgpu_target_stopped :
    (fuel : ℕ) (reads : ℕ → ℕ) (t0 t1 : ℕ) (d : Driver) (skb : SkBuff)
    → d.running ≡ false
    → nfgpu_target fuel reads t0 t1 d skb ≡ returns (nf_accept, d, none)
unfolding nfgpu_target target_index
nfgpu_target_stopped fuel reads t0 t1 d skb off = ground arith
