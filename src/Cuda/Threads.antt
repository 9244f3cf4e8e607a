-- ===== src/Cuda/Threads.antt =====
-- A kernel whose thread reads and writes one block of 16 bytes: what a thread, two threads, and a launch do.
use porteus_gpu.Cuda.{launch}
use porteus_gpu.Aes.Rounds.{Block_eq, IsBlock}
use porteus_gpu.Base.{
  write32-Outside, ◌<◌, refl, zero, suc, ◌≢◌, write32_same, write32_comm, write32-read32, read32-lt,
  write32-IsBytes, read32-write32, ap, read32-Apart, ◌∙◌, arith, ◌⊎◌, ◌≤◌, IsBytes, ◌≡◌, write32,
  read32, ◌+◌, Mem, ℕ,
}
use porteus_gpu.Aes.{Block}

-- The four words at p, as they are stored.
abbrev pub load : ℕ → Mem → Block
load p m = record {
  w0 = read32 m p;
  w1 = read32 m (p + 4);
  w2 = read32 m (p + 8);
  w3 = read32 m (p + 12);
}

abbrev pub store : ℕ → Block → Mem → Mem
store p b m = write32 (p + 12) b.w3 (write32 (p + 8) b.w2 (write32 (p + 4) b.w1 (write32 p b.w0 m)))

-- Two blocks of 16 bytes with none in common.
abbrev pub Disjoint : ℕ → ℕ → Type 0
Disjoint p q = (p + 16 ≤ q) ⊎ (q + 16 ≤ p)

pub load-store-Disjoint :
    (p q : ℕ) (b : Block) (m : Mem) → Disjoint p q → load q (store p b m) ≡ load q m
load-store-Disjoint p q b m h =
    Block_eq _ _ (word q (omega arith)) (word (q + 4) (omega arith)) (word (q + 8) (omega arith))
      (word (q + 12) (omega arith))
  where
    word : (r : ℕ) → (p + 16 ≤ r) ⊎ (r + 4 ≤ p) → read32 (store p b m) r ≡ read32 m r
    word r o =
        read32-Apart (p + 12) r b.w3 _ (omega arith)
        ∙ read32-Apart (p + 8) r b.w2 _ (omega arith)
        ∙ read32-Apart (p + 4) r b.w1 _ (omega arith)
        ∙ read32-Apart p r b.w0 m (omega arith)

pub load-store : (p : ℕ) (b : Block) (m : Mem) → IsBlock b → load p (store p b m) ≡ b
load-store p b m v =
    Block_eq _ _
      (read32-Apart (p + 12) p b.w3 _ (omega arith)
        ∙ read32-Apart (p + 8) p b.w2 _ (omega arith)
        ∙ read32-Apart (p + 4) p b.w1 _ (omega arith)
        ∙ read32-write32 p b.w0 m v.lt0)
      (read32-Apart (p + 12) (p + 4) b.w3 _ (omega arith)
        ∙ read32-Apart (p + 8) (p + 4) b.w2 _ (omega arith)
        ∙ read32-write32 (p + 4) b.w1 _ v.lt1)
      (read32-Apart (p + 12) (p + 8) b.w3 _ (omega arith) ∙ read32-write32 (p + 8) b.w2 _ v.lt2)
      (read32-write32 (p + 12) b.w3 _ v.lt3)

-- A store moves past one word elsewhere.
store-write32 :
    (p q v : ℕ) (b : Block) (m : Mem)
    → (p + 16 ≤ q) ⊎ (q + 4 ≤ p)
    → store p b (write32 q v m) ≡ write32 q v (store p b m)
store-write32 p q v b m h =
    ap (write32 (p + 12) b.w3) (
      ap (write32 (p + 8) b.w2) (
        ap (write32 (p + 4) b.w1) (write32_comm p q b.w0 v m (omega arith))
        ∙ write32_comm (p + 4) q b.w1 v _ (omega arith))
      ∙ write32_comm (p + 8) q b.w2 v _ (omega arith))
    ∙ write32_comm (p + 12) q b.w3 v _ (omega arith)

pub store_comm :
    (p q : ℕ) (b c : Block) (m : Mem)
    → Disjoint p q
    → store p b (store q c m) ≡ store q c (store p b m)
store_comm p q b c m h =
    store-write32 p (q + 12) c.w3 b _ (omega arith)
    ∙ ap (write32 (q + 12) c.w3) (
        store-write32 p (q + 8) c.w2 b _ (omega arith)
        ∙ ap (write32 (q + 8) c.w2) (
            store-write32 p (q + 4) c.w1 b _ (omega arith)
            ∙ ap (write32 (q + 4) c.w1) (store-write32 p q c.w0 b m (omega arith))))

module _ (p : ℕ) (b : Block) (v : ℕ) (m : Mem) where
  absorb0 : store p b (write32 p v m) ≡ store p b m
  absorb0 =
      ap (λ t. write32 (p + 12) b.w3 (write32 (p + 8) b.w2 (write32 (p + 4) b.w1 t)))
        (write32_same p b.w0 v m)

  absorb4 : store p b (write32 (p + 4) v m) ≡ store p b m
  absorb4 =
      ap (λ t. write32 (p + 12) b.w3 (write32 (p + 8) b.w2 t))
        (ap (write32 (p + 4) b.w1) (write32_comm p (p + 4) b.w0 v m (omega arith))
          ∙ write32_same (p + 4) b.w1 v _)

  absorb8 : store p b (write32 (p + 8) v m) ≡ store p b m
  absorb8 = ap (write32 (p + 12) b.w3) (
      ap (write32 (p + 8) b.w2) (
        ap (write32 (p + 4) b.w1) (write32_comm p (p + 8) b.w0 v m (omega arith))
        ∙ write32_comm (p + 4) (p + 8) b.w1 v _ (omega arith))
      ∙ write32_same (p + 8) b.w2 v _)

  absorb12 : store p b (write32 (p + 12) v m) ≡ store p b m
  absorb12 =
      ap (write32 (p + 12) b.w3) (
        ap (write32 (p + 8) b.w2) (
          ap (write32 (p + 4) b.w1) (write32_comm p (p + 12) b.w0 v m (omega arith))
          ∙ write32_comm (p + 4) (p + 12) b.w1 v _ (omega arith))
        ∙ write32_comm (p + 8) (p + 12) b.w2 v _ (omega arith))
      ∙ write32_same (p + 12) b.w3 v _

pub store_twice : (p : ℕ) (b c : Block) (m : Mem) → store p b (store p c m) ≡ store p b m
store_twice p b c m =
    absorb12 p b c.w3 _ ∙ absorb8 p b c.w2 _ ∙ absorb4 p b c.w1 _ ∙ absorb0 p b c.w0 m

pub store-load : (p : ℕ) (m : Mem) → IsBytes m → store p (load p m) m ≡ m
store-load p m h =
    ap
      (λ t.
        write32 (p + 12) (read32 m (p + 12))
          (write32 (p + 8) (read32 m (p + 8)) (write32 (p + 4) (read32 m (p + 4)) t)))
      (write32-read32 p m h)
    ∙ ap (λ t. write32 (p + 12) (read32 m (p + 12)) (write32 (p + 8) (read32 m (p + 8)) t))
        (write32-read32 (p + 4) m h)
    ∙ ap (write32 (p + 12) (read32 m (p + 12))) (write32-read32 (p + 8) m h)
    ∙ write32-read32 (p + 12) m h

pub store-IsBytes : (p : ℕ) (b : Block) (m : Mem) → IsBytes m → IsBytes (store p b m)
store-IsBytes p b m h =
    write32-IsBytes (p + 12) _
      (write32-IsBytes (p + 8) _ (write32-IsBytes (p + 4) _ (write32-IsBytes p m h b.w0) b.w1) b.w2)
      b.w3

pub load-IsBlock : (p : ℕ) (m : Mem) → IsBytes m → IsBlock (load p m)
load-IsBlock p m h = record {
  lt0 = read32-lt p m h;
  lt1 = read32-lt (p + 4) m h;
  lt2 = read32-lt (p + 8) m h;
  lt3 = read32-lt (p + 12) m h;
}

-- A block changed in place, and changed back.
pub store_back :
    (p : ℕ) (m : Mem) (b : Block) (h : Block → Block)
    → IsBytes m
    → IsBlock b
    → h b ≡ load p m
    → store p (h (load p (store p b m))) (store p b m) ≡ m
store_back p m b h bytes v e =
    ap (λ t. store p (h t) (store p b m)) (load-store p b m v)
    ∙ ap (λ t. store p t (store p b m)) e
    ∙ store_twice p (load p m) b m
    ∙ store-load p m bytes

pub store_outside :
    (p : ℕ) (b : Block) (m : Mem) (a : ℕ) → (a < p) ⊎ (p + 16 ≤ a) → store p b m a ≡ m a
store_outside p b m a o =
    write32-Outside (p + 12) b.w3 _ a (omega arith)
    ∙ write32-Outside (p + 8) b.w2 _ a (omega arith)
    ∙ write32-Outside (p + 4) b.w1 _ a (omega arith)
    ∙ write32-Outside p b.w0 m a (omega arith)

-- Launches of two kernels that undo each other in each thread, and act on different blocks in
-- different threads.
module _ (f g : ℕ → Mem → Mem) (bytes : (i : ℕ) (m : Mem) → IsBytes m → IsBytes (f i m)) where
  launch-thread :
      ((i j : ℕ) (m : Mem) → i ≢ j → g i (f j m) ≡ f j (g i m))
      → (n j : ℕ) (m : Mem) → n ≤ j
      → launch n g (f j m) ≡ f j (launch n g m)
  unfolding launch
  launch-thread comm zero j m h = refl
  launch-thread comm (suc n) j m h =
      ap (g n) (launch-thread comm n j m (omega arith)) ∙ comm n j (launch n g m) (omega arith)

  launch-IsBytes : (n : ℕ) (m : Mem) → IsBytes m → IsBytes (launch n f m)
  unfolding launch
  launch-IsBytes zero m h = h
  launch-IsBytes (suc n) m h = bytes n (launch n f m) (launch-IsBytes n m h)

  pub launch-launch :
      ((i j : ℕ) (m : Mem) → i ≢ j → g i (f j m) ≡ f j (g i m))
      → ((i : ℕ) (m : Mem) → IsBytes m → g i (f i m) ≡ m)
      → (n : ℕ) (m : Mem) → IsBytes m
      → launch n g (launch n f m) ≡ m
  unfolding launch
  launch-launch comm undo zero m h = refl
  launch-launch comm undo (suc n) m h =
      ap (g n) (launch-thread comm n n (launch n f m) (omega arith))
      ∙ ap (λ t. g n (f n t)) (launch-launch comm undo n m h)
      ∙ undo n m h
