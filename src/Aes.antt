-- ===== src/Aes.antt =====
-- togpu/driver/xt_TOGPU_kernel.cu: AES on one block of four words, which the kernels for encryption and
-- decryption share. The rounds are written out in the source, and are counted here.
pub mod Tables
pub mod Bytes
pub mod Words
pub mod Fips
pub mod Linear
pub mod Rounds
pub mod RoundTrip
pub mod Schedule
mod Tests
unfoldable pub use Tables.{te0, te1, te2, te3, te4, td0, td1, td2, td3, td4}
use Prim.Native.Nat.{suc, ℕ, bit_and}
use porteus_gpu.Base.{ltb, zero, ◌*◌, ◌^◌, ◌∷◌, ◌+◌, ◌/◌, if◌then◌else◌, List, [], ◌⊕◌}

-- An element of a table; the index is always a byte.
unfoldable pub lookup : List ℕ → ℕ → ℕ
lookup [] i = 0
lookup (x ∷ xs) zero = x
lookup (x ∷ xs) (suc i) = lookup xs i

-- `w >> 24`, `(w >> 16) & 0xff`, `(w >> 8) & 0xff` and `w & 0xff`
abbrev pub byte3 : ℕ → ℕ
byte3 w = w / 2 ^ 24

abbrev pub byte2 : ℕ → ℕ
byte2 w = bit_and (w / 2 ^ 16) 0xff

abbrev pub byte1 : ℕ → ℕ
byte1 w = bit_and (w / 2 ^ 8) 0xff

abbrev pub byte0 : ℕ → ℕ
byte0 w = bit_and w 0xff

-- The words s0, s1, s2, s3, and t0, t1, t2, t3.
pub record Block : Type 0 where
  pub w0 : ℕ
  pub w1 : ℕ
  pub w2 : ℕ
  pub w3 : ℕ

unfoldable pub add_key : (ℕ → ℕ) → ℕ → Block → Block
add_key rk n s = record {
  w0 = s.w0 ⊕ rk n;
  w1 = s.w1 ⊕ rk (n + 1);
  w2 = s.w2 ⊕ rk (n + 2);
  w3 = s.w3 ⊕ rk (n + 3);
}

-- One word of an encryption round, before the key.
unfoldable pub te_mix : ℕ → ℕ → ℕ → ℕ → ℕ
te_mix a b c d =
    lookup te0 (byte3 a) ⊕ lookup te1 (byte2 b) ⊕ lookup te2 (byte1 c) ⊕ lookup te3 (byte0 d)

unfoldable pub te_round : (ℕ → ℕ) → ℕ → Block → Block
te_round rk n s = record {
  w0 = te_mix s.w0 s.w1 s.w2 s.w3 ⊕ rk n;
  w1 = te_mix s.w1 s.w2 s.w3 s.w0 ⊕ rk (n + 1);
  w2 = te_mix s.w2 s.w3 s.w0 s.w1 ⊕ rk (n + 2);
  w3 = te_mix s.w3 s.w0 s.w1 s.w2 ⊕ rk (n + 3);
}

-- Rounds 1 to n: round i has the key from word 4 i on.
unfoldable pub te_rounds : ℕ → (ℕ → ℕ) → Block → Block
te_rounds zero rk s = s
te_rounds (suc n) rk s = te_round rk (4 * (n + 1)) (te_rounds n rk s)

-- One word of the last round, before the key.
unfoldable pub te_last : ℕ → ℕ → ℕ → ℕ → ℕ
te_last a b c d =
    bit_and (lookup te4 (byte3 a)) 0xff000000
    ⊕ bit_and (lookup te4 (byte2 b)) 0x00ff0000
    ⊕ bit_and (lookup te4 (byte1 c)) 0x0000ff00
    ⊕ bit_and (lookup te4 (byte0 d)) 0x000000ff

unfoldable pub te_last_round : (ℕ → ℕ) → ℕ → Block → Block
te_last_round rk n t = record {
  w0 = te_last t.w0 t.w1 t.w2 t.w3 ⊕ rk n;
  w1 = te_last t.w1 t.w2 t.w3 t.w0 ⊕ rk (n + 1);
  w2 = te_last t.w2 t.w3 t.w0 t.w1 ⊕ rk (n + 2);
  w3 = te_last t.w3 t.w0 t.w1 t.w2 ⊕ rk (n + 3);
}

-- From the text of a block to its cipher text: 9 rounds, 2 or 4 more by `nrounds`, and the last.
unfoldable pub encrypt_block : (ℕ → ℕ) → ℕ → Block → Block
encrypt_block rk nrounds text =
    let t = te_rounds 9 rk (add_key rk 0 text) in
    let t₁₁ = te_round rk 44 (te_round rk 40 t) in
    let t₁₃ = te_round rk 52 (te_round rk 48 t₁₁) in
    let t' = if ltb 10 nrounds then if ltb 12 nrounds then t₁₃ else t₁₁ else t in
    te_last_round rk (nrounds * 4) t'

-- The same for decryption, with the words in the other order.
unfoldable pub td_mix : ℕ → ℕ → ℕ → ℕ → ℕ
td_mix a b c d =
    lookup td0 (byte3 a) ⊕ lookup td1 (byte2 b) ⊕ lookup td2 (byte1 c) ⊕ lookup td3 (byte0 d)

unfoldable pub td_round : (ℕ → ℕ) → ℕ → Block → Block
td_round rk n s = record {
  w0 = td_mix s.w0 s.w3 s.w2 s.w1 ⊕ rk n;
  w1 = td_mix s.w1 s.w0 s.w3 s.w2 ⊕ rk (n + 1);
  w2 = td_mix s.w2 s.w1 s.w0 s.w3 ⊕ rk (n + 2);
  w3 = td_mix s.w3 s.w2 s.w1 s.w0 ⊕ rk (n + 3);
}

unfoldable pub td_rounds : ℕ → (ℕ → ℕ) → Block → Block
td_rounds zero rk s = s
td_rounds (suc n) rk s = td_round rk (4 * (n + 1)) (td_rounds n rk s)

unfoldable pub td_last : ℕ → ℕ → ℕ → ℕ → ℕ
td_last a b c d =
    bit_and (lookup td4 (byte3 a)) 0xff000000
    ⊕ bit_and (lookup td4 (byte2 b)) 0x00ff0000
    ⊕ bit_and (lookup td4 (byte1 c)) 0x0000ff00
    ⊕ bit_and (lookup td4 (byte0 d)) 0x000000ff

unfoldable pub td_last_round : (ℕ → ℕ) → ℕ → Block → Block
td_last_round rk n t = record {
  w0 = td_last t.w0 t.w3 t.w2 t.w1 ⊕ rk n;
  w1 = td_last t.w1 t.w0 t.w3 t.w2 ⊕ rk (n + 1);
  w2 = td_last t.w2 t.w1 t.w0 t.w3 ⊕ rk (n + 2);
  w3 = td_last t.w3 t.w2 t.w1 t.w0 ⊕ rk (n + 3);
}

unfoldable pub decrypt_block : (ℕ → ℕ) → ℕ → Block → Block
decrypt_block rk nrounds text =
    let t = td_rounds 9 rk (add_key rk 0 text) in
    let t₁₁ = td_round rk 44 (td_round rk 40 t) in
    let t₁₃ = td_round rk 52 (td_round rk 48 t₁₁) in
    let t' = if ltb 10 nrounds then if ltb 12 nrounds then t₁₃ else t₁₁ else t in
    td_last_round rk (nrounds * 4) t'
