-- ===== src/Config.antt =====
-- togpu/driver/xt_TOGPU.h: the sizes of the shared GPU memory.
use porteus_gpu.Base.{ℕ, ◌*◌, ◌/◌, ◌^◌}

-- NFGPU_MAX_MEMORY, 32 MB
abbrev pub max_memory : ℕ
max_memory = 2 ^ 25

-- NFGPU_MAX_PAGES, with pages of 4096 bytes
abbrev pub max_pages : ℕ
max_pages = max_memory / 4096

-- NFGPU_SKB_OFFSET
abbrev pub skb_offset : ℕ
skb_offset = 12

-- NFGPU_SKB_SIZE, 4 KB
abbrev pub skb_size : ℕ
skb_size = 2 ^ skb_offset

-- NFGPU_MAX_SKBS
abbrev pub max_skbs : ℕ
max_skbs = max_memory / skb_size

-- `p & NFGPU_MEMORY_MASK`: the mask clears the 25 low bits of a 64-bit word.
abbrev pub memory_mask : ℕ → ℕ
memory_mask p = p / max_memory * max_memory

-- `struct nfgpu_mem_info`
pub record NfgpuMemInfo : Type 0 where
  pub uva : ℕ
  pub size : ℕ

-- NFGPU_IOCTL_MAGIC
abbrev pub ioctl_magic : ℕ
ioctl_magic = b't'
