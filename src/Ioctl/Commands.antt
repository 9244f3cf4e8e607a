-- ===== src/Ioctl/Commands.antt =====
-- What each command does, and what the checks refuse.
use porteus_gpu.Ioctl.{
  stop_command, nfgpu_set_mempool, stop, set_buffers, mem_info_size, ioctl_magic, start,
  ioctl_switch, MapState, ioctl_checks, nfgpu_ioctl, Mm, IocApi,
}
use porteus_gpu.Base.{
  ap, refl, eq→==, efault, if◌then◌else◌, ◌⊎◌, arith, ◌≢◌, ◌^◌, ◌<◌, ℕ, ◌≡◌, inl, inr, true, false,
  ok, fail, returns, enotty,
}

-- The documented meaning of the macros: a command's parts are those that it was made of.
pub record IsIoc (ioc : IocApi) : Type 0 where
  pub type-io : (t n : ℕ) → t < 256 → n < 256 → ioc.ioc_type (ioc.io t n) ≡ t
  pub nr-io : (t n : ℕ) → t < 256 → n < 256 → ioc.ioc_nr (ioc.io t n) ≡ n
  pub reads-io : (t n : ℕ) → t < 256 → n < 256 → ioc.ioc_reads (ioc.io t n) ≡ false
  pub writes-io : (t n : ℕ) → t < 256 → n < 256 → ioc.ioc_writes (ioc.io t n) ≡ false
  pub type-iow : (t n s : ℕ) → t < 256 → n < 256 → s < 2 ^ 14 → ioc.ioc_type (ioc.iow t n s) ≡ t
  pub nr-iow : (t n s : ℕ) → t < 256 → n < 256 → s < 2 ^ 14 → ioc.ioc_nr (ioc.iow t n s) ≡ n
  pub size-iow : (t n s : ℕ) → t < 256 → n < 256 → s < 2 ^ 14 → ioc.ioc_size (ioc.iow t n s) ≡ s
  pub reads-iow :
      (t n s : ℕ) → t < 256 → n < 256 → s < 2 ^ 14 → ioc.ioc_reads (ioc.iow t n s) ≡ false
  pub writes-iow :
      (t n s : ℕ) → t < 256 → n < 256 → s < 2 ^ 14 → ioc.ioc_writes (ioc.iow t n s) ≡ true
  pub nr-ior : (t n s : ℕ) → t < 256 → n < 256 → s < 2 ^ 14 → ioc.ioc_nr (ioc.ior t n s) ≡ n

module _ (ioc : IocApi) {T : Type 0} (mm : Mm T) where
  -- A command of another type, or with a number past 4, returns -ENOTTY and changes nothing.
  pub nfgpu_ioctl_refuses :
      (limit cmd arg : ℕ) (st : MapState T)
      → (ioc.ioc_type cmd ≢ ioctl_magic) ⊎ (4 < ioc.ioc_nr cmd)
      → nfgpu_ioctl ioc mm limit cmd arg st ≡ returns (fail enotty, st)
  unfolding nfgpu_ioctl ioctl_checks
  nfgpu_ioctl_refuses limit cmd arg st (inl other) = ground arith
  nfgpu_ioctl_refuses limit cmd arg st (inr large) = ground arith

  module _ (laws : IsIoc ioc) where
    -- The commands have different numbers, so they differ.
    pub start_lem :
        (limit arg : ℕ) (st : MapState T)
        → nfgpu_ioctl ioc mm limit (start ioc) arg st
          ≡ returns (ok, record st { drv = record st.drv { running = true } })
    unfolding nfgpu_ioctl ioctl_checks ioctl_switch
    start_lem limit arg st = ground (
      arith,
      laws.type-io ioctl_magic 3 (omega arith) (omega arith),
      laws.nr-io ioctl_magic 3 (omega arith) (omega arith),
      laws.reads-io ioctl_magic 3 (omega arith) (omega arith),
      laws.writes-io ioctl_magic 3 (omega arith) (omega arith),
      laws.nr-iow ioctl_magic 1 mem_info_size (omega arith) (omega arith) (omega arith),
      laws.nr-ior ioctl_magic 2 mem_info_size (omega arith) (omega arith) (omega arith),
    )

    pub stop_lem :
        (limit arg : ℕ) (st : MapState T)
        → nfgpu_ioctl ioc mm limit (stop ioc) arg st ≡ returns (ok, stop_command ioc mm st)
    unfolding nfgpu_ioctl ioctl_checks ioctl_switch
    stop_lem limit arg st = ground (
      arith,
      laws.type-io ioctl_magic 4 (omega arith) (omega arith),
      laws.nr-io ioctl_magic 4 (omega arith) (omega arith),
      laws.nr-io ioctl_magic 3 (omega arith) (omega arith),
      laws.reads-io ioctl_magic 4 (omega arith) (omega arith),
      laws.writes-io ioctl_magic 4 (omega arith) (omega arith),
      laws.nr-iow ioctl_magic 1 mem_info_size (omega arith) (omega arith) (omega arith),
      laws.nr-ior ioctl_magic 2 mem_info_size (omega arith) (omega arith) (omega arith),
    )

    set_checks :
        (arg : ℕ)
        → ioctl_checks ioc (set_buffers ioc) arg
          ≡ (if ioc.access_ok false arg mem_info_size then ok else fail efault)
    unfolding ioctl_checks
    set_checks arg = ground (
      arith,
      laws.type-iow ioctl_magic 1 mem_info_size (omega arith) (omega arith) (omega arith),
      laws.nr-iow ioctl_magic 1 mem_info_size (omega arith) (omega arith) (omega arith),
      laws.size-iow ioctl_magic 1 mem_info_size (omega arith) (omega arith) (omega arith),
      laws.reads-iow ioctl_magic 1 mem_info_size (omega arith) (omega arith) (omega arith),
      laws.writes-iow ioctl_magic 1 mem_info_size (omega arith) (omega arith) (omega arith),
      ap (λ n. ioc.access_ok false arg n)
          (laws.size-iow ioctl_magic 1 mem_info_size (omega arith) (omega arith) (omega arith)),
    )

    -- SET_BUFFERS whose argument the caller may read.
    pub set_buffers_lem :
        (limit arg : ℕ) (st : MapState T)
        → ioc.access_ok false arg mem_info_size ≡ true
        → nfgpu_ioctl ioc mm limit (set_buffers ioc) arg st ≡ nfgpu_set_mempool mm limit arg st
    unfolding nfgpu_ioctl ioctl_switch
    set_buffers_lem limit arg st readable =
        rw (set_checks arg, nfgpu_ioctl)
          (rw readable (rw (eq→== (set_buffers ioc) (set_buffers ioc) refl) refl))
