-- ===== src/Ioctl.antt =====
-- togpu/driver/xt_TOGPU_main.c, `nfgpu_ioctl`: the checks of a command, and the four commands.
pub mod Commands
pub mod Session
pub mod Restart
mod Tests
use porteus_gpu.Config.{ioctl_magic}
use porteus_gpu.Mempool.{nfgpu_set_mempool, MapState, Mm}
use porteus_gpu.Base.{
  ltb, ◌==◌, Outcome, not, ◌&&◌, if◌then◌else◌, Bool, Status, ℕ, zero, suc, ◌≡◌, refl, inl, inr,
  some, none, true, false, ok, fail, returns, waits, fault, efault, enotty,
}

-- The kernel's ioctl.h: how a command number is put together and taken apart. `access_ok` is told
-- whether the caller's memory is to be written.
pub record IocApi : Type 0 where
  pub io : ℕ → ℕ → ℕ
  pub iow : ℕ → ℕ → ℕ → ℕ
  pub ior : ℕ → ℕ → ℕ → ℕ
  pub ioc_type : ℕ → ℕ
  pub ioc_nr : ℕ → ℕ
  pub ioc_size : ℕ → ℕ
  pub ioc_reads : ℕ → Bool
  pub ioc_writes : ℕ → Bool
  pub access_ok : Bool → ℕ → ℕ → Bool

-- sizeof(struct nfgpu_mem_info)
abbrev pub mem_info_size : ℕ
mem_info_size = 16

module _ (ioc : IocApi) where
  -- TOGPU_IOCTL_SET_BUFFERS and the others
  abbrev pub set_buffers : ℕ
  set_buffers = ioc.iow ioctl_magic 1 mem_info_size

  abbrev pub get_buffers : ℕ
  get_buffers = ioc.ior ioctl_magic 2 mem_info_size

  abbrev pub start : ℕ
  start = ioc.io ioctl_magic 3

  abbrev pub stop : ℕ
  stop = ioc.io ioctl_magic 4

  -- The checks before the command: the error that they return, if any.
  pub ioctl_checks : ℕ → ℕ → Status
  ioctl_checks cmd arg =
      let err =
        if ioc.ioc_reads cmd
        then not (ioc.access_ok true arg (ioc.ioc_size cmd))
        else if ioc.ioc_writes cmd
        then not (ioc.access_ok false arg (ioc.ioc_size cmd))
        else false in
      if not (ioc.ioc_type cmd == ioctl_magic)
      then fail enotty
      else if ltb 4 (ioc.ioc_nr cmd)
      then fail enotty
      else if err
      then fail efault
      else ok

  module _ {T : Type 0} (mm : Mm T) where
    -- TOGPU_IOCTL_STOP: the mapping goes, and `nfgpu_kva` keeps its address.
    pub stop_command : MapState T → MapState T
    stop_command st =
        let d = st.drv in
        let tables =
          if d.running && not (d.kva == 0) then mm.vunmap d.kva st.tables else st.tables in
        record { tables = tables; drv = record d { running = false } }

    -- The `switch` on the command.
    pub ioctl_switch : ℕ → ℕ → ℕ → MapState T → Outcome (Status × MapState T)
    ioctl_switch limit cmd arg st =
        if cmd == set_buffers
        then nfgpu_set_mempool mm limit arg st
        else if cmd == get_buffers
        then returns (ok, st)
        else if cmd == start
        then returns (ok, record st { drv = record st.drv { running = true } })
        else if cmd == stop
        then returns (ok, stop_command st)
        else returns (fail enotty, st)

    -- `nfgpu_ioctl`
    pub nfgpu_ioctl : ℕ → ℕ → ℕ → MapState T → Outcome (Status × MapState T)
    nfgpu_ioctl limit cmd arg st = elim (ioctl_checks cmd arg) [
      | fail e ↦ returns (fail e, st)
      | ok ↦ ioctl_switch limit cmd arg st
    ]
