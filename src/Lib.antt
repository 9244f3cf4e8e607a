-- ===== src/Lib.antt =====
-- TOGPU, the Linux driver of Porteus GPU that lets a GPU process network packets in place.
--
-- The kernel module takes 32 MB of the GPU's memory, which the launcher has allocated and hands over by
-- an ioctl, maps it into the kernel, and divides it into slots of 4 KB. While it runs, the hook of the
-- kernel's buffer allocator moves each new packet buffer into a free slot, and the hook of the release
-- function moves it back before the kernel frees it. The netfilter target announces a packet that lies in
-- a slot to the GPU, through two words in slot 0, and polls until the GPU has cleared the first.
--
-- Which file models what (paths from the repository's root):
-- - Config: the sizes and numbers of togpu/driver/xt_TOGPU.h.
-- - Pool: `__netdev_alloc_skb_togpu` (`netdev_alloc_skb`) and `skb_release_data_togpu`
--   (`skb_release_data`) of togpu/driver/xt_TOGPU_main.c, over `Driver`, the record of the module's
--   static variables. Search is the loop that looks for a free slot, Window the address tests, Release
--   and RoundTrip one release, Live any sequence of allocations and releases, Total when the allocation
--   hook returns, Race allocations and releases on several processors (Safe, Overlap).
-- - Target: `nfgpu_target` of the same file; Announce and Profile prove what it announces and counts,
--   and Race is announcements by several processors, with the GPU's loop (Safe, Overlap).
-- - Support: `nfgpu_thread`, over rounds of what it reads; Report is what it prints, Race its accesses to
--   the profiling counters and the target's (Safe, Overlap).
-- - Device: `nfgpu_open` and `nfgpu_release`, one after another (Exclusive) and overlapping (Race).
-- - PageWalk: togpu/driver/xt_TOGPU_pagewalk.c; Tables is what it takes from the kernel, Loops the rule
--   for its loops, Layout which pointers belong to which addresses, Blocks and Paging the same for the four
--   levels of x86-64, Covers and Total that a walk covers its range, Unaligned the range where it does not
--   end, Bounded that no part of it passes its end.
-- - Mempool: `nfgpu_set_mempool` and its callback `nfgpu_skb_pte_process`; Pages proves how
--   much they record, and Frames, Framed and Exact that it is the present pages in order.
-- - Ioctl: `nfgpu_ioctl`; Commands are its four commands and its checks, Session what they mean for the
--   hooks and the target, Restart what STOP, SET_BUFFERS and START mean after a session, for the buffers
--   that are out and for new ones.
-- - Symbols: `find_symbol_address` and `find_address_symbol` of togpu/driver/xt_TOGPU_symbols.c; Lookup and
--   Address prove what they find.
-- - Hook: `symbol_hook` and `symbol_restore` of togpu/driver/xt_TOGPU_hook.c, over a byte memory; Code
--   is the copy of one instruction. Jump has the jump that is written, Fixup where the addresses of copied
--   instructions lead, Copy and Copied one copied instruction, Loop the loop that copies the code, Rights the page's write bit, Restore the jump
--   and what comes before it, Install the whole.
-- - Load: `nfgpu_internal_init` and `nfgpu_exit` of togpu/driver/xt_TOGPU_main.c, over `Togpu`, the driver
--   with the records of its hooks. Install is loading with both hooks, Buffers the way to the state that
--   Pool starts from.
-- - Launcher: `main` of togpu/driver/xt_TOGPU_launcher.c, as the list of its calls, up to the endless
--   `aes_test` (Runs).
-- - Iptables: the options of togpu/iptables_extension/libxt_TOGPU.c; Options runs a command line.
-- - Aes: the tables of togpu/driver/xt_TOGPU_kernel.cu (Tables), and encryption and decryption of a
--   block. Bytes has facts about the tables at every byte, Fips compares them with FIPS 197, Words and
--   Linear take words apart, Rounds and RoundTrip undo the rounds, Schedule gives a key for decryption.
-- - Cuda: the kernels of the same file, one thread at a time; Threads is about threads and launches,
--   Modes about block mode and XTS, Counter about counter mode, Rows and Lockstep about the kernels with
--   four threads to a block.
-- - Gpu: `aes_test` and `gpu_alloc_pinned_mem` of the same file (Alloc); Handshake reads what the driver
--   announces, Packet bounds what a round changes.
-- - Base: Boolean tests, 64-bit words, `^` and `&` as arithmetic, byte memory, lists, error codes, processors
--   of which one moves (Turns), and `Outcome`, the result of code that may wait for ever or dereference NULL.
-- - Tests, below each of these: runs at concrete inputs, and the theorems at these inputs.
--
-- The parts meet in `Driver`: the ioctl sets `running` and `kva`, the hooks read both and keep `skbs` and
-- `next`, the target reads both and keeps the profiling counters.
--
-- State is passed explicitly. `unsigned long` is a number with the wrap-around at 2 ^ 64 written out, and
-- `atomic_t` one at 2 ^ 32. A pointer is its address. The kernel's functions and macros are parameters:
-- records of operations (`SkbApi`, `Mmu`, `Mm`, `IocApi`, `Kernel`) with records of their documented laws
-- (`IsMmu`, `IsIoc`, `IsDecoder`, `IsClock`, `IsStrtoui`), which the tests instantiate. What the native functions return, the
-- words that polling finds and the time stamps are arguments. `tail` and `end` of a socket buffer are
-- addresses, as the driver takes them to be. Page tables have pages of 4096 bytes. What a
-- store past the 8192 cells of `nfgpu_pages` does is a parameter with no law: the size of the request is not
-- checked, so the theorems about it suppose 32 MB at most.
--
-- Loops run on fuel. The search for a slot needs as many rounds as there are slots, 8192; a table walk
-- needs a round for each page of its range, and two for `goto again`; the copy of a function's code a
-- round for each of its bytes, since an instruction has one at least; a wait of the support thread a round
-- for each reading of the clock. `waits` is the result when the fuel
-- is used up; a theorem that a function returns gives fuel that is enough, and a theorem that it waits
-- holds for every fuel.
--
-- Not modelled: what a CUDA launch leaves undone when the host goes on, and a warp that does not run in
-- lockstep; the spin lock and the order of memory accesses between processors, but for the open and
-- release of the device file, the hooks, the announcement and the profiling counters, where one access
-- comes after another; the variant ALLOC_VMAP_PAGES, which the driver does not define; logging; the
-- instruction decoder, a copy of the Linux kernel's; the symbol lookup of kernels before 2.6.30, which
-- does not compile, since it uses a constant that is defined nowhere.
pub mod Base
pub mod Config
pub mod Pool
pub mod Target
pub mod Support
pub mod Device
pub mod PageWalk
pub mod Mempool
pub mod Ioctl
pub mod Symbols
pub mod Hook
pub mod Launcher
pub mod Load
pub mod Iptables
pub mod Aes
pub mod Cuda
pub mod Gpu
