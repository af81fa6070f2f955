-- ===== src/Server/Start.antt =====
-- regression/src/server/main.cc around the threads: the signal handler, what `main` does before its
-- loop, and when the loop ends. Lines printed are left out.
pub mod Refused
use Prim.Native.String.{String}
use knockout_kraken.Base.{ℕ, Bool, true, false, ◌||◌, Option, none, some, ℤ, ◌*◌, if◌then◌else◌}
use knockout_kraken.Socket.{Sockets}
use knockout_kraken.Server.Ipc.{IpcServer, open_server, wait_for_client}
use knockout_kraken.Server.Dut.{Design, TopDut, new_dut, reset, register_subroutine}

-- `closeprogram` and `waitForIPC`.
pub record Flags : Type 0 where
  pub close_program : Bool
  pub wait_for_ipc : Bool

-- `none` is the call of `exit`.
unfoldable pub signal_handler : Flags → Option Flags
signal_handler flags =
    if flags.wait_for_ipc then none else some (record flags { close_program = true })

-- One round of the loop of `main`, from what `tick` returned: whether it ends.
unfoldable pub leaves_loop : Bool → Flags → Bool
leaves_loop error_occurred flags = error_occurred || flags.close_program

-- What there is when the loop begins.
pub record Started (V W : Type 0) : Type 0 where
  pub dut : TopDut V
  pub axil : IpcServer
  pub axi : IpcServer
  pub world : W

-- `size_t dram_size = 1024*1024*16`
abbrev default_size : ℕ
default_size = 1024 * 1024 * 16

module _ {V W : Type 0} (v : Design V) (os : Sockets W) (remove : String → W → W) where
  -- `main` up to its loop, over the fresh design, the uninitialised DRAM and what stands in the place
  -- of the two `client_fd`. What `waitForClient` returns is ignored. This is the course in which both
  -- calls of `accept` return before a signal comes, and in which the registered threads have not taken
  -- a step yet: Server/Dut/Barrier has their steps before the first tick.
  unfoldable pub start_up : V → (ℕ → ℕ) → ℤ → ℤ → W → Option (Started V W)
  unfolding new_dut reset open_server wait_for_client register_subroutine
  start_up fresh uninit axil_fd axi_fd w = elim (new_dut v default_size fresh uninit) [
    | none ↦ none
    | some d ↦
        let w1 = remove "/dev/shm/axi_lite" (remove "/dev/shm/axi" w) in
        let (axil, w2) = open_server os "/dev/shm/axi_lite" axil_fd w1 in
        let (axi, w3) = open_server os "/dev/shm/axi" axi_fd w2 in
        let (_, axil', w4) = wait_for_client os axil w3 in
        let (_, axi', w5) = wait_for_client os axi w4 in
        let registered =
          register_subroutine (register_subroutine (register_subroutine (reset v d))) in
        some (record { dut = registered; axil = axil'; axi = axi'; world = w5 })
  ]
