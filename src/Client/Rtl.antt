-- ===== src/Client/Rtl.antt =====
-- regression/src/client/fpga_rtl.c: the five calls of fpga.h over two sockets of the simulator.
pub mod Calls
use Prim.Native.String.{String}
use knockout_kraken.Base.{
  ℕ, zero, suc, ◌+◌, ◌-◌, ◌*◌, ◌^◌, List, [], ◌∷◌, ◌++◌, Option, none, some, length, ℤ, pos, negsuc,
  is_negative, is_positive, is_zero, minus_one, if◌then◌else◌, ltb, of_le, le_bytes, segment,
}
use knockout_kraken.Base.Word.{◌>>>◌}
use knockout_kraken.Base.Monad.{Result, ok, err, M, pure, fail, out, ◌>>=◌, ◌>>◌}
use knockout_kraken.Socket.{Sockets}
use knockout_kraken.Wire.{MemoryRequest, MemoryRequestAxil, axil_bytes, request_bytes}
use knockout_kraken.Client.Fpga.{AxiBaseAddress, Fpga}
use knockout_kraken.Client.Ipc.{init_ipc, send_ipc, recv_ipc}

pub record FpgaContext : Type 0 where
  pub axil_fd : ℤ
  pub axi_fd : ℤ
  pub dram_size : ℕ
  pub base_address : AxiBaseAddress

-- What `initFPGAContext` assigns before it opens the sockets; `transplant_stopCPU` is not assigned.
pub rtl_defaults : FpgaContext → FpgaContext
rtl_defaults c =
    let size = 1024 * 1024 * 16 in
    record {
      axil_fd = minus_one;
      axi_fd = minus_one;
      dram_size = size;
      base_address = record {
        axil_base = 0;
        tt = 0x8000;
        transplant_data = 0;
        transplant_ctl = 0x9000;
        transplant_stop_cpu = c.base_address.transplant_stop_cpu;
        message_queue = 0x10000;
        dram_base = 0;
        pt_base = 0;
        page_base = size >>> 8;
        axi_base = size;
        message = 0x8000;
      };
    }

-- `res |= close(...)`, where `close` returns 0 or -1.
abbrev or_code : ℤ → ℤ → ℤ
or_code res code = if is_zero res then code else res

module _ {W : Type 0} (os : Sockets W) where
  close_open : ℤ → W → ℤ × W
  close_open fd w = if is_positive fd then os.close fd w else (pos 0, w)

  unfoldable pub release_fpga_context : FpgaContext → W → ℤ × W
  unfolding close_open
  release_fpga_context c w =
      let (r1, w1) = close_open c.axi_fd w in
      let (r2, w2) = close_open c.axil_fd w1 in (or_code r1 r2, w2)

  -- `failed: releaseFPGAContext(c); return -1;`
  failed : FpgaContext → M W FpgaContext
  unfolding release_fpga_context
  failed c w = some (err minus_one (some c), (release_fpga_context c w).1)

  axil_socket : FpgaContext → M W FpgaContext
  unfolding failed
  axil_socket c w = elim (init_ipc os "/dev/shm/axi_lite" w) [
    | none ↦ none
    | some (r, w') ↦ elim r [
      | ok fd ↦ some (ok (record c { axil_fd = fd }), w')
      | err code fd ↦ failed (record c { axil_fd = out c.axil_fd (err code fd) }) w'
    ]
  ]

  unfoldable pub init_fpga_context : FpgaContext → M W FpgaContext
  unfolding failed axil_socket rtl_defaults
  init_fpga_context c0 w =
      let c = rtl_defaults c0 in
      elim (init_ipc os "/dev/shm/axi" w) [
        | none ↦ none
        | some (r, w') ↦ elim r [
          | ok fd ↦ axil_socket (record c { axi_fd = fd }) w'
          | err code fd ↦ failed (record c { axi_fd = out c.axi_fd (err code fd) }) w'
        ]
      ]

  -- `fuel` bounds each transfer; `uninit` is what a local variable holds before it is assigned.
  module _ (fuel : ℕ) (uninit : ℕ → ℕ) (c : FpgaContext) where
    -- A request goes out, and `n` bytes come back.
    abbrev exchange_axil : MemoryRequestAxil → M W (List ℕ)
    exchange_axil request = do
      send_ipc os fuel c.axil_fd (axil_bytes request)
      recv_ipc os fuel c.axil_fd 4

    unfoldable pub read_axil : ℕ → M W ℕ
    read_axil address =
        let request : MemoryRequestAxil = record {
          addr = address;
          byte_size = 4;
          is_write = 0;
          w_data = of_le (segment uninit 20 4);
        } in
        let call = do bs ← exchange_axil request; pure (of_le bs)
        in if is_negative c.axil_fd then fail minus_one else call

    unfoldable pub write_axil : ℕ → ℕ → M W (Unit {0})
    write_axil address word =
        let request : MemoryRequestAxil = record {
          addr = address;
          byte_size = 4;
          is_write = 1;
          w_data = word;
        } in
        let call = do _ ← exchange_axil request; pure tt
        in if is_negative c.axil_fd then fail minus_one else call

    unfoldable pub write_axil_magic : ℕ → ℕ → M W (Unit {0})
    write_axil_magic address word =
        let request : MemoryRequestAxil = record {
          addr = address;
          byte_size = 4;
          is_write = 0xDEED;
          w_data = word;
        } in
        let call = do _ ← exchange_axil request; pure tt
        in if is_negative c.axil_fd then fail minus_one else call

    -- The padding at the end of a MemoryRequest.
    abbrev padding : List ℕ
    padding = segment uninit 4116 4

    unfoldable pub read_axi : ℕ → ℕ → M W (List ℕ)
    read_axi address size_in_byte =
        let request : MemoryRequest = record {
          addr = address;
          byte_size = size_in_byte;
          is_write = 0;
          w_data = segment uninit 20 4096;
        } in
        let call = do
          send_ipc os fuel c.axi_fd (request_bytes request padding)
          recv_ipc os fuel c.axi_fd size_in_byte
        in if ltb 4096 size_in_byte
          then fail minus_one
          else (if is_negative c.axi_fd then fail minus_one else call)

    -- The bytes to write are `size_in_byte` many. Without a valid descriptor nothing is sent, and
    -- the call still returns 0.
    unfoldable pub write_axi : ℕ → List ℕ → M W (Unit {0})
    write_axi address bytes =
        let request : MemoryRequest = record {
          addr = address;
          byte_size = length bytes;
          is_write = 1;
          w_data = bytes ++ segment uninit (20 + length bytes) (4096 - length bytes);
        } in
        let call = do
          send_ipc os fuel c.axi_fd (request_bytes request padding)
          _ ← recv_ipc os fuel c.axi_fd 4
          pure tt
        in if ltb 4096 (length bytes)
          then fail minus_one
          else (if is_positive c.axi_fd then call else pure tt)

    -- fpga.h over this driver, and `writeSimCtrl` of fpga_interface.c, which only this one has.
    unfoldable pub rtl_fpga : Fpga W
    unfolding read_axil write_axil read_axi write_axi
    rtl_fpga = record {
      base_address = c.base_address;
      read_axil = read_axil;
      write_axil = write_axil;
      read_axi = read_axi;
      write_axi = write_axi;
    }

    unfoldable pub write_sim_ctrl : ℕ → ℕ → M W (Unit {0})
    unfolding write_axil_magic
    write_sim_ctrl kind value = write_axil_magic kind value
