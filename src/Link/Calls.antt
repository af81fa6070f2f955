-- ===== src/Link/Calls.antt =====
-- The client's accesses to the DRAM of the simulator: what they return, and what they leave.
use knockout_kraken.Base.{
  ℕ, suc, ◌+◌, ◌-◌, ◌%◌, ◌≤◌, ◌<◌, ◌≡◌, refl, sym, ap, ◌∙◌, arith, false, List, [], ◌++◌, some,
  length, length-append, length-segment, take-append, pos, segment, store_at, le_bytes, le→ltb,
}
use knockout_kraken.Base.Monad.{ok, ◌>>=◌, ◌>>◌}
use knockout_kraken.Socket.{Sockets}
use knockout_kraken.Wire.{MemoryRequest, request_bytes}
use knockout_kraken.Wire.Layout.{Fits, length-request_bytes}
use knockout_kraken.Client.Ipc.{send_ipc, recv_ipc}
use knockout_kraken.Client.Rtl.{FpgaContext, read_axi, write_axi}
use knockout_kraken.Server.Dut.{TopDut, addr_mask}
use knockout_kraken.Server.Ipc.{IpcServer}
use knockout_kraken.Server.Routine.{Setting, Shared}
use knockout_kraken.Server.Routine.Axi.{axi_round}
use knockout_kraken.Server.Routine.Memory.{Masked}
use knockout_kraken.Link.{Connection}
use knockout_kraken.Link.Round.{
  simulator, state, passed, Holds, Serves, send_ipc_once, recv_ipc_once, served_read, served_write,
  received_answer,
}

-- Two objects whose DRAMs have the same size and mask.
abbrev pub IsAlike : {V : Type 0} → TopDut V → TopDut V → Type 0
IsAlike d' d = (d'.dram_size ≡ d.dram_size) × (d'.dram_addr_mask ≡ d.dram_addr_mask)

pub alike-Masked : {V : Type 0} (d' d : TopDut V) → IsAlike d' d → Masked d → Masked d'
alike-Masked d' d (size, mask) (found, small) =
    (ap addr_mask size ∙ found ∙ ap some (sym mask), omega (arith, small, size))

module _ {V W : Type 0} (y : Setting V W) (fuel : ℕ) (uninit : ℕ → ℕ) where
  module _ (client : Sockets (Shared V W)) (port : ℕ) (d : TopDut V) (ipc : IpcServer) where
    module _ {elapse : W → TopDut V → TopDut V}
        (link : Connection
          (simulator y fuel uninit)
          (axi_round (simulator y fuel uninit) uninit)
          elapse
          client
          (pos (suc port))
          ipc.client_fd) where
      open link use {to_server, to_client}

      abbrev at : (ℕ → ℕ) → W → Shared V W
      at = state y fuel uninit client (pos (suc port)) d ipc link

      -- An object with the DRAM's size and mask, with this memory.
      abbrev later_at : TopDut V → (ℕ → ℕ) → W → Shared V W
      later_at d' = state y fuel uninit client (pos (suc port)) d' ipc link

      abbrev pub Quiet : W → Type 0
      Quiet w = Holds y fuel uninit client (pos (suc port)) d ipc link [] [] w

      module _ (client_fuel : ℕ) (stale : ℕ → ℕ) (c : FpgaContext) where
        -- The AXI socket of the client is open.
        abbrev pub context : FpgaContext
        context = record c { axi_fd = pos (suc port) }

        -- A request goes out and its answer of `n` bytes comes back.
        record Exchanged (memory memory' : ℕ → ℕ) (bytes bs : List ℕ) (n : ℕ) (w : W) : Type 0 where
          between : W
          after : W
          dut : TopDut V
          alike : IsAlike dut d
          asked :
              send_ipc client (suc client_fuel) (pos (suc port)) bytes (at memory w)
              ≡ some (ok tt, at memory between)
          answered :
              recv_ipc client (suc client_fuel) (pos (suc port)) n (at memory between)
              ≡ some (ok bs, later_at dut memory' after)
          quiet : Quiet after

        exchanged :
            (memory memory' : ℕ → ℕ) (q : MemoryRequest) (bs : List ℕ) (n : ℕ) (w : W)
            → ipc.error ≡ false
            → Fits q.addr q.byte_size q.is_write
            → length q.w_data ≡ 4096
            → ((d' : TopDut V)
                → IsAlike d' d
                → Serves y fuel uninit client (pos (suc port)) d' ipc link memory memory' q bs)
            → length bs ≡ n
            → 0 < n
            → Quiet w
            → Exchanged memory memory' (request_bytes q (segment stale 4116 4)) bs n w
        exchanged memory memory' q bs n w ne fits len serves size h (no_request, no_answer) =
            let padding = segment stale 4116 4 in
            let bytes = request_bytes q padding in
            let pad = length-segment stale 4116 4 in
            let long = length-request_bytes q padding len pad in
            let (w1, gone, request, same) = link.client_send bytes (at memory w) in
            let d' = passed y fuel uninit client (pos (suc port)) d ipc link memory w1 in
            let (w2, back, quiet) =
              received_answer y fuel uninit client (pos (suc port)) d ipc link memory memory' q
                padding bs n w1 ne fits len pad (serves d' (refl, refl)) size h
                (request ∙ ap (λ (xs : List ℕ). xs ++ bytes) no_request, same ∙ no_answer) in
            record {
              between = w1;
              after = w2;
              dut = d';
              alike = (refl, refl);
              asked =
                  send_ipc_once client client_fuel (pos (suc port)) bytes (at memory w)
                    (omega (arith, long)) gone;
              answered =
                  recv_ipc_once client client_fuel n (pos (suc port)) bs (at memory w1) h size back;
              quiet = quiet;
            }

        pub read_axi_linked :
            (memory : ℕ → ℕ) (addr n : ℕ) (w : W)
            → ipc.error ≡ false
            → Masked d
            → addr % 4 ≡ 0
            → n % 64 ≡ 0
            → 0 < n
            → n ≤ 4096
            → addr < d.dram_size
            → Quiet w
            → (d' : TopDut V) × (w' : W) × (read_axi client
                  (suc client_fuel)
                  stale
                  context
                  addr
                  n
                  (at memory w)
                ≡ some (ok (segment memory addr n), later_at d' memory w'))
              × IsAlike d' d
              × Quiet w'
        unfolding read_axi
        read_axi_linked memory addr n w ne masked word blocks some_bytes fits below quiet =
            let q : MemoryRequest = record {
              addr = addr;
              byte_size = n;
              is_write = 0;
              w_data = segment stale 20 4096;
            } in
            let done =
              exchanged memory memory q (segment memory addr n) n w ne
                (omega (arith, masked.1), omega arith, omega arith) (length-segment stale 20 4096)
                (λ d' alike.
                  served_read y fuel uninit client (pos (suc port)) d' ipc link memory q ne
                    (alike-Masked d' d alike masked) refl word blocks some_bytes
                    (omega (arith, alike.0)))
                (length-segment memory addr n) some_bytes quiet in
            (
              done.dut,
              done.after,
              rw (le→ltb 4096 n fits, done.asked, ◌>>=◌, ◌>>◌) done.answered,
              done.alike,
              done.quiet,
            )

        pub write_axi_linked :
            (memory : ℕ → ℕ) (addr : ℕ) (bytes : List ℕ) (w : W)
            → ipc.error ≡ false
            → Masked d
            → addr % 4 ≡ 0
            → length bytes % 64 ≡ 0
            → length bytes ≤ 4096
            → addr < d.dram_size
            → Quiet w
            → (d' : TopDut V) × (w' : W) × (write_axi client
                  (suc client_fuel)
                  stale
                  context
                  addr
                  bytes
                  (at memory w)
                ≡ some (ok tt, later_at d' (store_at memory addr bytes) w'))
              × IsAlike d' d
              × Quiet w'
        unfolding write_axi
        write_axi_linked memory addr bytes w ne masked word blocks fits below quiet =
            let rest = segment stale (20 + length bytes) (4096 - length bytes) in
            let q : MemoryRequest = record {
              addr = addr;
              byte_size = length bytes;
              is_write = 1;
              w_data = bytes ++ rest;
            } in
            let done =
              exchanged memory (store_at memory addr bytes) q (le_bytes 4 0) 4 w ne
                (omega (arith, masked.1), omega arith, omega arith)
                (omega (
                  arith,
                  length-append bytes rest,
                  length-segment stale (20 + length bytes) (4096 - length bytes),
                ))
                (λ d' alike.
                  served_write y fuel uninit client (pos (suc port)) d' ipc link memory q bytes ne
                    (alike-Masked d' d alike masked) refl word blocks (omega (arith, alike.0))
                    (take-append bytes rest (length bytes) refl))
                refl (omega arith) quiet in
            (
              done.dut,
              done.after,
              rw (le→ltb 4096 (length bytes) fits, done.asked, ◌>>=◌, ◌>>◌, done.answered) refl,
              done.alike,
              done.quiet,
            )
