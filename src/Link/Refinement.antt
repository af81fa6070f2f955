-- ===== src/Link/Refinement.antt =====
-- Client, sockets and simulator together are a memory.
use knockout_kraken.Base.{
  ℕ, suc, ◌+◌, ◌%◌, ◌≤◌, ◌<◌, ◌≡◌, refl, sym, ◌∙◌, subst, arith, false, List, [], ◌∷◌, some, length,
  All, pos, store_at,
}
use knockout_kraken.Base.Monad.{ok, ◌>>=◌, ◌>>◌}
use knockout_kraken.Socket.{Sockets}
use knockout_kraken.Client.Fpga.{Fpga}
use knockout_kraken.Client.Rtl.{FpgaContext, rtl_fpga}
use knockout_kraken.Server.Dut.{TopDut}
use knockout_kraken.Server.Ipc.{IpcServer}
use knockout_kraken.Server.Routine.{Setting, Shared}
use knockout_kraken.Server.Routine.Axi.{axi_round}
use knockout_kraken.Server.Routine.Memory.{Masked}
use knockout_kraken.Link.{Connection, Access, read, write, run, replay}
use knockout_kraken.Link.Round.{simulator}
use knockout_kraken.Link.Calls.{IsAlike, alike-Masked, read_axi_linked, write_axi_linked}

-- An access to `n` bytes at `addr` that is served from a DRAM of this size: whole blocks of 64 bytes,
-- at most a page of them, from a word address on.
abbrev Within : ℕ → ℕ → ℕ → Type 0
Within dram_size addr n =
    (addr % 4 ≡ 0) × (n % 64 ≡ 0) × (0 < n) × (n ≤ 4096) × (addr + n ≤ dram_size)

abbrev pub Served : ℕ → Access → Type 0
Served dram_size (read addr n) = Within dram_size addr n
Served dram_size (write addr bytes) = Within dram_size addr (length bytes)

module _ {V W : Type 0} (y : Setting V W) (fuel : ℕ) (uninit : ℕ → ℕ) where
  module _ (client : Sockets (Shared V W)) (port : ℕ) (ipc : IpcServer) where
    module _ {elapse : W → TopDut V → TopDut V}
        (link : Connection
          (simulator y fuel uninit)
          (axi_round (simulator y fuel uninit) uninit)
          elapse
          client
          (pos (suc port))
          ipc.client_fd) where
      module _ (client_fuel : ℕ) (stale : ℕ → ℕ) (c : FpgaContext) where
        -- The object `d` with this memory.
        abbrev pub holding : TopDut V → (ℕ → ℕ) → W → Shared V W
        holding d memory w = record { dut = record d { dram = memory }; ipc = ipc; world = w }

        -- The driver on its open socket.
        abbrev pub linked_fpga : Fpga (Shared V W)
        linked_fpga = rtl_fpga client (suc client_fuel) stale (record c { axi_fd = pos (suc port) })

        -- Nothing is under way.
        abbrev pub Idle : W → Type 0
        Idle w = (link.to_server w ≡ []) × (link.to_client w ≡ [])

        -- The driver, its open socket and the AXI routine together are a memory. Over a connection with
        -- nothing under way, with no error pending at the server, positive fuel on both sides, and a
        -- DRAM with the mask of its size, below 2^63, where the simulator may go on while the client
        -- waits for an answer, but nothing else than the routine writes to the DRAM: any sequence of
        -- reads and writes, each of whole 64-byte blocks, at most a page, from a word address on and
        -- inside the DRAM, returns 0, its reads return what they return on a plain function from
        -- addresses to bytes, the DRAM ends as that function does, with its size and its mask as they
        -- were, and nothing is left under way.
        pub run_refines :
            (accesses : List Access) (d : TopDut V) (memory : ℕ → ℕ) (w : W)
            → ipc.error ≡ false
            → Masked d
            → All (Served d.dram_size) accesses
            → Idle w
            → (d' : TopDut V) × (w' : W) × (run linked_fpga accesses (holding d memory w)
                ≡ some (ok (replay accesses memory).0, holding d' (replay accesses memory).1 w'))
              × IsAlike d' d
              × Idle w'
        unfolding run replay rtl_fpga
        run_refines [] d memory w ne masked h quiet = (d, w, refl, (refl, refl), quiet)
        run_refines (read addr n ∷ rest) d memory w ne masked
              ((word, blocks, some_bytes, fits, within), h) quiet =
            let (d1, w1, e1, alike1, quiet1) =
              read_axi_linked y fuel uninit client port d ipc link client_fuel stale c memory addr n
                w ne masked word blocks some_bytes fits (omega arith) quiet in
            let h1 = subst (λ (n : ℕ). All (Served n) rest) (sym alike1.0) h in
            let (d2, w2, e2, alike2, quiet2) =
              run_refines rest d1 memory w1 ne (alike-Masked d1 d alike1 masked) h1 quiet1 in
            (d2, w2, rw (e1, ◌>>=◌, e2) refl, (alike2.0 ∙ alike1.0, alike2.1 ∙ alike1.1), quiet2)
        run_refines (write addr bytes ∷ rest) d memory w ne masked
              ((word, blocks, some_bytes, fits, within), h) quiet =
            let (d1, w1, e1, alike1, quiet1) =
              write_axi_linked y fuel uninit client port d ipc link client_fuel stale c memory addr
                bytes w ne masked word blocks fits (omega arith) quiet in
            let h1 = subst (λ (n : ℕ). All (Served n) rest) (sym alike1.0) h in
            let (d2, w2, e2, alike2, quiet2) =
              run_refines rest d1 (store_at memory addr bytes) w1 ne
                (alike-Masked d1 d alike1 masked) h1 quiet1 in
            (d2, w2, rw (e1, ◌>>=◌, ◌>>◌) e2, (alike2.0 ∙ alike1.0, alike2.1 ∙ alike1.1), quiet2)
