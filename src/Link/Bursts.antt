-- ===== src/Link/Bursts.antt =====
-- A page that the simulated design has written to the DRAM, fetched by the client.
use knockout_kraken.Base.{
  ℕ, suc, ◌+◌, ◌*◌, ◌%◌, ◌≤◌, ◌≡◌, refl, ap, ap₂, ◌∙◌, arith, false, List, [], ◌∷◌, some, length,
  length-append, pos, segment, segment-store_at,
}
use knockout_kraken.Base.Monad.{ok}
use knockout_kraken.Socket.{Sockets}
use knockout_kraken.Client.Rtl.{FpgaContext}
use knockout_kraken.Client.Interface.{fetch_page_from_fpga}
use knockout_kraken.Server.Dut.{TopDut}
use knockout_kraken.Server.Ipc.{IpcServer}
use knockout_kraken.Server.Ports.{m_axi_ar_arsize}
use knockout_kraken.Server.Routine.{Setting, Shared, go}
use knockout_kraken.Server.Routine.Axi.{axi_round}
use knockout_kraken.Server.Routine.Memory.{Masked}
use knockout_kraken.Server.Routine.Protocol.{Follows}
use knockout_kraken.Server.Routine.Dram.{dram_write}
use knockout_kraken.Server.Routine.Dram.Master.{asking_write, master, dram_of}
use knockout_kraken.Server.Routine.Dram.Writes.{joined, WholeBlocks, dram_write-written}
use knockout_kraken.Link.{Connection}
use knockout_kraken.Link.Round.{simulator}
use knockout_kraken.Link.Pages.{frame, fpga, held, IsQuiet, linked_fetch_page}

length-joined :
    (blocks : List (List ℕ)) → WholeBlocks blocks → length (joined blocks) ≡ 64 * length blocks
length-joined [] whole = refl
length-joined (block ∷ rest) (one, whole) =
    omega (arith, length-append block (joined rest), length-joined rest whole, one)

module _ {V W : Type 0} (y : Setting V W) (fuel : ℕ) (uninit : ℕ → ℕ) where
  module _ (client : Sockets (Shared V W)) (port : ℕ) (ipc : IpcServer) where
    module _ {elapse : W → TopDut V → TopDut V}
        (link : Connection
          (simulator y fuel uninit)
          (axi_round (simulator y fuel uninit) uninit)
          elapse
          client
          (pos (suc port))
          ipc.client_fd) where
      module _ (client_fuel : ℕ) (stale : ℕ → ℕ) (c : FpgaContext) where
        module _ {X : Type 0} (x : Setting V X) (design : Follows master x dram_of) where
          -- Over a design that follows the protocol of the DRAM's master, whose wait for the slave is
          -- within the fuel, with ticks that do not end the simulation and leave the DRAM alone, and with
          -- 6 on the size of the read channel: a write burst of 64 whole blocks to the frame of a page,
          -- at a multiple of 64 and inside the DRAM, comes to its end. The client that then fetches
          -- the page, over a connection as in the refinement to an object with the DRAM that the burst
          -- has left and with the mask of its size, with nothing else writing to that DRAM meanwhile,
          -- gets the blocks one after the other, and 0. The DRAM stays as the burst has left it.
          pub linked_fetch_page-dram_write :
              (paddr id : ℕ) (block : List ℕ) (rest : List (List ℕ)) (s : Shared V X) (d : TopDut V)
              (w : W)
              → frame c paddr + 4096 ≤ d.dram_size
              → frame c paddr % 64 ≡ 0
              → length rest ≡ 63
              → WholeBlocks (block ∷ rest)
              → x.ports.get m_axi_ar_arsize s.dut.design ≡ 6
              → design.state s.dut.design ≡ asking_write (frame c paddr) id block rest
              → s.dut.dram_size ≡ d.dram_size
              → ipc.error ≡ false
              → Masked d
              → IsQuiet y fuel uninit client port ipc link client_fuel stale c w
              → (s' : Shared V X) × (d' : TopDut V) × (w' : W) × (dram_write x s ≡ some (go tt, s'))
                × (fetch_page_from_fpga
                      (fpga y fuel uninit client port ipc link client_fuel stale c)
                      paddr
                      (held y fuel uninit client port ipc link client_fuel stale c d s'.dut.dram w)
                    ≡ some (
                      ok (joined (block ∷ rest)),
                      held y fuel uninit client port ipc link client_fuel stale c d' s'.dut.dram w',
                    ))
                × IsQuiet y fuel uninit client port ipc link client_fuel stale c w'
          linked_fetch_page-dram_write paddr id block rest s d w fits aligned many whole size asks
                same ne masked quiet =
              let at = frame c paddr in
              let bytes = joined (block ∷ rest) in
              let (s', e, done, left) =
                dram_write-written x design at id block rest s (omega (arith, many, same)) aligned
                  whole size asks in
              let (d', w', e', _, quiet') =
                linked_fetch_page y fuel uninit client port ipc link client_fuel stale c paddr d
                  s'.dut.dram w ne masked (omega (arith, aligned)) fits quiet in
              let long : 4096 ≡ length bytes =
                omega (arith, length-joined (block ∷ rest) whole, many) in
              let found : segment s'.dut.dram at 4096 ≡ bytes =
                ap₂ (λ (m : ℕ → ℕ) (n : ℕ). segment m at n) (ap (λ p. p.0) left) long
                ∙ segment-store_at s.dut.dram at bytes in
              (
                s',
                d',
                w',
                e,
                e'
                    ∙ ap
                        (λ (bs : List ℕ). some (
                          ok bs,
                          held y fuel uninit client port ipc link client_fuel stale c d' s'.dut.dram
                              w',
                        ))
                        found,
                quiet',
              )
