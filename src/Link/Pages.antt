-- ===== src/Link/Pages.antt =====
-- Pages of the client interface, in the DRAM of the simulator.
use knockout_kraken.Base.{
  ℕ, suc, ◌+◌, ◌*◌, ◌/◌, ◌%◌, ◌≤◌, ◌≡◌, refl, sym, ap, ap₂, ◌∙◌, arith, false, List, some, length,
  take_all, pos, segment, store_at, segment-store_at,
}
use knockout_kraken.Base.Word.{u64}
use knockout_kraken.Base.Monad.{ok}
use knockout_kraken.Socket.{Sockets}
use knockout_kraken.Client.Fpga.{Fpga}
use knockout_kraken.Client.Rtl.{FpgaContext, rtl_fpga, read_axi, write_axi}
use knockout_kraken.Client.Interface.{page_aligned, push_page_to_fpga, fetch_page_from_fpga}
use knockout_kraken.Client.Interface.Pages.{page_aligned_lem}
use knockout_kraken.Server.Dut.{TopDut}
use knockout_kraken.Server.Ipc.{IpcServer}
use knockout_kraken.Server.Routine.{Setting, Shared}
use knockout_kraken.Server.Routine.Axi.{axi_round}
use knockout_kraken.Server.Routine.Memory.{Masked}
use knockout_kraken.Link.{Connection}
use knockout_kraken.Link.Round.{simulator}
use knockout_kraken.Link.Calls.{IsAlike, alike-Masked, read_axi_linked, write_axi_linked}
use knockout_kraken.Link.Refinement.{Idle, holding, linked_fpga}

-- The address of the page's frame.
abbrev pub frame : FpgaContext → ℕ → ℕ
frame c paddr = c.base_address.dram_base + paddr / 4096 * 4096

frame_address :
    {V : Type 0} (c : FpgaContext) (d : TopDut V) (paddr : ℕ)
    → frame c paddr + 4096 ≤ d.dram_size
    → Masked d
    → u64 (c.base_address.dram_base + page_aligned paddr) ≡ frame c paddr
frame_address c d paddr h masked = omega (arith, page_aligned_lem paddr, masked.1)

module _ {V W : Type 0} (y : Setting V W) (fuel : ℕ) (uninit : ℕ → ℕ) where
  module _ (client : Sockets (Shared V W)) (port : ℕ) (ipc : IpcServer) where
    module _ {elapse : W → TopDut V → TopDut V}
        (link : Connection
          (simulator y fuel uninit)
          (axi_round (simulator y fuel uninit) uninit)
          elapse
          client
          (pos (suc port))
          ipc.client_fd) where
      module _ (client_fuel : ℕ) (stale : ℕ → ℕ) (c : FpgaContext) where
        abbrev pub fpga : Fpga (Shared V W)
        fpga = linked_fpga y fuel uninit client port ipc link client_fuel stale c

        abbrev pub held : TopDut V → (ℕ → ℕ) → W → Shared V W
        held = holding y fuel uninit client port ipc link client_fuel stale c

        abbrev pub IsQuiet : W → Type 0
        IsQuiet = Idle y fuel uninit client port ipc link client_fuel stale c

        -- A fetch reads the page's frame.
        pub linked_fetch_page :
            (paddr : ℕ) (d : TopDut V) (memory : ℕ → ℕ) (w : W)
            → ipc.error ≡ false
            → Masked d
            → c.base_address.dram_base % 4 ≡ 0
            → frame c paddr + 4096 ≤ d.dram_size
            → IsQuiet w
            → (d' : TopDut V) × (w' : W) × (fetch_page_from_fpga fpga paddr (held d memory w)
                ≡ some (ok (segment memory (frame c paddr) 4096), held d' memory w'))
              × IsAlike d' d
              × IsQuiet w'
        unfolding fetch_page_from_fpga rtl_fpga
        linked_fetch_page paddr d memory w ne masked word fits quiet =
            let (d', w', e, alike, quiet') =
              read_axi_linked y fuel uninit client port d ipc link client_fuel stale c memory
                (frame c paddr) 4096 w ne masked (omega (arith, word)) refl (omega arith)
                (omega arith) (omega arith) quiet in
            (
              d',
              w',
              ap
                    (λ (a : ℕ).
                      read_axi client (suc client_fuel) stale (record c { axi_fd = pos (suc port) })
                        a 4096 (held d memory w))
                    (frame_address c d paddr fits masked)
                  ∙ e,
              alike,
              quiet',
            )

        pub linked_push_page :
            (paddr : ℕ) (page : List ℕ) (d : TopDut V) (memory : ℕ → ℕ) (w : W)
            → ipc.error ≡ false
            → Masked d
            → c.base_address.dram_base % 4 ≡ 0
            → frame c paddr + 4096 ≤ d.dram_size
            → length page ≡ 4096
            → IsQuiet w
            → (d' : TopDut V) × (w' : W) × (push_page_to_fpga fpga paddr page (held d memory w)
                ≡ some (ok tt, held d' (store_at memory (frame c paddr) page) w'))
              × IsAlike d' d
              × IsQuiet w'
        unfolding push_page_to_fpga rtl_fpga
        linked_push_page paddr page d memory w ne masked word fits size quiet =
            let (d', w', e, alike, quiet') =
              write_axi_linked y fuel uninit client port d ipc link client_fuel stale c memory
                (frame c paddr) page w ne masked (omega (arith, word)) (omega (arith, size))
                (omega (arith, size)) (omega arith) quiet in
            (
              d',
              w',
              ap₂
                    (λ (a : ℕ) (bs : List ℕ).
                      write_axi client (suc client_fuel) stale
                        (record c { axi_fd = pos (suc port) }) a bs (held d memory w))
                    (frame_address c d paddr fits masked) (take_all 4096 page (omega (arith, size)))
                  ∙ e,
              alike,
              quiet',
            )

        -- Over a connection as in the refinement, where the simulator may go on while the client
        -- waits, but nothing else than the routine writes to the DRAM, with no error pending, positive
        -- fuel on both sides, and a DRAM with the mask of its size, below 2^63, that holds the page's
        -- frame at a word address: a page of 4096 bytes that the client pushes through its driver
        -- and the simulator is fetched back whole from any address in the page, both calls return 0,
        -- and the DRAM is as it was outside of the frame.
        pub linked_fetch_page-push_page :
            (paddr paddr' : ℕ) (page : List ℕ) (d : TopDut V) (memory : ℕ → ℕ) (w : W)
            → ipc.error ≡ false
            → Masked d
            → c.base_address.dram_base % 4 ≡ 0
            → frame c paddr + 4096 ≤ d.dram_size
            → paddr' / 4096 ≡ paddr / 4096
            → length page ≡ 4096
            → IsQuiet w
            → (d1 d2 : TopDut V) × (w1 w2 : W) × (push_page_to_fpga fpga paddr page
                  (held d memory w)
                ≡ some (ok tt, held d1 (store_at memory (frame c paddr) page) w1))
              × (fetch_page_from_fpga fpga paddr'
                    (held d1 (store_at memory (frame c paddr) page) w1)
                  ≡ some (ok page, held d2 (store_at memory (frame c paddr) page) w2))
              × IsQuiet w2
        linked_fetch_page-push_page paddr paddr' page d memory w ne masked word fits same size
              quiet =
            let there : frame c paddr' ≡ frame c paddr =
              ap (λ (k : ℕ). c.base_address.dram_base + k * 4096) same in
            let memory' = store_at memory (frame c paddr) page in
            let (d1, w1, e1, alike, quiet1) =
              linked_push_page paddr page d memory w ne masked word fits size quiet in
            let (d2, w2, e2, _, quiet2) =
              linked_fetch_page paddr' d1 memory' w1 ne (alike-Masked d1 d alike masked) word
                (omega (arith, there, alike.0)) quiet1 in
            let found : segment memory' (frame c paddr') 4096 ≡ page =
              ap₂ (segment memory') there (sym size)
              ∙ segment-store_at memory (frame c paddr) page in
            (
              d1,
              d2,
              w1,
              w2,
              e1,
              e2 ∙ ap (λ (bs : List ℕ). some (ok bs, held d2 memory' w2)) found,
              quiet2,
            )
