-- ===== src/Client/Aws/Init.antt =====
-- regression/src/client/fpga_aws.c, initFPGAContext: what it leaves open, on every path.
use knockout_kraken.Base.{
  ◌≡◌, Bool, true, false, List, ◌∷◌, some, Option, ℤ, is_negative, is_positive, is_zero, minus_one,
  ◌⊎◌,
}
use knockout_kraken.Base.Monad.{Result, ok, err}
use knockout_kraken.Client.Aws.{AwsLibrary, AwsContext, is_same}

-- The channels that are open, the last one first, and whether the BAR is attached.
abbrev Held : Type 0
Held = List ℤ × Bool

abbrev Kept : {W : Type 0} → (W → Held) → (W → W) → Type 0
Kept {W = W} view f = (w : W) → view (f w) ≡ view w

-- What a call of the library does to what is held: an open channel has a positive descriptor, an
-- attached BAR a handle that is not the initial one, and a call that fails changes nothing.
pub record Ledger {W : Type 0} (aws : AwsLibrary W) : Type 0 where
  pub view : W → List ℤ × Bool
  pub log_init : (w : W) → view (aws.log_init w).1 ≡ view w
  pub log_attach : (w : W) → view (aws.log_attach w).1 ≡ view w
  pub mgmt_init : (w : W) → view (aws.fpga_mgmt_init w).1 ≡ view w
  pub describe : (w : W) → view (aws.fpga_mgmt_describe_local_image w).2 ≡ view w
  pub rescan : (w : W) → view (aws.fpga_pci_rescan_slot_app_pfs w).1 ≡ view w
  pub attached :
      (handle : ℤ) (w : W)
      → is_zero (aws.fpga_pci_attach handle w).0 ≡ true
      → (view (aws.fpga_pci_attach handle w).2 ≡ ((view w).0, true))
        × (is_same (aws.fpga_pci_attach handle w).1 aws.pci_bar_handle_init ≡ false)
  pub not_attached :
      (handle : ℤ) (w : W)
      → is_zero (aws.fpga_pci_attach handle w).0 ≡ false
      → (view (aws.fpga_pci_attach handle w).2 ≡ view w)
        × ((aws.fpga_pci_attach handle w).1 ≡ handle)
  pub detached : (handle : ℤ) (w : W) → view (aws.fpga_pci_detach handle w).1 ≡ ((view w).0, false)
  pub opened :
      (read : Bool) (w : W)
      → is_negative (aws.fpga_dma_open_queue read w).0 ≡ false
      → (view (aws.fpga_dma_open_queue read w).1
          ≡ ((aws.fpga_dma_open_queue read w).0 ∷ (view w).0, (view w).1))
        × (is_positive (aws.fpga_dma_open_queue read w).0 ≡ true)
  pub not_opened :
      (read : Bool) (w : W)
      → is_negative (aws.fpga_dma_open_queue read w).0 ≡ true
      → view (aws.fpga_dma_open_queue read w).1 ≡ view w
  pub closed :
      (fd : ℤ) (w : W) (fds : List ℤ)
      → (view w).0 ≡ fd ∷ fds
      → view (aws.close fd w).1 ≡ (fds, (view w).1)

module _ {W : Type 0} (aws : AwsLibrary W) (ledger : Ledger aws) where
  open ledger use {view}

  -- Success with both channels open, the BAR attached and the addresses assigned, or -1 with nothing
  -- held but the channels `fds` from before.
  abbrev pub Settled : AwsContext → List ℤ → Option (Result AwsContext × W) → Type 0
  Settled c0 fds r =
      ((c : AwsContext) × (w' : W) × (r ≡ some (ok c, w'))
        × (view w' ≡ (c.write_fd ∷ c.read_fd ∷ fds, true))
        × (is_positive c.read_fd ≡ true)
        × (is_positive c.write_fd ≡ true)
        × (c.dram_size ≡ c0.dram_size)
        × (c.base_address ≡ c0.base_address))
      ⊎ ((c : AwsContext) × (w' : W) × (r ≡ some (err minus_one (some c), w'))
          × (view w' ≡ (fds, false)))

  -- What the context is like before the BAR is attached.
  abbrev Fresh : AwsContext → Type 0
  Fresh c = (c.axil ≡ aws.pci_bar_handle_init) × (c.read_fd ≡ minus_one) × (c.write_fd ≡ minus_one)
