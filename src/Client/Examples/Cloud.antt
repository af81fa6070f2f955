-- ===== src/Client/Examples/Cloud.antt =====
-- The AWS library with an image that is loaded, and a second DMA channel that cannot be opened.
use knockout_kraken.Base.{
  ◌≡◌, refl, ap, Bool, true, false, if◌then◌else◌, List, [], ◌∷◌, drop, some, ℤ, pos, minus_one,
  is_negative, is_positive,
}
use knockout_kraken.Base.Monad.{ok}
use knockout_kraken.Client.Aws.{AwsLibrary, AwsContext}
use knockout_kraken.Client.Aws.Init.{Ledger}

record Shell : Type 0 where
  channels : List ℤ
  attached : Bool

abbrev library : AwsLibrary Shell
library = record {
  status_loaded = 0;
  pci_bar_handle_init = minus_one;
  log_init = λ w. (pos 0, w);
  log_attach = λ w. (pos 0, w);
  fpga_mgmt_init = λ w. (pos 0, w);
  fpga_mgmt_describe_local_image =
      λ w. (pos 0, record { status = 0; vendor_id = 0x1D0F; device_id = 0xF000 }, w);
  fpga_pci_rescan_slot_app_pfs = λ w. (pos 0, w);
  fpga_pci_attach = λ h w. (pos 0, pos 0, record w { attached = true });
  fpga_pci_detach = λ h w. (pos 0, record w { attached = false });
  fpga_dma_open_queue = λ read w.
      if read then (pos 5, record w { channels = pos 5 ∷ w.channels }) else (minus_one, w);
  fpga_pci_peek = λ h a w. some (ok 0, w);
  fpga_pci_poke = λ h a v w. some (ok tt, w);
  fpga_dma_burst_read = λ fd n a w. some (ok [], w);
  fpga_dma_burst_write = λ fd bs a w. some (ok tt, w);
  close = λ fd w. (pos 0, record w { channels = drop 1 w.channels });
}

abbrev shown : Shell → List ℤ × Bool
shown w = (w.channels, w.attached)

opened_queue :
    (read : Bool) (w : Shell)
    → is_negative (library.fpga_dma_open_queue read w).0 ≡ false
    → (shown (library.fpga_dma_open_queue read w).1
        ≡ ((library.fpga_dma_open_queue read w).0 ∷ w.channels, w.attached))
      × (is_positive (library.fpga_dma_open_queue read w).0 ≡ true)
opened_queue true w h = (refl, refl)
opened_queue false w h = cc

closed_queue :
    (read : Bool) (w : Shell)
    → is_negative (library.fpga_dma_open_queue read w).0 ≡ true
    → shown (library.fpga_dma_open_queue read w).1 ≡ shown w
closed_queue true w h = cc
closed_queue false w h = refl

abbrev ledger : Ledger library
ledger = record {
  view = shown;
  log_init = λ w. refl;
  log_attach = λ w. refl;
  mgmt_init = λ w. refl;
  describe = λ w. refl;
  rescan = λ w. refl;
  attached = λ h w z. (refl, refl);
  not_attached = λ h w z. cc;
  detached = λ h w. refl;
  opened = opened_queue;
  not_opened = closed_queue;
  closed = λ fd w fds h. ap (λ (l : List ℤ). (drop 1 l, w.attached)) h;
}

abbrev context : AwsContext
context = record {
  axil = pos 0;
  read_fd = pos 0;
  write_fd = pos 0;
  dram_size = 0;
  base_address = record {
    axil_base = 0;
    tt = 0;
    transplant_data = 0;
    transplant_ctl = 0;
    transplant_stop_cpu = 0;
    message_queue = 0;
    dram_base = 0;
    pt_base = 0;
    page_base = 0;
    axi_base = 0;
    message = 0;
  };
}
