-- ===== src/Client/Aws.antt =====
-- regression/src/client/fpga_aws.c: the five calls of fpga.h on an AWS F1 instance. The AWS library is
-- a parameter. Its macro `fail_on` jumps when its first argument is not 0. Lines printed are left out.
pub mod Init
use knockout_kraken.Base.{
  ℕ, Bool, true, false, not, negsuc, ◌&&◌, List, length, some, none, ℤ, pos, is_negative,
  is_positive, is_zero, minus_one, if◌then◌else◌, ◌==◌,
}
use knockout_kraken.Base.Word.{◌>>>◌}
use knockout_kraken.Base.Monad.{Result, ok, err, M}
use knockout_kraken.Client.Fpga.{AxiBaseAddress, Fpga}

-- What the code reads of `struct fpga_mgmt_image_info`.
pub record ImageInfo : Type 0 where
  pub status : ℕ
  pub vendor_id : ℕ
  pub device_id : ℕ

-- The calls of the library at slot 0, with their return codes, and `close`. `fpga_pci_attach` is given
-- the handle that it may overwrite. A transfer of data that fails leaves what it has stored aside.
pub record AwsLibrary (W : Type 0) : Type 0 where
  pub status_loaded : ℕ
  pub pci_bar_handle_init : ℤ
  pub log_init : W → ℤ × W
  pub log_attach : W → ℤ × W
  pub fpga_mgmt_init : W → ℤ × W
  pub fpga_mgmt_describe_local_image : W → ℤ × ImageInfo × W
  pub fpga_pci_rescan_slot_app_pfs : W → ℤ × W
  pub fpga_pci_attach : ℤ → W → ℤ × ℤ × W
  pub fpga_pci_detach : ℤ → W → ℤ × W
  pub fpga_dma_open_queue : Bool → W → ℤ × W
  pub fpga_pci_peek : ℤ → ℕ → M W ℕ
  pub fpga_pci_poke : ℤ → ℕ → ℕ → M W (Unit {0})
  pub fpga_dma_burst_read : ℤ → ℕ → ℕ → M W (List ℕ)
  pub fpga_dma_burst_write : ℤ → List ℕ → ℕ → M W (Unit {0})
  pub close : ℤ → W → ℤ × W

pub record AwsContext : Type 0 where
  pub axil : ℤ
  pub read_fd : ℤ
  pub write_fd : ℤ
  pub dram_size : ℕ
  pub base_address : AxiBaseAddress

abbrev pci_vendor_id : ℕ
pci_vendor_id = 0x1D0F

abbrev pci_device_id : ℕ
pci_device_id = 0xF000

abbrev pub is_expected : ImageInfo → Bool
is_expected info = info.vendor_id == pci_vendor_id && info.device_id == pci_device_id

abbrev pub is_same : ℤ → ℤ → Bool
is_same (pos a) (pos b) = a == b
is_same (negsuc a) (negsuc b) = a == b
is_same a b = false

module _ {W : Type 0} (aws : AwsLibrary W) where
  open aws use {
    status_loaded, pci_bar_handle_init, log_init, log_attach, fpga_mgmt_init,
    fpga_mgmt_describe_local_image, fpga_pci_rescan_slot_app_pfs, fpga_pci_attach, fpga_pci_detach,
    fpga_dma_open_queue, fpga_pci_peek, fpga_pci_poke, fpga_dma_burst_read, fpga_dma_burst_write,
    close,
  }

  -- The second description, behind a rescan.
  abbrev check_rescanned : W → ℤ × W
  check_rescanned w =
      let (rescanned, w1) = fpga_pci_rescan_slot_app_pfs w in
      let (described, info, w2) = fpga_mgmt_describe_local_image w1 in
      if is_zero rescanned
      then (if is_zero described
          then (pos (if is_expected info then 0 else 1), w2)
          else (pos 1, w2))
      else (pos 1, w1)

  unfoldable pub check_afi_ready : W → ℤ × W
  check_afi_ready w =
      let (described, info, w1) = fpga_mgmt_describe_local_image w in
      if is_zero described
      then (if info.status == status_loaded
          then (if is_expected info then (pos 0, w1) else check_rescanned w1)
          else (pos 1, w1))
      else (pos 1, w1)

  -- What `initFPGAContext` assigns before it calls the library; `transplant_stopCPU` is not assigned.
  unfoldable pub aws_defaults : AwsContext → AwsContext
  aws_defaults c =
      let size : ℕ = 0x4_0000_0000 in
      record {
        axil = pci_bar_handle_init;
        read_fd = minus_one;
        write_fd = minus_one;
        dram_size = size;
        base_address = record {
          axil_base = 0;
          tt = 0x8000;
          transplant_data = 0;
          transplant_ctl = 0x9000;
          transplant_stop_cpu = c.base_address.transplant_stop_cpu;
          message_queue = 0x10000;
          dram_base = 0;
          pt_base = 0;
          page_base = size >>> 8;
          axi_base = size;
          message = 0x8000;
        };
      }

  -- `if (...) res = call;`
  abbrev when_open : Bool → (W → ℤ × W) → ℤ × W → ℤ × W
  when_open b call (res, w) = if b then call w else (res, w)

  unfoldable pub release_fpga_context : AwsContext → W → ℤ × W
  release_fpga_context c w =
      let detached =
        when_open (not (is_same c.axil pci_bar_handle_init)) (fpga_pci_detach c.axil) (pos 0, w) in
      when_open (is_positive c.write_fd) (close c.write_fd)
        (when_open (is_positive c.read_fd) (close c.read_fd) detached)

  -- `failed: releaseFPGAContext(c); return -1;`
  abbrev pub failed : AwsContext → M W AwsContext
  failed c w = some (err minus_one (some c), (release_fpga_context c w).1)

  -- `fail_on(res, failed, ...)`
  abbrev pub fail_on : ℤ → AwsContext → M W AwsContext → M W AwsContext
  fail_on res c rest w = if is_zero res then rest w else failed c w

  -- The two channels, in this order.
  unfoldable pub open_queues : AwsContext → M W AwsContext
  open_queues c w =
      let (read_fd, w1) = fpga_dma_open_queue true w in
      let c1 = record c { read_fd = read_fd } in
      let (write_fd, w2) = fpga_dma_open_queue false w1 in
      let c2 = record c1 { write_fd = write_fd } in
      if is_negative read_fd
      then failed c1 w1
      else (if is_negative write_fd then failed c2 w2 else some (ok c2, w2))

  unfoldable pub attach_bar : AwsContext → M W AwsContext
  unfolding open_queues
  attach_bar c w =
      let (res, axil, w1) = fpga_pci_attach c.axil w in
      fail_on res (record c { axil = axil }) (open_queues (record c { axil = axil })) w1

  -- `res = f(...); fail_on(res, failed, ...)`
  unfoldable pub guarded : AwsContext → (W → ℤ × W) → M W AwsContext → M W AwsContext
  guarded c f rest w = let (res, w') = f w in fail_on res c rest w'

  unfoldable pub init_fpga_context : AwsContext → M W AwsContext
  unfolding attach_bar check_afi_ready aws_defaults guarded
  init_fpga_context c0 w =
      let c = aws_defaults c0 in
      guarded c log_init
        (guarded c log_attach (guarded c fpga_mgmt_init (guarded c check_afi_ready (attach_bar c))))
        w

  -- fpga.h over this driver.
  unfoldable pub aws_fpga : AwsContext → Fpga W
  aws_fpga c = record {
    base_address = c.base_address;
    read_axil = fpga_pci_peek c.axil;
    write_axil = fpga_pci_poke c.axil;
    read_axi = λ addr size_in_byte. fpga_dma_burst_read c.read_fd size_in_byte addr;
    write_axi = λ addr bytes. fpga_dma_burst_write c.write_fd bytes addr;
  }
