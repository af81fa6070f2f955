-- ===== src/Client/Rtl/Calls.antt =====
-- What the calls of fpga_rtl.c do over connected stream sockets, and where they fail.
use Prim.Native.String.{String}
use knockout_kraken.Base.{
  ℕ, ◌+◌, ◌^◌, ◌≤◌, ◌<◌, ◌≡◌, arith, List, ◌++◌, some, none, length, ℤ, is_negative, minus_one,
  false, le→ltb, lt→ltb, of_le, segment,
}
use knockout_kraken.Base.Monad.{ok, err, ◌>>=◌, ◌>>◌}
use knockout_kraken.Socket.{Sockets, Stream}
use knockout_kraken.Wire.{MemoryRequestAxil, axil_bytes, request_bytes}
use knockout_kraken.Client.Ipc.{send_ipc, init_ipc}
use knockout_kraken.Client.Ipc.Transfers.{recv_ipc_all}
use knockout_kraken.Client.Rtl.{
  FpgaContext, read_axil, read_axi, write_axi, padding, rtl_defaults, init_fpga_context,
}

module _ {W : Type 0} (os : Sockets W) (fuel : ℕ) (uninit : ℕ → ℕ) (c : FpgaContext) where
  abbrev read_axil_request : ℕ → MemoryRequestAxil
  read_axil_request address = record {
    addr = address;
    byte_size = 4;
    is_write = 0;
    w_data = of_le (segment uninit 20 4);
  }

  abbrev write_axil_request : ℕ → ℕ → MemoryRequestAxil
  write_axil_request address word = record {
    addr = address;
    byte_size = 4;
    is_write = 1;
    w_data = word;
  }

  -- With a valid descriptor of a connected stream, when the request of a word read has gone out and
  -- the simulator answers with at least four bytes, the call returns 0 with the little-endian word
  -- that the first four make, and consumes just these. Enough fuel is given for the bytes and the
  -- idle calls.
  read_axil_answer :
      (stream : Stream os c.axil_fd) (address : ℕ) (w w1 : W)
      → is_negative c.axil_fd ≡ false
      → send_ipc os fuel c.axil_fd (axil_bytes (read_axil_request address)) w ≡ some (ok tt, w1)
      → 4 ≤ length (stream.incoming w1)
      → 4 + stream.patience w1 ≤ fuel
      → (bs : List ℕ) × (w2 : W) × (read_axil os fuel uninit c address w ≡ some (ok (of_le bs), w2))
        × (length bs ≡ 4)
        × (stream.incoming w1 ≡ bs ++ stream.incoming w2)
        × (stream.outgoing w2 ≡ stream.outgoing w1)
  unfolding read_axil
  read_axil_answer stream address w w1 open_ gone answer enough =
      let (bs, w2, e, len, rest, same) = recv_ipc_all os stream fuel 4 w1 answer enough in
      (bs, w2, rw (open_, gone, ◌>>=◌, ◌>>◌, e), len, rest, same)

  -- With a valid descriptor of a connected stream, when the request of a read of at most 4096 bytes
  -- has gone out and the simulator answers with at least that many, the call returns 0 with the
  -- first of these, as many as asked for, and consumes just these. Enough fuel is given for the
  -- bytes and the idle calls.
  read_axi_answer :
      (stream : Stream os c.axi_fd) (address size : ℕ) (w w1 : W)
      → size ≤ 4096
      → is_negative c.axi_fd ≡ false
      → send_ipc os fuel c.axi_fd
          (request_bytes
            (record {
              addr = address;
              byte_size = size;
              is_write = 0;
              w_data = segment uninit 20 4096;
            })
            (padding os fuel uninit c))
          w
        ≡ some (ok tt, w1)
      → size ≤ length (stream.incoming w1)
      → size + stream.patience w1 ≤ fuel
      → (bs : List ℕ) × (w2 : W) × (read_axi os fuel uninit c address size w ≡ some (ok bs, w2))
        × (length bs ≡ size)
        × (stream.incoming w1 ≡ bs ++ stream.incoming w2)
        × (stream.outgoing w2 ≡ stream.outgoing w1)
  unfolding read_axi
  read_axi_answer stream address size w w1 small open_ gone answer enough =
      let (bs, w2, e, len, rest, same) = recv_ipc_all os stream fuel size w1 answer enough in
      (bs, w2, rw (le→ltb 4096 size small, open_, gone, ◌>>=◌, ◌>>◌, e), len, rest, same)

  -- More than a page is refused before anything is sent.
  pub oversized_calls :
      (address size : ℕ) (bytes : List ℕ) (w : W)
      → 4096 < size
      → length bytes ≡ size
      → (read_axi os fuel uninit c address size w ≡ some (err minus_one none, w))
        × (write_axi os fuel uninit c address bytes w ≡ some (err minus_one none, w))
  unfolding read_axi write_axi
  oversized_calls address size bytes w big len =
      (rw (lt→ltb 4096 size big), rw (lt→ltb 4096 (length bytes) (omega arith)))

module _ {W : Type 0} (os : Sockets W) where
  init_ipc_ok :
      (name : String) (w : W) {fd : ℤ} {w' : W}
      → init_ipc os name w ≡ some (ok fd, w')
      → is_negative fd ≡ false
  unfolding init_ipc
  init_ipc_ok name w h = ground arith

  -- If the initialisation returns 0, both sockets have valid descriptors, and the addresses are
  -- those of the simulator's shell.
  init_fpga_context_ok :
      (c0 c : FpgaContext) (w w' : W)
      → init_fpga_context os c0 w ≡ some (ok c, w')
      → (is_negative c.axi_fd ≡ false)
        × (is_negative c.axil_fd ≡ false)
        × (c.dram_size ≡ 2 ^ 24)
        × (c.base_address ≡ (rtl_defaults c0).base_address)
  unfolding init_fpga_context init_ipc rtl_defaults
  init_fpga_context_ok c0 c w w' h = ground arith
