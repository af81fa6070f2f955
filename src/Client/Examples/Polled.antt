-- ===== src/Client/Examples/Polled.antt =====
-- A device whose words read as 0 for a while, and one that does not answer.
use knockout_kraken.Base.{ℕ, zero, suc, ◌≡◌, refl, arith, [], some, none, minus_one}
use knockout_kraken.Base.Monad.{Result, ok, err}
use knockout_kraken.Client.Fpga.{AxiBaseAddress, Fpga}
use knockout_kraken.Client.Message.{message_bytes}
use knockout_kraken.Client.Interface.{send_message_to_fpga}
use knockout_kraken.Client.Interface.Waiting.{here, again, send_message_words}

abbrev addresses : AxiBaseAddress
addresses = record {
  axil_base = 0;
  tt = 0x8000;
  transplant_data = 0;
  transplant_ctl = 0x9000;
  transplant_stop_cpu = 0;
  message_queue = 0x10000;
  dram_base = 0;
  pt_base = 0;
  page_base = 0x10000;
  axi_base = 0x100_0000;
  message = 0x8000;
}

abbrev polled : ℕ → Result ℕ × ℕ
polled zero = (ok 5, zero)
polled (suc n) = (ok 0, n)

-- The number counts the reads that are still to return 0.
abbrev slow : Fpga ℕ
slow = record {
  base_address = addresses;
  read_axil = λ a w. some (polled w);
  write_axil = λ a v w. some (ok tt, w);
  read_axi = λ a n w. some (ok [], w);
  write_axi = λ a bs w. some (ok tt, w);
}

abbrev broken : Fpga ℕ
broken = record slow { read_axil = λ a w. some (err minus_one none, w) }

send_message_words_example :
    send_message_to_fpga slow 3 (message_bytes (λ i. i)) 2
    ≡ slow.write_axi 0x100_8000 (message_bytes (λ i. i)) 0
send_message_words_example =
    send_message_words slow 3 (λ i. i) (again refl (again refl here)) refl (omega arith)
