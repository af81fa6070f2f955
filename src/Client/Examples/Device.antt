-- ===== src/Client/Examples/Device.antt =====
-- A device that is memory throughout: words behind the AXI-Lite calls, bytes behind the AXI calls.
use knockout_kraken.Base.{
  ℕ, ◌%◌, ◌^◌, ◌≡◌, refl, arith, List, [], ◌∷◌, some, replicate, length-replicate, segment,
  store_at, store_at_outside, segment-store_at, ◌==◌, if◌then◌else◌, ap, sym,
}
use knockout_kraken.Base.Monad.{ok}
use knockout_kraken.Client.Fpga.{Fpga}
use knockout_kraken.Client.Interface.{
  transplant_get_state, transplant_push_state, push_page_to_fpga, fetch_page_from_fpga,
}
use knockout_kraken.Client.Interface.Registers.{
  RegisterFile, get_state-push_state, get_state-push_state_other,
}
use knockout_kraken.Client.Interface.Pages.{AxiMemory, fetch_page-push_page}

abbrev pub device : Fpga (ℕ → ℕ)
device = record {
  base_address = record {
    axil_base = 0;
    tt = 0x8000;
    transplant_data = 0;
    transplant_ctl = 0x9000;
    transplant_stop_cpu = 0;
    message_queue = 0x10000;
    dram_base = 0;
    pt_base = 0;
    page_base = 0x10000;
    axi_base = 0x100_0000;
    message = 0x8000;
  };
  read_axil = λ a w. some (ok (w a % 2 ^ 32), w);
  write_axil = λ a v w. some (ok tt, λ b. if a == b then v else w b);
  read_axi = λ a n w. some (ok (segment w a n), w);
  write_axi = λ a bs w. some (ok tt, store_at w a bs);
}

-- The words of the device are those of `c`.
abbrev pub Words : (ℕ → ℕ) → (ℕ → ℕ) → Type 0
Words w c = (b : ℕ) → c b ≡ w b % 2 ^ 32

pub registers : RegisterFile device 0 0x8000
registers = record {
  Holds = Words;
  bounded = λ w c a h. omega (arith, h a);
  reads = λ a w c h l u. (w, ap (λ (v : ℕ). some (ok v, w)) (sym (h a)), h);
  writes = λ a v w c h l u q.
      (_, λ b. if a == b then v else c b, refl, λ b. ground (arith, h b), λ b. refl);
}

memory : AxiMemory device 0x100_0000
memory = record {
  byte = λ w. w;
  reads = λ a n w h. refl;
  writes = λ a bs w h. (_, refl, segment-store_at w a bs, λ b o. store_at_outside w a bs b o);
}

abbrev pub blank : ℕ → ℕ
blank a = 0

pub blank-Words : registers.Holds blank blank
unfolding registers
blank-Words a = refl

abbrev three_registers : List ℕ
three_registers = 5 ∷ 0xFFFF_FFFF_0000_0001 ∷ 7 ∷ []

abbrev full_page : List ℕ
full_page = replicate 4096 9

get_state-push_state_example :
    (w' w'' : ℕ → ℕ) × (transplant_push_state device 3 three_registers blank ≡ some (ok tt, w'))
    × (transplant_get_state device 3 3 w' ≡ some (ok three_registers, w''))
get_state-push_state_example =
    get_state-push_state device registers 3 three_registers blank blank blank-Words
      (omega arith, omega arith, omega arith, omega arith)
      (omega arith, (omega arith, (omega arith, tt)))

get_state-push_state_other_example :
    (xs : List ℕ) × (w1 w2 w3 : ℕ → ℕ) × (transplant_get_state device 4 35 blank ≡ some (ok xs, w1))
    × (transplant_push_state device 3 three_registers w1 ≡ some (ok tt, w2))
    × (transplant_get_state device 4 35 w2 ≡ some (ok xs, w3))
get_state-push_state_other_example =
    get_state-push_state_other device registers 3 4 35 three_registers blank blank blank-Words
      (omega arith, omega arith, omega arith, omega arith)
      (omega arith, omega arith, omega arith, omega arith) (omega arith)
      (omega arith, (omega arith, (omega arith, tt)))

fetch_page-push_page_example :
    (w' : ℕ → ℕ) × (push_page_to_fpga device 0x12345 full_page blank ≡ some (ok tt, w'))
    × (fetch_page_from_fpga device 0x12000 w' ≡ some (ok full_page, w'))
fetch_page-push_page_example =
    fetch_page-push_page device memory 0x12345 0x12000 full_page blank
      (length-replicate {A = ℕ} 4096 9) (omega arith, omega arith) refl
