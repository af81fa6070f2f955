-- ===== src/Server/Routine/Dram/Master.antt =====
-- What handleDRAMSubroute relies on in the design: behind its memory port the design makes one burst
-- after the other, in the terms of the AXI protocol.
use knockout_kraken.Base.{
  List, [], ◌∷◌, ◌++◌, ℕ, zero, suc, ◌≡◌, ◌≢◌, false, true, if◌then◌else◌, ◌==◌, ◌&&◌, length,
}
use knockout_kraken.Server.Ports.{
  Output, WideOutput, Input, WideInput, m_axi_ar_arvalid, m_axi_ar_araddr, m_axi_ar_arsize,
  m_axi_ar_arid, m_axi_ar_arlen, m_axi_aw_awvalid, m_axi_aw_awaddr, m_axi_aw_awid, m_axi_aw_awlen,
  m_axi_r_rready, m_axi_w_wvalid, m_axi_b_bready, m_axi_w_wdata, m_axi_ar_arready, m_axi_r_rid,
  m_axi_r_rresp, m_axi_r_rlast, m_axi_r_rvalid, m_axi_aw_awready, m_axi_w_wready, m_axi_b_bvalid,
  m_axi_b_bid, m_axi_b_bresp, m_axi_r_rdata,
}
use knockout_kraken.Server.Routine.{Shared}
use knockout_kraken.Server.Routine.Protocol.{last_mark, Protocol}

-- The levels of the inputs.
pub record Pins : Type 0 where
  pub arready : ℕ
  pub rid : ℕ
  pub rresp : ℕ
  pub rdata : List ℕ
  pub rlast : ℕ
  pub rvalid : ℕ
  pub awready : ℕ
  pub wready : ℕ
  pub bid : ℕ
  pub bresp : ℕ
  pub bvalid : ℕ

abbrev pub drive : Input → ℕ → Pins → Pins
drive m_axi_ar_arready n p = record p { arready = n }
drive m_axi_r_rid n p = record p { rid = n }
drive m_axi_r_rresp n p = record p { rresp = n }
drive m_axi_r_rlast n p = record p { rlast = n }
drive m_axi_r_rvalid n p = record p { rvalid = n }
drive m_axi_aw_awready n p = record p { awready = n }
drive m_axi_w_wready n p = record p { wready = n }
drive m_axi_b_bid n p = record p { bid = n }
drive m_axi_b_bresp n p = record p { bresp = n }
drive m_axi_b_bvalid n p = record p { bvalid = n }
drive i n p = p

abbrev pub drive_wide : WideInput → List ℕ → Pins → Pins
drive_wide m_axi_r_rdata bytes p = record p { rdata = bytes }
drive_wide i bytes p = p

-- Between bursts; a read burst, from its offer to the bytes that it has brought; a write burst, from
-- its offer to the response; and where the simulator has broken the protocol. `more` and `rest` are the
-- blocks that come after the next one.
pub data Phase : Type 0 where
  at_rest written broken : Phase
  asking_read : (addr id more : ℕ) → Phase
  receiving : (id more : ℕ) → List ℕ → Phase
  received : List ℕ → Phase
  asking_write : (addr id : ℕ) → List ℕ → List (List ℕ) → Phase
  sending : (id : ℕ) → List ℕ → List (List ℕ) → Phase
  confirming : (id : ℕ) → Phase

pub data Channel : Type 0 where
  read_address read_data write_address write_data write_response : Channel

abbrev pub signal : Channel → Output
signal read_address = m_axi_ar_arvalid
signal read_data = m_axi_r_rready
signal write_address = m_axi_aw_awvalid
signal write_data = m_axi_w_wvalid
signal write_response = m_axi_b_bready

abbrev pub Asked : Channel → Pins → Phase → Type 0
Asked read_address p (asking_read addr id more) = p.arready ≡ 1
Asked read_data p (receiving id more got) = p.rvalid ≡ 1
Asked write_address p (asking_write addr id block rest) = p.awready ≡ 1
Asked write_data p (sending id block rest) = p.wready ≡ 1
Asked write_response p (confirming id) = p.bvalid ≡ 1
Asked _ p _ = false ≡ true

abbrev pub receive_on : (id more : ℕ) → List ℕ → Phase
receive_on id zero got = received got
receive_on id (suc more) got = receiving id more got

abbrev pub send_on : (id : ℕ) → List (List ℕ) → Phase
send_on id [] = confirming id
send_on id (block ∷ rest) = sending id block rest

-- A block has to bear the burst's id, the response 0 and the right mark, and so has a response.
abbrev pub moved : Channel → Pins → Phase → Phase
moved read_address p (asking_read addr id more) = receiving id more []
moved read_data p (receiving id more got) =
    if p.rid == id && p.rresp == 0 && p.rlast == last_mark more
    then receive_on id more (got ++ p.rdata)
    else broken
moved write_address p (asking_write addr id block rest) = sending id block rest
moved write_data p (sending id block rest) = send_on id rest
moved write_response p (confirming id) = if p.bid == id && p.bresp == 0 then written else broken
moved _ p k = k

abbrev pub Shown : Phase → (Output → ℕ) → (WideOutput → List ℕ) → Type 0
Shown (asking_read addr id more) get get_wide =
    (get m_axi_ar_arvalid ≢ 0)
    × (get m_axi_ar_araddr ≡ addr)
    × (get m_axi_ar_arid ≡ id)
    × (get m_axi_ar_arlen ≡ more)
    × (get m_axi_ar_arsize ≡ 6)
Shown (asking_write addr id block rest) get get_wide =
    (get m_axi_aw_awvalid ≢ 0)
    × (get m_axi_aw_awaddr ≡ addr)
    × (get m_axi_aw_awid ≡ id)
    × (get m_axi_aw_awlen ≡ length rest)
Shown (sending id block rest) get get_wide = get m_axi_w_wvalid ≢ 0 → get_wide m_axi_w_wdata ≡ block
Shown _ get get_wide = Unit {0}

abbrev pub master : Protocol
master = record {
  Pins = Pins;
  Status = Phase;
  Channel = Channel;
  drive = drive;
  drive_wide = drive_wide;
  signal = signal;
  Asked = Asked;
  transferred = moved;
  Shows = Shown;
  Still = λ p k. ⊥;
}

-- What a tick leaves alone: the DRAM and its size.
abbrev pub dram_of : {V W : Type 0} → Shared V W → (ℕ → ℕ) × ℕ
dram_of s = (s.dut.dram, s.dut.dram_size)
