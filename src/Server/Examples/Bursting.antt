-- ===== src/Server/Examples/Bursting.antt =====
-- A design that makes bursts to the DRAM.
use knockout_kraken.Base.{
  ℕ, ◌≡◌, ◌≢◌, refl, arith, List, [], ◌∷◌, ◌++◌, false, some, length, replicate, segment, store_at,
  if◌then◌else◌, ◌==◌,
}
use knockout_kraken.Server.Ports.{
  Output, WideOutput, m_axi_ar_araddr, m_axi_ar_arsize, m_axi_ar_arid, m_axi_ar_arlen,
  m_axi_aw_awaddr, m_axi_aw_awid, m_axi_aw_awlen,
}
use knockout_kraken.Server.Routine.{Shared, go}
use knockout_kraken.Server.Routine.Dram.{dram_read, dram_write}
use knockout_kraken.Server.Routine.Dram.Master.{
  Pins, Phase, at_rest, written, broken, asking_read, receiving, received, asking_write, sending,
  confirming, Channel, read_address, read_data, write_address, write_data, write_response, signal,
  Asked, moved, Shown, master, dram_of,
}
use knockout_kraken.Server.Routine.Dram.Reads.{dram_read-received}
use knockout_kraken.Server.Routine.Dram.Writes.{dram_write-written}
use knockout_kraken.Server.Routine.Protocol.{Follows}
use knockout_kraken.Server.Examples.Machine.{Machine, Wires, setting, follows, shared}

abbrev level : Phase → Output → ℕ
level k m_axi_ar_arsize = 6
level (asking_read addr id more) m_axi_ar_araddr = addr
level (asking_read addr id more) m_axi_ar_arid = id
level (asking_read addr id more) m_axi_ar_arlen = more
level (asking_write addr id block rest) m_axi_aw_awaddr = addr
level (asking_write addr id block rest) m_axi_aw_awid = id
level (asking_write addr id block rest) m_axi_aw_awlen = length rest
level k o = 1

abbrev bytes : Phase → WideOutput → List ℕ
bytes (sending id block rest) o = block
bytes k o = []

-- A rising edge.
abbrev edge : Pins → Phase → Phase
edge p (asking_read addr id more) =
    if p.arready == 1
    then moved read_address p (asking_read addr id more)
    else asking_read addr id more
edge p (receiving id more got) =
    if p.rvalid == 1 then moved read_data p (receiving id more got) else receiving id more got
edge p (asking_write addr id block rest) =
    if p.awready == 1
    then moved write_address p (asking_write addr id block rest)
    else asking_write addr id block rest
edge p (sending id block rest) =
    if p.wready == 1 then moved write_data p (sending id block rest) else sending id block rest
edge p (confirming id) =
    if p.bvalid == 1 then moved write_response p (confirming id) else confirming id
edge p k = k

pub edge_moves : (c : Channel) (p : Pins) (k : Phase) → Asked c p k → edge p k ≡ moved c p k
edge_moves read_address p (asking_read addr id more) h = rw h
edge_moves read_data p (receiving id more got) h = rw h
edge_moves write_address p (asking_write addr id block rest) h = rw h
edge_moves write_data p (sending id block rest) h = rw h
edge_moves write_response p (confirming id) h = rw h
edge_moves c p k h = ground arith

pub shown : (k : Phase) → Shown k (level k) (bytes k)
shown (asking_read addr id more) = (omega arith, refl, refl, refl, refl)
shown (asking_write addr id block rest) = (omega arith, refl, refl, refl)
shown (sending id block rest) = λ up. refl
shown at_rest = tt
shown written = tt
shown broken = tt
shown (receiving id more got) = tt
shown (received got) = tt
shown (confirming id) = tt

pub never_stalls : (c : Channel) (p : Pins) (k : Phase) → Asked c p k → level k (signal c) ≢ 0
never_stalls read_address p (asking_read addr id more) h = omega arith
never_stalls read_data p (receiving id more got) h = omega arith
never_stalls write_address p (asking_write addr id block rest) h = omega arith
never_stalls write_data p (sending id block rest) h = omega arith
never_stalls write_response p (confirming id) h = omega arith
never_stalls c p k h = ground arith

abbrev pub machine : Machine master
machine = record {
  level = λ slow. level;
  bytes = bytes;
  next = λ slow. edge;
  shown = λ slow. shown;
  moves = λ slow c p k h up. edge_moves c p k h;
  stalls = λ slow c p k h down. absurd (never_stalls c p k h down);
  stills = λ slow p k h. absurd h;
}

abbrev pub own : Follows master (setting master machine) dram_of
own = follows master machine dram_of (λ s v. refl)

abbrev pub low : Pins
low = record {
  arready = 0;
  rid = 0;
  rresp = 0;
  rdata = [];
  rlast = 0;
  rvalid = 0;
  awready = 0;
  wready = 0;
  bid = 0;
  bresp = 0;
  bvalid = 0;
}

abbrev pub block : ℕ → List ℕ
block n = replicate 64 n

abbrev pub filled : ℕ → ℕ
filled a = 9

abbrev pub asks : Phase → Shared (Wires master machine) ℕ
asks k = shared master machine low k false filled

dram_read-received_example :
    (s' : Shared (Wires master machine) ℕ) × (dram_read
        (setting master machine)
        (asks (asking_read 4096 3 1))
      ≡ some (go tt, s'))
    × (s'.dut.design.state ≡ received (segment filled 4096 128))
    × (dram_of s' ≡ (filled, 16777216))
dram_read-received_example =
    dram_read-received (setting master machine) own 4096 3 1 (asks (asking_read 4096 3 1))
      (omega arith) refl refl

dram_write-written_example :
    (s' : Shared (Wires master machine) ℕ) × (dram_write
        (setting master machine)
        (asks (asking_write 4096 3 (block 1) (block 2 ∷ [])))
      ≡ some (go tt, s'))
    × (s'.dut.design.state ≡ written)
    × (dram_of s' ≡ (store_at filled 4096 (block 1 ++ (block 2 ++ [])), 16777216))
dram_write-written_example =
    dram_write-written (setting master machine) own 4096 3 (block 1) (block 2 ∷ [])
      (asks (asking_write 4096 3 (block 1) (block 2 ∷ []))) (omega arith) refl (refl, (refl, tt))
      refl refl
