-- ===== src/Server/Examples/Memories.antt =====
-- A design that is a memory behind its AXI port.
use knockout_kraken.Base.{
  ℕ, ◌+◌, ◌^◌, ◌≡◌, ◌≢◌, refl, arith, List, [], Bool, true, false, none, replicate, segment,
  store_at, le_bytes, if◌then◌else◌, ◌==◌,
}
use knockout_kraken.Wire.{MemoryRequest}
use knockout_kraken.Server.Ipc.{IpcServer}
use knockout_kraken.Server.Ports.{
  Output, WideOutput, s_axi_ar_arready, s_axi_r_rvalid, s_axi_r_rlast,
}
use knockout_kraken.Server.Routine.{Shared, must_reply}
use knockout_kraken.Server.Routine.Axi.{axi_write, axi_read}
use knockout_kraken.Server.Routine.Axi.Slave.{
  Pins, Phase, idle, responding, broken, writing, reading, Ram, Channel, write_address, write_data,
  write_response, read_address, read_data, signal, Asked, Still, moved, Shown, axi, Rests,
}
use knockout_kraken.Server.Routine.Axi.Writes.{axi_write-Rests}
use knockout_kraken.Server.Routine.Axi.Reads.{axi_read-Rests}
use knockout_kraken.Server.Routine.Axi.Lost.{axi_read_lost}
use knockout_kraken.Server.Routine.Protocol.{last_mark, Follows}
use knockout_kraken.Server.Examples.Machine.{Machine, Wires, setting, follows, shared}
use knockout_kraken.Server.Examples.Registers.{blank}

-- A slow memory takes one more tick before it is ready for an address.
abbrev level : Bool → Phase → Output → ℕ
level true idle o = 0
level false idle s_axi_r_rvalid = 0
level slow (reading addr more) s_axi_ar_arready = 0
level slow (reading addr more) s_axi_r_rlast = last_mark more
level slow k o = 1

abbrev bytes : Phase → (ℕ → ℕ) → WideOutput → List ℕ
bytes (reading addr more) memory o = segment memory addr 64
bytes k memory o = []

-- A rising edge.
abbrev edge : Pins → Phase → (ℕ → ℕ) → Ram
edge p idle memory =
    if p.awvalid == 1
    then moved write_address p idle memory
    else (if p.arvalid == 1
        then moved read_address p idle memory
        else record { phase = idle; memory = memory })
edge p (writing addr more) memory =
    if p.wvalid == 1
    then moved write_data p (writing addr more) memory
    else record { phase = writing addr more; memory = memory }
edge p responding memory =
    if p.bready == 1
    then moved write_response p responding memory
    else record { phase = responding; memory = memory }
edge p (reading addr more) memory =
    if p.rready == 1
    then moved read_data p (reading addr more) memory
    else record { phase = reading addr more; memory = memory }
edge p broken memory = record { phase = broken; memory = memory }

abbrev next : Bool → Pins → Phase → (ℕ → ℕ) → Ram
next true p idle memory = record { phase = idle; memory = memory }
next slow p k memory = edge p k memory

edge_moves :
    (c : Channel) (p : Pins) (k : Phase) (memory : ℕ → ℕ)
    → Asked c p k
    → edge p k memory ≡ moved c p k memory
edge_moves write_address p idle memory (h, g) = rw h
edge_moves read_address p idle memory (h, g) = rw (h, g)
edge_moves write_data p (writing addr more) memory h = rw h
edge_moves write_response p responding memory h = rw h
edge_moves read_data p (reading addr more) memory h = rw h
edge_moves c p k memory h = ground arith

edge_stills :
    (p : Pins) (k : Phase) (memory : ℕ → ℕ)
    → Still p k
    → edge p k memory ≡ record { phase = k; memory = memory }
edge_stills p idle memory (h, g) = rw (h, g)
edge_stills p (writing addr more) memory h = rw h
edge_stills p responding memory h = rw h
edge_stills p (reading addr more) memory h = rw h
edge_stills p broken memory h = refl

shown : (slow : Bool) (k : Phase) (memory : ℕ → ℕ) → Shown k memory (level slow k) (bytes k memory)
shown true idle memory = refl
shown false idle memory = refl
shown true (reading addr more) memory = (refl, λ up. (refl, refl))
shown false (reading addr more) memory = (refl, λ up. (refl, refl))
shown slow (writing addr more) memory = tt
shown slow responding memory = tt
shown slow broken memory = tt

next_moves :
    (slow : Bool) (c : Channel) (p : Pins) (k : Phase) (memory : ℕ → ℕ)
    → Asked c p k
    → level slow k (signal c) ≢ 0
    → next slow p k memory ≡ moved c p k memory
next_moves true c p idle memory h up = absurd (up refl)
next_moves true c p (writing addr more) memory h up = edge_moves c p (writing addr more) memory h
next_moves true c p (reading addr more) memory h up = edge_moves c p (reading addr more) memory h
next_moves true c p responding memory h up = edge_moves c p responding memory h
next_moves true c p broken memory h up = edge_moves c p broken memory h
next_moves false c p k memory h up = edge_moves c p k memory h

next_stalls :
    (slow : Bool) (c : Channel) (p : Pins) (k : Phase) (memory : ℕ → ℕ)
    → Asked c p k
    → level slow k (signal c) ≡ 0
    → (next slow p k memory ≡ record { phase = k; memory = memory }) × (slow ≡ true)
next_stalls true c p idle memory h down = (refl, refl)
next_stalls slow write_data p (writing addr more) memory h down = absurd (omega arith)
next_stalls slow write_response p responding memory h down = absurd (omega arith)
next_stalls slow read_data p (reading addr more) memory h down = absurd (omega arith)
next_stalls slow write_address p idle memory h down = ground arith
next_stalls slow read_address p idle memory h down = ground arith
next_stalls slow c p k memory h down = ground arith

next_stills :
    (slow : Bool) (p : Pins) (k : Phase) (memory : ℕ → ℕ)
    → Still p k
    → next slow p k memory ≡ record { phase = k; memory = memory }
next_stills true p idle memory h = refl
next_stills true p (writing addr more) memory h = edge_stills p (writing addr more) memory h
next_stills true p (reading addr more) memory h = edge_stills p (reading addr more) memory h
next_stills true p responding memory h = edge_stills p responding memory h
next_stills true p broken memory h = refl
next_stills false p k memory h = edge_stills p k memory h

abbrev machine : Machine axi
machine = record {
  level = λ slow k. level slow k.phase;
  bytes = λ k. bytes k.phase k.memory;
  next = λ slow p k. next slow p k.phase k.memory;
  shown = λ slow k. shown slow k.phase k.memory;
  moves = λ slow c p k. next_moves slow c p k.phase k.memory;
  stalls = λ slow c p k. next_stalls slow c p k.phase k.memory;
  stills = λ slow p k. next_stills slow p k.phase k.memory;
}

abbrev world_of : Shared (Wires axi machine) ℕ → IpcServer × ℕ
world_of s = (s.ipc, s.world)

abbrev own : Follows axi (setting axi machine) world_of
own = follows axi machine world_of (λ s v. refl)

abbrev low : Pins
low = record {
  awaddr = 0;
  awsize = 0;
  awburst = 0;
  awlen = 0;
  awvalid = 0;
  wdata = [];
  wlast = 0;
  wstrb = 0;
  wvalid = 0;
  bready = 0;
  araddr = 0;
  arlen = 0;
  arburst = 0;
  arsize = 0;
  arvalid = 0;
  rready = 0;
}

abbrev resting : Bool → (ℕ → ℕ) → Shared (Wires axi machine) ℕ
resting slow memory = shared axi machine low (record { phase = idle; memory = memory }) slow blank

-- Two blocks, at the address 4096 of the design's memory.
abbrev two_blocks : List ℕ
two_blocks = replicate 128 5

abbrev request : (is_write : ℕ) → MemoryRequest
request is_write = record {
  addr = 2 ^ 24 + 4096;
  byte_size = 128;
  is_write = is_write;
  w_data = two_blocks;
}

axi_write-Rests_example :
    (s' : Shared (Wires axi machine) ℕ) × (axi_write
        (setting axi machine)
        (request 1)
        (resting true blank)
      ≡ must_reply (setting axi machine) (le_bytes 4 0) s')
    × Rests (setting axi machine) world_of own s' (store_at blank 4096 two_blocks)
    × (world_of s' ≡ world_of (resting true blank))
axi_write-Rests_example =
    axi_write-Rests (setting axi machine) world_of own (request 1) (resting true blank) blank refl
      (omega arith) (omega arith) (omega arith)
      (record { no_write = refl; no_read = refl; no_ready = refl; holds = refl })

axi_read-Rests_example :
    (s' : Shared (Wires axi machine) ℕ) × (axi_read
        (setting axi machine)
        (request 0)
        (resting false (store_at blank 4096 two_blocks))
      ≡ must_reply (setting axi machine) (segment (store_at blank 4096 two_blocks) 4096 128) s')
    × Rests (setting axi machine) world_of own s' (store_at blank 4096 two_blocks)
    × (world_of s' ≡ world_of (resting false blank))
axi_read-Rests_example =
    axi_read-Rests (setting axi machine) world_of own (request 0)
      (resting false (store_at blank 4096 two_blocks)) (store_at blank 4096 two_blocks) refl
      (omega arith) (omega arith) (omega arith)
      (record { no_write = refl; no_read = refl; no_ready = refl; holds = refl }) (omega arith)

axi_read_lost_example : axi_read (setting axi machine) (request 0) (resting true blank) ≡ none
axi_read_lost_example =
    axi_read_lost (setting axi machine) world_of own (request 0) (resting true blank) blank
      (omega arith) (record { no_write = refl; no_read = refl; no_ready = refl; holds = refl }) refl
