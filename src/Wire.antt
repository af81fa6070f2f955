-- ===== src/Wire.antt =====
-- The structs MemoryRequest and MemoryRequestAXIL as they lie in memory on a 64-bit little-endian
-- machine: regression/src/client/ipc.h and, with the same layout, regression/src/server/ipc.hh.
pub mod Layout
use knockout_kraken.Base.{ℕ, List, ◌++◌, le_bytes, of_le, segment}

-- `w_data` is an array of 1024 words, seen as its 4096 bytes.
pub record MemoryRequest : Type 0 where
  pub addr : ℕ
  pub byte_size : ℕ
  pub is_write : ℕ
  pub w_data : List ℕ

pub record MemoryRequestAxil : Type 0 where
  pub addr : ℕ
  pub byte_size : ℕ
  pub is_write : ℕ
  pub w_data : ℕ

abbrev pub sizeof_axil : ℕ
sizeof_axil = 24

-- 8 + 8 + 4 + 4096 bytes, and four of padding to a multiple of 8.
abbrev pub sizeof_request : ℕ
sizeof_request = 4120

unfoldable pub axil_bytes : MemoryRequestAxil → List ℕ
axil_bytes r =
    le_bytes 8 r.addr ++ (le_bytes 8 r.byte_size ++ (le_bytes 4 r.is_write ++ le_bytes 4 r.w_data))

-- The padding is the second argument.
unfoldable pub request_bytes : MemoryRequest → List ℕ → List ℕ
request_bytes r padding =
    le_bytes 8 r.addr
    ++ (le_bytes 8 r.byte_size ++ (le_bytes 4 r.is_write ++ (r.w_data ++ padding)))

-- The fields of the struct that stands at the start of a memory.
unfoldable pub axil_at : (ℕ → ℕ) → MemoryRequestAxil
axil_at c = record {
  addr = of_le (segment c 0 8);
  byte_size = of_le (segment c 8 8);
  is_write = of_le (segment c 16 4);
  w_data = of_le (segment c 20 4);
}

unfoldable pub request_at : (ℕ → ℕ) → MemoryRequest
request_at c = record {
  addr = of_le (segment c 0 8);
  byte_size = of_le (segment c 8 8);
  is_write = of_le (segment c 16 4);
  w_data = segment c 20 4096;
}
