-- ===== src/Wire/Layout.antt =====
-- A struct that is stored byte by byte is read back field by field.
use knockout_kraken.Base.{
  ℕ, ◌+◌, ◌^◌, ◌<◌, ◌≡◌, refl, sym, ap, ◌∙◌, arith, List, ◌++◌, length, length-append, le_bytes,
  of_le, of_le-le_bytes, segment, segment-append, length-segment, take, drop, take-append,
  drop-append,
}
use knockout_kraken.Wire.{
  MemoryRequest, MemoryRequestAxil, axil_bytes, request_bytes, axil_at, request_at,
}

-- Bytes `xs ++ ys` in memory from `a` on, cut behind `xs`.
module _ (c : ℕ → ℕ) (a m n : ℕ) (xs ys : List ℕ) (len : length xs ≡ m) where
  segment_front : segment c a (m + n) ≡ xs ++ ys → segment c a m ≡ xs
  segment_front h =
      sym (take-append (segment c a m) (segment c (a + m) n) m (length-segment c a m))
      ∙ ap (take m) (sym (segment-append c a m n) ∙ h)
      ∙ take-append xs ys m len

  segment_back : segment c a (m + n) ≡ xs ++ ys → segment c (a + m) n ≡ ys
  segment_back h =
      sym (drop-append (segment c a m) (segment c (a + m) n) m (length-segment c a m))
      ∙ ap (drop m) (sym (segment-append c a m n) ∙ h)
      ∙ drop-append xs ys m len

of_le_field : (k x : ℕ) {bs : List ℕ} → x < 256 ^ k → bs ≡ le_bytes k x → of_le bs ≡ x
of_le_field k x h e = ap of_le e ∙ of_le-le_bytes k x h

-- The ranges of the fields of either struct.
abbrev pub Fits : ℕ → ℕ → ℕ → Type 0
Fits addr byte_size is_write = (addr < 2 ^ 64) × (byte_size < 2 ^ 64) × (is_write < 2 ^ 32)

pub length-axil_bytes : (r : MemoryRequestAxil) → length (axil_bytes r) ≡ 24
unfolding axil_bytes
length-axil_bytes r = refl

pub length-request_bytes :
    (r : MemoryRequest) (padding : List ℕ)
    → length r.w_data ≡ 4096
    → length padding ≡ 4
    → length (request_bytes r padding) ≡ 4120
unfolding request_bytes
length-request_bytes r padding h k = omega (arith, length-append r.w_data padding)

-- Where the bytes of an AXI-Lite request lie at the start of a memory, the request is read.
pub axil_at-axil_bytes :
    (r : MemoryRequestAxil) (c : ℕ → ℕ)
    → Fits r.addr r.byte_size r.is_write
    → r.w_data < 2 ^ 32
    → segment c 0 24 ≡ axil_bytes r
    → axil_at c ≡ r
unfolding axil_bytes axil_at
axil_at-axil_bytes r c (ha, hb, hw) hd e =
    let x1 = le_bytes 8 r.addr in
    let x2 = le_bytes 8 r.byte_size in
    let x3 = le_bytes 4 r.is_write in
    let x4 = le_bytes 4 r.w_data in
    let e1 : segment c 0 (8 + 16) ≡ x1 ++ (x2 ++ (x3 ++ x4)) = e in
    let e2 : segment c 8 (8 + 8) ≡ x2 ++ (x3 ++ x4) = segment_back c 0 8 16 x1 _ refl e1 in
    let e3 : segment c 16 (4 + 4) ≡ x3 ++ x4 = segment_back c 8 8 8 x2 _ refl e2 in
    λ i. record {
      addr = of_le_field 8 r.addr ha (segment_front c 0 8 16 x1 (x2 ++ (x3 ++ x4)) refl e1) i;
      byte_size = of_le_field 8 r.byte_size hb (segment_front c 8 8 8 x2 (x3 ++ x4) refl e2) i;
      is_write = of_le_field 4 r.is_write hw (segment_front c 16 4 4 x3 x4 refl e3) i;
      w_data = of_le_field 4 r.w_data hd (segment_back c 16 4 4 x3 x4 refl e3) i;
    }

-- The same for an AXI request with its 4096 bytes of data, whatever the padding.
pub request_at-request_bytes :
    (r : MemoryRequest) (padding : List ℕ) (c : ℕ → ℕ)
    → Fits r.addr r.byte_size r.is_write
    → length r.w_data ≡ 4096
    → segment c 0 4120 ≡ request_bytes r padding
    → request_at c ≡ r
unfolding request_bytes request_at
request_at-request_bytes r padding c (ha, hb, hw) len e =
    let x1 = le_bytes 8 r.addr in
    let x2 = le_bytes 8 r.byte_size in
    let x3 = le_bytes 4 r.is_write in
    let x4 = r.w_data ++ padding in
    let e1 : segment c 0 (8 + 4112) ≡ x1 ++ (x2 ++ (x3 ++ x4)) = e in
    let e2 : segment c 8 (8 + 4104) ≡ x2 ++ (x3 ++ x4) = segment_back c 0 8 4112 x1 _ refl e1 in
    let e3 : segment c 16 (4 + 4100) ≡ x3 ++ x4 = segment_back c 8 8 4104 x2 _ refl e2 in
    let e4 : segment c 20 (4096 + 4) ≡ x4 = segment_back c 16 4 4100 x3 _ refl e3 in
    λ i. record {
      addr = of_le_field 8 r.addr ha (segment_front c 0 8 4112 x1 (x2 ++ (x3 ++ x4)) refl e1) i;
      byte_size = of_le_field 8 r.byte_size hb (segment_front c 8 8 4104 x2 (x3 ++ x4) refl e2) i;
      is_write = of_le_field 4 r.is_write hw (segment_front c 16 4 4100 x3 x4 refl e3) i;
      w_data = segment_front c 20 4096 4 r.w_data padding len e4 i;
    }
