-- ===== src/Server/Routine/Memory.antt =====
-- The client's accesses to the DRAM: what a read finds after a write.
use knockout_kraken.Base.{
  ℕ, zero, suc, ◌+◌, ◌*◌, ◌-◌, ◌/◌, ◌%◌, ◌^◌, ◌≤◌, ◌<◌, ◌≡◌, ◌⊎◌, inl, refl, sym, ap, ap₂, ◌∙◌,
  arith, List, [], ◌∷◌, some, length, length-take, take, take_all, get_or, pos, segment,
  segment-store_at, store_at, store_at_outside, bit_and, suc-ne-zero, if◌then◌else◌, ◌==◌, le_bytes,
}
use knockout_kraken.Wire.{MemoryRequest}
use knockout_kraken.Server.Dut.{TopDut, addr_mask}
use knockout_kraken.Server.Dut.Mask.{addr_mask_keeps}
use knockout_kraken.Server.Routine.{Setting, Shared, go, ◌>>=◌, ◌>>◌, send_reply}
use knockout_kraken.Server.Routine.Axi.{axi_dram_access, dram_address, replied}

some_inj : {A : Type 0} {a b : A} → some a ≡ some b → a ≡ b
some_inj h = cc

-- The mask of the object is that of its size.
abbrev pub Masked : {V : Type 0} → TopDut V → Type 0
Masked d = (addr_mask d.dram_size ≡ some d.dram_addr_mask) × (d.dram_size < 2 ^ 63)

-- A word address of the DRAM is used as it is.
pub dram_address_lem :
    {V : Type 0} (d : TopDut V) (addr : ℕ)
    → Masked d
    → addr < d.dram_size
    → addr % 4 ≡ 0
    → dram_address d addr ≡ addr
dram_address_lem d addr (found, small) lt word =
    let (mask, e, keeps) = addr_mask_keeps d.dram_size addr small lt in
    let same : bit_and addr d.dram_addr_mask ≡ addr =
      ap (bit_and addr) (some_inj (sym found ∙ e)) ∙ keeps in
    omega (arith, same, word)

store_at_inside :
    (c : ℕ → ℕ) (a i : ℕ) (bs : List ℕ) (d : ℕ)
    → i < length bs
    → store_at c a bs (a + i) ≡ get_or bs i d
unfolding store_at
store_at_inside c a i [] d h = absurd (omega arith)
store_at_inside c a zero (b ∷ bs) d h =
    store_at_outside (λ y. if a == y then b else c y) (suc a) bs (a + 0) (inl (omega arith))
    ∙ ground arith
store_at_inside c a (suc i) (b ∷ bs) d h =
    ap (store_at (λ y. if a == y then b else c y) (suc a) bs) (omega arith)
    ∙ store_at_inside (λ y. if a == y then b else c y) (suc a) i bs d (omega arith)

get_or-take : (n i : ℕ) (xs : List ℕ) (d : ℕ) → i < n → get_or (take n xs) i d ≡ get_or xs i d
get_or-take zero i xs d h = absurd (omega arith)
get_or-take (suc n) i [] d h = refl
get_or-take (suc n) zero (x ∷ xs) d h = refl
get_or-take (suc n) (suc i) (x ∷ xs) d h = get_or-take n i xs d (omega arith)

module _ {V W : Type 0} (x : Setting V W) where
  -- An answer that has gone out changes nothing of the object.
  answered :
      (bytes : List ℕ) (s s1 : Shared V W)
      → (send_reply x bytes >>= replied x) s ≡ some (go (pos 0), s1)
      → s1.dut ≡ s.dut
  answered bytes s s1 h = ground arith

  abbrev stored : MemoryRequest → Shared V W → Shared V W
  stored req s = record s {
    dut = record s.dut {
      dram = store_at s.dut.dram (dram_address s.dut req.addr) (take req.byte_size req.w_data);
    };
  }

  pub write_access :
      (req : MemoryRequest) {k : ℕ} (s : Shared V W)
      → req.is_write ≡ suc k
      → axi_dram_access x req s ≡ (send_reply x (le_bytes 4 0) >>= replied x) (stored req s)
  unfolding axi_dram_access
  write_access req {k = k} s e = rw (ap (λ (n : ℕ). n == 0) e ∙ suc-ne-zero k, ◌>>=◌, ◌>>◌)

  pub read_access :
      (req : MemoryRequest) (s : Shared V W)
      → req.is_write ≡ 0
      → axi_dram_access x req s
        ≡ (send_reply x (
                take
                  (4 * (req.byte_size / 4))
                  (segment s.dut.dram (dram_address s.dut req.addr) req.byte_size))
              >>= replied x)
            s
  unfolding axi_dram_access
  read_access req s e = rw (e, ◌>>=◌, ◌>>◌)

  -- A client's write that fits into the request, begins at a word address in the DRAM and has been
  -- answered leaves its bytes at its address and every other byte as it was; the rest of the object
  -- is as before. The mask is that of the DRAM's size, below 2^63.
  axi_dram_write :
      (req : MemoryRequest) {k : ℕ} (s s1 : Shared V W)
      → Masked s.dut
      → req.addr < s.dut.dram_size
      → req.addr % 4 ≡ 0
      → req.byte_size ≤ length req.w_data
      → req.is_write ≡ suc k
      → axi_dram_access x req s ≡ some (go (pos 0), s1)
      → (segment s1.dut.dram req.addr req.byte_size ≡ take req.byte_size req.w_data)
        × ((b : ℕ) → (b < req.addr) ⊎ (req.addr + req.byte_size ≤ b) → s1.dut.dram b ≡ s.dut.dram b)
        × (s1.dut ≡ record s.dut { dram = s1.dut.dram })
  axi_dram_write req s s1 masked lt word fits e h =
      let data_ = take req.byte_size req.w_data in
      let at = dram_address_lem s.dut req.addr masked lt word in
      let len : length data_ ≡ req.byte_size =
        omega (arith, length-take req.byte_size req.w_data) in
      let same = answered (le_bytes 4 0) (stored req s) s1 (sym (write_access req s e) ∙ h) in
      let dram : s1.dut.dram ≡ store_at s.dut.dram req.addr data_ =
        ap (λ (d : TopDut V). d.dram) same ∙ ap (λ (a : ℕ). store_at s.dut.dram a data_) at in
      (
        ap₂ (λ (c : ℕ → ℕ) (n : ℕ). segment c req.addr n) dram (sym len)
            ∙ segment-store_at s.dut.dram req.addr data_,
        λ b o.
            ap (λ (c : ℕ → ℕ). c b) dram
            ∙ store_at_outside s.dut.dram req.addr data_ b (grind arith),
        same
            ∙ sym (
                ap (λ (c : ℕ → ℕ). record s.dut { dram = c }) (ap (λ (d : TopDut V). d.dram) same)),
      )

  -- Behind a client's write of whole words that fits into the request, begins at a word address in
  -- the DRAM and has been answered, a read at the same address and of the same size answers with
  -- the bytes written. The mask is that of the DRAM's size, below 2^63.
  pub axi_dram_read-write :
      (req : MemoryRequest) {k : ℕ} (s s1 : Shared V W)
      → Masked s.dut
      → req.addr < s.dut.dram_size
      → req.addr % 4 ≡ 0
      → req.byte_size ≤ length req.w_data
      → req.byte_size % 4 ≡ 0
      → req.is_write ≡ suc k
      → axi_dram_access x req s ≡ some (go (pos 0), s1)
      → axi_dram_access x (record req { is_write = 0 }) s1
        ≡ (send_reply x (take req.byte_size req.w_data) >>= replied x) s1
  axi_dram_read-write req s s1 masked lt word fits words e h =
      let (same, others, rest) = axi_dram_write req s s1 masked lt word fits e h in
      let at : dram_address s1.dut req.addr ≡ req.addr =
        ap (λ (d : TopDut V). dram_address d req.addr) rest
        ∙ dram_address_lem s.dut req.addr masked lt word in
      let found : segment s1.dut.dram (dram_address s1.dut req.addr) req.byte_size
          ≡ take req.byte_size req.w_data =
        ap (λ (a : ℕ). segment s1.dut.dram a req.byte_size) at ∙ same in
      let whole : take (4 * (req.byte_size / 4)) (take req.byte_size req.w_data)
          ≡ take req.byte_size req.w_data =
        take_all (4 * (req.byte_size / 4)) (take req.byte_size req.w_data)
          (omega (arith, length-take req.byte_size req.w_data)) in
      read_access (record req { is_write = 0 }) s1 refl
      ∙ ap (λ (bs : List ℕ). (send_reply x bs >>= replied x) s1)
          (ap (take (4 * (req.byte_size / 4))) found ∙ whole)

  -- Only the first address of an access is compared with the size: a write that begins at a word
  -- address in the DRAM, is longer than what is left of it, and has been answered puts its data
  -- into the byte behind the DRAM.
  pub axi_dram_overrun :
      (req : MemoryRequest) {k : ℕ} (s s1 : Shared V W)
      → Masked s.dut
      → req.addr < s.dut.dram_size
      → req.addr % 4 ≡ 0
      → req.byte_size ≤ length req.w_data
      → s.dut.dram_size < req.addr + req.byte_size
      → req.is_write ≡ suc k
      → axi_dram_access x req s ≡ some (go (pos 0), s1)
      → s1.dut.dram s.dut.dram_size ≡ get_or req.w_data (s.dut.dram_size - req.addr) 0
  axi_dram_overrun req s s1 masked lt word fits over e h =
      let data_ = take req.byte_size req.w_data in
      let i = s.dut.dram_size - req.addr in
      let at = dram_address_lem s.dut req.addr masked lt word in
      let same = answered (le_bytes 4 0) (stored req s) s1 (sym (write_access req s e) ∙ h) in
      ap (λ (d : TopDut V). d.dram s.dut.dram_size) same
      ∙ ap₂ (λ (a b : ℕ). store_at s.dut.dram a data_ b) at (omega arith)
      ∙ store_at_inside s.dut.dram req.addr i data_ 0
          (omega (arith, length-take req.byte_size req.w_data))
      ∙ get_or-take req.byte_size i req.w_data 0 (omega arith)
