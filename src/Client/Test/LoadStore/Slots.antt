-- ===== src/Client/Test/LoadStore/Slots.antt =====
-- The bytes of a pair in a page: what write_page_block stores is what the check of a store looks at.
use knockout_kraken.Base.{
  ℕ, zero, suc, ◌+◌, ◌≤◌, ◌<◌, ◌≡◌, ◌↔◌, refl, sym, ap, ◌∙◌, arith, List, some, length, get_or, set,
  length-set, get_or-set_self, get_or-set_ne, ◌==◌, ==_iff, ℕ_discrete,
}
use knockout_kraken.Base.Monad.{ok, ◌>>=◌, ◌>>◌}
use knockout_kraken.Client.Test.Passes.{require_then}
use knockout_kraken.Client.Test.LoadStore.{
  page_offset, write_bytes, write_page_block, pair_byte, fill_slot, init_mem_slot_pair, check_bytes,
  check_ldst_all_sizes_pair_store,
}

fill_slot_before :
    (bytes : List ℕ) (lsb msb n byte left i : ℕ)
    → i < byte
    → get_or (fill_slot bytes lsb msb n byte left) i 0 ≡ get_or bytes i 0
unfolding fill_slot
fill_slot_before bytes lsb msb n byte zero i h = refl
fill_slot_before bytes lsb msb n byte (suc left) i h =
    fill_slot_before (set bytes byte (pair_byte lsb msb n byte)) lsb msb n (byte + 1) left i
      (omega arith)
    ∙ get_or-set_ne bytes byte i (pair_byte lsb msb n byte) 0 (omega arith)

fill_slot_lem :
    (bytes : List ℕ) (lsb msb n byte left i : ℕ)
    → byte + left ≤ length bytes
    → byte ≤ i
    → i < byte + left
    → get_or (fill_slot bytes lsb msb n byte left) i 0 ≡ pair_byte lsb msb n i
unfolding fill_slot
fill_slot_lem bytes lsb msb n byte zero i fits l u = absurd (omega arith)
fill_slot_lem bytes lsb msb n byte (suc left) i fits l u =
    let v = pair_byte lsb msb n byte in
    elim (ℕ_discrete byte i) [
      | yes e ↦
          fill_slot_before (set bytes byte v) lsb msb n (byte + 1) left i (omega (arith, e))
          ∙ ap (λ (k : ℕ). get_or (set bytes byte v) k 0) (sym e)
          ∙ get_or-set_self bytes byte v 0 (omega arith)
          ∙ ap (pair_byte lsb msb n) e
      | no ne ↦
          fill_slot_lem (set bytes byte v) lsb msb n (byte + 1) left i
            (omega (arith, length-set bytes byte v)) (omega (arith, ne)) (omega arith)
    ]

write_bytes_before :
    (page bytes : List ℕ) (offst byte left j : ℕ)
    → j < offst + byte
    → get_or (write_bytes page bytes offst byte left) j 0 ≡ get_or page j 0
unfolding write_bytes
write_bytes_before page bytes offst byte zero j h = refl
write_bytes_before page bytes offst byte (suc left) j h =
    write_bytes_before (set page (offst + byte) (get_or bytes byte 0)) bytes offst (byte + 1) left j
      (omega arith)
    ∙ get_or-set_ne page (offst + byte) j (get_or bytes byte 0) 0 (omega arith)

write_bytes_lem :
    (page bytes : List ℕ) (offst byte left i : ℕ)
    → offst + byte + left ≤ length page
    → byte ≤ i
    → i < byte + left
    → get_or (write_bytes page bytes offst byte left) (offst + i) 0 ≡ get_or bytes i 0
unfolding write_bytes
write_bytes_lem page bytes offst byte zero i fits l u = absurd (omega arith)
write_bytes_lem page bytes offst byte (suc left) i fits l u =
    let v = get_or bytes byte 0 in
    elim (ℕ_discrete byte i) [
      | yes e ↦
          write_bytes_before (set page (offst + byte) v) bytes offst (byte + 1) left (offst + i)
            (omega (arith, e))
          ∙ ap (λ (k : ℕ). get_or (set page (offst + byte) v) (offst + k) 0) (sym e)
          ∙ get_or-set_self page (offst + byte) v 0 (omega arith)
          ∙ ap (λ (k : ℕ). get_or bytes k 0) e
      | no ne ↦
          write_bytes_lem (set page (offst + byte) v) bytes offst (byte + 1) left i
            (omega (arith, length-set page (offst + byte) v)) (omega (arith, ne)) (omega arith)
    ]

-- From `byte` on, the page has the bytes of the pair.
abbrev Stored : List ℕ → (offst n exp1 exp2 byte left : ℕ) → Type 0
Stored page offst n exp1 exp2 byte left =
    (i : ℕ) → byte ≤ i → i < byte + left → get_or page (offst + i) 0 ≡ pair_byte exp1 exp2 n i

check_bytes-Stored :
    {W : Type 0} (page : List ℕ) (offst n exp1 exp2 byte left : ℕ) (w : W)
    → Stored page offst n exp1 exp2 byte left
    → check_bytes page offst n exp1 exp2 byte left w ≡ some (ok tt, w)
unfolding check_bytes
check_bytes-Stored page offst n exp1 exp2 byte zero w h = refl
check_bytes-Stored page offst n exp1 exp2 byte (suc left) w h =
    rw
      (
        (==_iff (get_or page (offst + byte) 0) (pair_byte exp1 exp2 n byte)).1
            (h byte (omega arith) (omega arith)),
        ◌>>=◌,
        ◌>>◌,
      )
      (check_bytes-Stored page offst n exp1 exp2 (byte + 1) left w
        (λ i l u. h i (omega arith) (omega arith)))

Stored-check_bytes :
    {W : Type 0} (page : List ℕ) (offst n exp1 exp2 byte left : ℕ) (w : W)
    → check_bytes page offst n exp1 exp2 byte left w ≡ some (ok tt, w)
    → Stored page offst n exp1 exp2 byte left
unfolding check_bytes
Stored-check_bytes page offst n exp1 exp2 byte zero w h i l u = absurd (omega arith)
Stored-check_bytes page offst n exp1 exp2 byte (suc left) w h i l u =
    let (here, rest) =
      require_then (get_or page (offst + byte) 0 == pair_byte exp1 exp2 n byte)
        (check_bytes page offst n exp1 exp2 (byte + 1) left) w h in
    elim (ℕ_discrete byte i) [
      | yes e ↦
          ap (λ (k : ℕ). get_or page (offst + k) 0) (sym e)
          ∙ (==_iff (get_or page (offst + byte) 0) (pair_byte exp1 exp2 n byte)).0 here
          ∙ ap (pair_byte exp1 exp2 n) e
      | no ne ↦
          Stored-check_bytes page offst n exp1 exp2 (byte + 1) left w rest i (omega (arith, ne))
            (omega arith)
    ]

-- When a pair of words of `n` bytes is laid out in a buffer of at least `n` bytes and written to an
-- address whose page has room for it, the check of that store against an expected pair passes, and
-- touches nothing, exactly when the two pairs agree in all `n` bytes.
pub check_pair_store-write_page_block :
    {W : Type 0} (page bytes : List ℕ) (addr n lsb msb exp1 exp2 : ℕ) (w : W)
    → n ≤ length bytes
    → page_offset addr + n ≤ length page
    → (check_ldst_all_sizes_pair_store
          (write_page_block page (init_mem_slot_pair bytes lsb msb n) addr n)
          addr
          n
          exp1
          exp2
          w
        ≡ some (ok tt, w))
      ↔ ((i : ℕ) → i < n → pair_byte lsb msb n i ≡ pair_byte exp1 exp2 n i)
check_pair_store-write_page_block page bytes addr n lsb msb exp1 exp2 w room fits =
    let at = page_offset addr in
    let slot = init_mem_slot_pair bytes lsb msb n in
    let there : (i : ℕ)
        → i < n
        → get_or (write_page_block page slot addr n) (at + i) 0 ≡ pair_byte lsb msb n i =
      λ i h.
        write_bytes_lem page slot at 0 n i (omega arith) (omega arith) (omega arith)
        ∙ fill_slot_lem bytes lsb msb n 0 n i (omega arith) (omega arith) (omega arith) in
    (
      λ e i h.
          sym (there i h)
          ∙ Stored-check_bytes (write_page_block page slot addr n) at n exp1 exp2 0 n w e i
              (omega arith) (omega arith),
      λ same.
          check_bytes-Stored (write_page_block page slot addr n) at n exp1 exp2 0 n w
            (λ i l u. there i (omega arith) ∙ same i (omega arith)),
    )
