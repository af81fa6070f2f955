-- ===== src/Client/Interface/Pages.antt =====
-- Pages over a device whose DRAM window is memory.
use knockout_kraken.Base.{
  ℕ, ◌+◌, ◌*◌, ◌/◌, ◌^◌, ◌≤◌, ◌<◌, ◌≡◌, ◌≢◌, sym, ap, ap₂, ◌∙◌, arith, List, some, length, take_all,
  ◌⊎◌, inl, inr, bit_and_mask, bit_xor_clear, dec_lt, segment, segment_local,
}
use native.Mathlib.Nat.{le_of_eq}
use knockout_kraken.Base.Monad.{ok}
use knockout_kraken.Base.Word.{u64}
use knockout_kraken.Client.Fpga.{Fpga}
use knockout_kraken.Client.Interface.{page_aligned, push_page_to_fpga, fetch_page_from_fpga}

-- What is asked of the device: the AXI addresses below `size` are plain memory.
pub record AxiMemory {W : Type 0} (fpga : Fpga W) (size : ℕ) : Type 0 where
  pub byte : W → ℕ → ℕ
  pub reads :
      (a n : ℕ) (w : W) → a + n ≤ size → fpga.read_axi a n w ≡ some (ok (segment (byte w) a n), w)
  pub writes :
      (a : ℕ) (bs : List ℕ) (w : W)
      → a + length bs ≤ size
      → (w' : W) × (fpga.write_axi a bs w ≡ some (ok tt, w'))
        × (segment (byte w') a (length bs) ≡ bs)
        × ((b : ℕ) → (b < a) ⊎ (a + length bs ≤ b) → byte w' b ≡ byte w b)

-- The mask and the exclusive or drop the offset in the page.
pub page_aligned_lem : (paddr : ℕ) → page_aligned paddr ≡ paddr / 4096 * 4096
unfolding page_aligned
page_aligned_lem paddr = ground (arith, bit_and_mask 12 paddr, bit_xor_clear 12 paddr)

module _ {W : Type 0} (fpga : Fpga W) {size : ℕ} (mem : AxiMemory fpga size) where
  open mem use {byte, reads, writes}

  abbrev frame_of : ℕ → ℕ
  frame_of paddr = fpga.base_address.dram_base + paddr / 4096 * 4096

  -- The page's frame lies in the memory.
  abbrev InDram : ℕ → Type 0
  InDram paddr = (frame_of paddr + 4096 ≤ size) × (size ≤ 2 ^ 64)

  frame_address :
      (paddr : ℕ)
      → InDram paddr
      → u64 (fpga.base_address.dram_base + page_aligned paddr) ≡ frame_of paddr
  frame_address paddr h = omega (arith, page_aligned_lem paddr)

  fetch_lem :
      (paddr : ℕ) (w : W)
      → InDram paddr
      → fetch_page_from_fpga fpga paddr w ≡ some (ok (segment (byte w) (frame_of paddr) 4096), w)
  unfolding fetch_page_from_fpga
  fetch_lem paddr w h =
      ap (λ (a : ℕ). fpga.read_axi a 4096 w) (frame_address paddr h)
      ∙ reads (frame_of paddr) 4096 w h.0

  outside :
      (paddr other b n : ℕ)
      → n ≡ 4096
      → other / 4096 ≢ paddr / 4096
      → frame_of other ≤ b
      → b < frame_of other + 4096
      → (b < frame_of paddr) ⊎ (frame_of paddr + n ≤ b)
  outside paddr other b n e differ p q = elim (dec_lt (other / 4096) (paddr / 4096)) [
    | yes h ↦ inl (omega arith)
    | no h ↦ inr (omega arith)
  ]

  push_page_lem :
      (paddr : ℕ) (page : List ℕ) (w : W)
      → length page ≡ 4096
      → InDram paddr
      → (w' : W) × (push_page_to_fpga fpga paddr page w ≡ some (ok tt, w'))
        × (segment (byte w') (frame_of paddr) (length page) ≡ page)
        × ((b : ℕ)
            → (b < frame_of paddr) ⊎ (frame_of paddr + length page ≤ b)
            → byte w' b ≡ byte w b)
  unfolding push_page_to_fpga
  push_page_lem paddr page w len h =
      let (w', e, stored, frame) = writes (frame_of paddr) page w (omega arith) in
      (
        w',
        ap₂ (λ (a : ℕ) (bs : List ℕ). fpga.write_axi a bs w) (frame_address paddr h)
              (take_all 4096 page (le_of_eq len))
            ∙ e,
        stored,
        frame,
      )

  -- Over a device whose AXI addresses are memory up to a size: a page of 4096 bytes pushed to an
  -- address whose frame lies in the memory is fetched back whole by any address of the same frame,
  -- and both calls return 0.
  pub fetch_page-push_page :
      (paddr other : ℕ) (page : List ℕ) (w : W)
      → length page ≡ 4096
      → InDram paddr
      → other / 4096 ≡ paddr / 4096
      → (w' : W) × (push_page_to_fpga fpga paddr page w ≡ some (ok tt, w'))
        × (fetch_page_from_fpga fpga other w' ≡ some (ok page, w'))
  fetch_page-push_page paddr other page w len h same =
      let (w', e, stored, frame) = push_page_lem paddr page w len h in
      (
        w',
        e,
        fetch_lem other w' (omega arith)
            ∙ ap (λ (xs : List ℕ). some (ok xs, w'))
                (ap₂ (λ (q n : ℕ). segment (byte w') (fpga.base_address.dram_base + q * 4096) n)
                    same (sym len)
                  ∙ stored),
      )

  -- Over a device whose AXI addresses are memory up to a size: a page of 4096 bytes pushed to a
  -- frame in the memory leaves any other frame of it as it was, so that fetching that one gives
  -- after the push what it gave before.
  fetch_page-push_page_other :
      (paddr other : ℕ) (page : List ℕ) (w : W)
      → length page ≡ 4096
      → InDram paddr
      → InDram other
      → other / 4096 ≢ paddr / 4096
      → (old : List ℕ) × (w' : W) × (fetch_page_from_fpga fpga other w ≡ some (ok old, w))
        × (push_page_to_fpga fpga paddr page w ≡ some (ok tt, w'))
        × (fetch_page_from_fpga fpga other w' ≡ some (ok old, w'))
  fetch_page-push_page_other paddr other page w len h h' differ =
      let (w', e, stored, frame) = push_page_lem paddr page w len h in
      (
        segment (byte w) (frame_of other) 4096,
        w',
        fetch_lem other w h',
        e,
        fetch_lem other w' h'
            ∙ ap (λ (xs : List ℕ). some (ok xs, w'))
                (segment_local (byte w') (byte w) (frame_of other) 4096
                  λ b p q. frame b (outside paddr other b (length page) len differ p q)),
      )
