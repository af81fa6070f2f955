-- ===== src/Client/Message/Pages.antt =====
-- The page that a message names, and the words of a message in its bytes.
use knockout_kraken.Base.{
  ℕ, zero, suc, ◌+◌, ◌-◌, ◌*◌, ◌/◌, ◌%◌, ◌^◌, ◌<◌, ◌≡◌, ◌↔◌, refl, arith, bit_and_mask, length,
  length-append, le_bytes, of_le-le_bytes,
}
use knockout_kraken.Base.Word.{u32}
use knockout_kraken.Client.Message.{
  MessageFpga, type_at, asid_at, vpn, miss_ppn_at, miss_thid_at, miss_permission_at, vpn_get_hi,
  vpn_get_lo, make_evict_request, make_miss_reply, words_bytes, message_bytes, word_at,
}

vpn_get_hi_lem : (va : ℕ) → vpn_get_hi va ≡ va / 2 ^ 44 % 2 ^ 32
unfolding vpn_get_hi
vpn_get_hi_lem va = omega (arith, bit_and_mask 32 (va / 4096 / 2 ^ 32))

vpn_get_lo_lem : (va : ℕ) → vpn_get_lo va ≡ va / 4096 % 2 ^ 32
unfolding vpn_get_lo
vpn_get_lo_lem va = bit_and_mask 32 (va / 4096)

-- For a 64-bit address the two halves are its page number.
pub vpn_halves : (va : ℕ) → va < 2 ^ 64 → vpn_get_lo va + vpn_get_hi va * 2 ^ 32 ≡ va / 4096
vpn_halves va h = omega (arith, vpn_get_hi_lem va, vpn_get_lo_lem va)

abbrev Aligned : ℕ → ℕ → Type 0
Aligned ppn paddr = ppn * 4096 ≡ paddr - paddr % 4096

-- For a 64-bit virtual and a 44-bit physical address, a miss reply names the virtual page and the
-- physical page of the two addresses, and carries the thread, the address space and the access.
make_miss_reply_page :
    (access thid asid va paddr : ℕ) (m0 : MessageFpga)
    → va < 2 ^ 64
    → paddr < 2 ^ 44
    → let m = make_miss_reply access thid asid va paddr m0 in
      (vpn m ≡ va / 4096)
      × Aligned (m miss_ppn_at) paddr
      × (m miss_thid_at ≡ u32 thid)
      × (m asid_at ≡ u32 asid)
      × (m miss_permission_at ≡ u32 access)
      × (m type_at ≡ 2)
unfolding make_miss_reply
make_miss_reply_page access thid asid va paddr m0 hv hp = (
  omega (arith, vpn_halves va hv, vpn_get_hi_lem va, vpn_get_lo_lem va),
  omega arith,
  refl,
  refl,
  refl,
  refl,
)

-- Two eviction requests of 64-bit addresses name the same page exactly when the addresses lie in
-- the same page.
make_evict_request_page_iff :
    (asid asid' va va' : ℕ) (m m' : MessageFpga)
    → va < 2 ^ 64
    → va' < 2 ^ 64
    → (vpn (make_evict_request asid va m) ≡ vpn (make_evict_request asid' va' m'))
      ↔ (va / 4096 ≡ va' / 4096)
unfolding make_evict_request
make_evict_request_page_iff asid asid' va va' m m' h h' = (
  λ e. omega (
    arith,
    e,
    vpn_halves va h,
    vpn_halves va' h',
    vpn_get_hi_lem va,
    vpn_get_lo_lem va,
    vpn_get_hi_lem va',
    vpn_get_lo_lem va',
  ),
  λ e. omega (
    arith,
    e,
    vpn_halves va h,
    vpn_halves va' h',
    vpn_get_hi_lem va,
    vpn_get_lo_lem va,
    vpn_get_hi_lem va',
    vpn_get_lo_lem va',
  ),
)

length-words_bytes : (n : ℕ) (m : MessageFpga) → length (words_bytes n m) ≡ 4 * n
length-words_bytes zero m = refl
length-words_bytes (suc n) m = omega (
  arith,
  length-append (le_bytes 4 (m 0)) (words_bytes n (λ i. m (suc i))),
  length-words_bytes n (λ i. m (suc i)),
)

pub length-message_bytes : (m : MessageFpga) → length (message_bytes m) ≡ 64
unfolding message_bytes
length-message_bytes m = length-words_bytes 16 m

word_at-words_bytes :
    (n i : ℕ) (m : MessageFpga) → i < n → m i < 2 ^ 32 → word_at (words_bytes n m) i ≡ m i
word_at-words_bytes zero i m h b = absurd (omega arith)
word_at-words_bytes (suc n) zero m h b = of_le-le_bytes 4 (m 0) b
word_at-words_bytes (suc n) (suc i) m h b = word_at-words_bytes n i (λ j. m (suc j)) (omega arith) b

-- Each of the sixteen words is read back from the bytes of a message.
word_at-message_bytes :
    (m : MessageFpga) (i : ℕ) → i < 16 → m i < 2 ^ 32 → word_at (message_bytes m) i ≡ m i
unfolding message_bytes
word_at-message_bytes m i h b = word_at-words_bytes 16 i m h b
