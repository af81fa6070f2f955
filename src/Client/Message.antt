-- ===== src/Client/Message.antt =====
-- regression/src/client/fpga_interface.h: the 64-byte messages between the host and the MMU, and
-- the page-number macros. A message is the `words` view of its union; an `int` argument is its
-- 32-bit pattern.
pub mod Pages
use knockout_kraken.Base.{
  ℕ, zero, suc, ◌+◌, ◌*◌, ◌^◌, ◌-◌, bit_and, bit_or, List, [], ◌∷◌, ◌++◌, ◌==◌, if◌then◌else◌,
  le_bytes, of_le, take, drop,
}
use knockout_kraken.Base.Word.{u32, ◌>>>◌, ◌<<<◌}

pub data MessageType : Type 0 where
  page_fault_notify evict_notify evict_done page_evict miss_reply evict_reply : MessageType

abbrev pub code_of : MessageType → ℕ
code_of MessageType.page_fault_notify = 4
code_of MessageType.evict_notify = 5
code_of MessageType.evict_done = 6
code_of MessageType.page_evict = 7
code_of MessageType.miss_reply = 2
code_of MessageType.evict_reply = 3

pub data MemoryAccessType : Type 0 where
  data_load data_store inst_fetch : MemoryAccessType

abbrev pub access_code : MemoryAccessType → ℕ
access_code MemoryAccessType.data_load = 0
access_code MemoryAccessType.data_store = 1
access_code MemoryAccessType.inst_fetch = 2

-- `words[i]` of the union.
abbrev pub MessageFpga : Type 0
MessageFpga = ℕ → ℕ

abbrev pub write_word : MessageFpga → ℕ → ℕ → MessageFpga
write_word m i v j = if i == j then v else m j

-- The fields by their places in `words`. Those of the first line are common to all messages; the
-- others belong to one member of the union.
abbrev pub type_at : ℕ
type_at = 0

abbrev pub asid_at : ℕ
asid_at = 1

abbrev pub vpn_lo_at : ℕ
vpn_lo_at = 2

abbrev pub vpn_hi_at : ℕ
vpn_hi_at = 3

-- `MissReply` (`thid` is -1 for no wake-up).
abbrev pub miss_permission_at : ℕ
miss_permission_at = 4

abbrev pub miss_thid_at : ℕ
miss_thid_at = 5

abbrev pub miss_ppn_at : ℕ
miss_ppn_at = 6

-- `PageFaultNotif`.
abbrev pub fault_permission_at : ℕ
fault_permission_at = 4

abbrev pub fault_thid_at : ℕ
fault_thid_at = 5

-- `EvictReply`, and `EvictNotif` with `EvictDone`.
abbrev pub old_ppn_at : ℕ
old_ppn_at = 4

abbrev pub evict_ppn_at : ℕ
evict_ppn_at = 4

abbrev pub evict_permission_at : ℕ
evict_permission_at = 5

abbrev pub evict_modified_at : ℕ
evict_modified_at = 6

-- The union's `uint64_t vpn`, over `vpn_lo` and `vpn_hi`.
abbrev pub vpn : MessageFpga → ℕ
vpn m = m vpn_lo_at + m vpn_hi_at * 2 ^ 32

-- `VPN_ALIGN`, `VPN_GET_HI`, `VPN_GET_LO`, `GET_PPN_FROM_PADDR`, `GET_NZCV`.
abbrev pub vpn_align : ℕ → ℕ
vpn_align va = va >>> 12

unfoldable pub vpn_get_hi : ℕ → ℕ
vpn_get_hi va = bit_and (vpn_align va >>> 32) 0xFFFF_FFFF

unfoldable pub vpn_get_lo : ℕ → ℕ
vpn_get_lo va = bit_and (vpn_align va) 0xFFFF_FFFF

abbrev pub get_ppn_from_paddr : ℕ → ℕ
get_ppn_from_paddr addr = addr >>> 12

abbrev pub get_nzcv : ℕ → ℕ
get_nzcv nzcv = bit_and nzcv 0xF

-- `makeEvictRequest`. The words that are not assigned keep what the buffer held.
unfoldable pub make_evict_request : ℕ → ℕ → MessageFpga → MessageFpga
unfolding vpn_get_hi vpn_get_lo
make_evict_request asid va m0 =
    let m1 = write_word m0 type_at (code_of MessageType.page_evict) in
    let m2 = write_word m1 asid_at (u32 asid) in
    let m3 = write_word m2 vpn_hi_at (u32 (vpn_get_hi va)) in
    write_word m3 vpn_lo_at (u32 (vpn_get_lo va))

-- `makeEvictReply`.
unfoldable pub make_evict_reply : MessageFpga → MessageFpga → MessageFpga
make_evict_reply notif m0 =
    let m1 = write_word m0 type_at (code_of MessageType.evict_reply) in
    let m2 = write_word m1 asid_at (notif asid_at) in
    let m3 = write_word m2 vpn_hi_at (notif vpn_hi_at) in
    let m4 = write_word m3 vpn_lo_at (notif vpn_lo_at) in
    write_word m4 old_ppn_at (notif evict_ppn_at)

-- `makeMissReply`; the parameter `type` is the access type, and becomes the permission.
unfoldable pub make_miss_reply : ℕ → ℕ → ℕ → ℕ → ℕ → MessageFpga → MessageFpga
unfolding vpn_get_hi vpn_get_lo
make_miss_reply access thid asid va paddr m0 =
    let m1 = write_word m0 type_at (code_of MessageType.miss_reply) in
    let m2 = write_word m1 asid_at (u32 asid) in
    let m3 = write_word m2 vpn_hi_at (u32 (vpn_get_hi va)) in
    let m4 = write_word m3 vpn_lo_at (u32 (vpn_get_lo va)) in
    let m5 = write_word m4 miss_thid_at (u32 thid) in
    let m6 = write_word m5 miss_permission_at (u32 access) in
    write_word m6 miss_ppn_at (u32 (get_ppn_from_paddr paddr))

-- `bytes` of the union: sixteen little-endian words.
abbrev pub words_bytes : ℕ → MessageFpga → List ℕ
words_bytes zero m = []
words_bytes (suc n) m = le_bytes 4 (m 0) ++ words_bytes n (λ i. m (suc i))

unfoldable pub message_bytes : MessageFpga → List ℕ
message_bytes m = words_bytes 16 m

-- The word that begins at byte `4 * i`.
abbrev pub word_at : List ℕ → ℕ → ℕ
word_at bs zero = of_le (take 4 bs)
word_at bs (suc i) = word_at (drop 4 bs) i

-- The words of a message that has been read as bytes.
abbrev pub message_of_bytes : List ℕ → MessageFpga
message_of_bytes bs i = word_at bs i
