-- ===== src/Usb/Endpoint.antt =====
-- Endpoints of USB device mode (soc/nxp/usb/endpoint.go): queue heads, transfer descriptors and the
-- control registers. A transfer descriptor stands at an address of its own, the allocator's; what the
-- controller does to it is its token, which checkDTD gets as an argument.
pub mod Transfer
use tamago.Prelude.{
  ℕ, zero, suc, ◌+◌, ◌*◌, ◌-◌, ◌/◌, ◌%◌, ◌^◌, Bool, true, false, not, ◌&&◌, Option, none, some,
  List, [], ◌∷◌, ◌++◌, bit_and, ◌==◌, ltb, leb, if◌then◌else◌, length, replicate, ◌>>=◌, ◌>>◌,
  guard, map,
}
use tamago.Prelude.Endian.{le_bytes}
use tamago.Reg.{Registers, write}
use tamago.Reg
use tamago.Bits.Word.{set_bit, clear, set_n}

abbrev pub direction_out : ℕ
direction_out = 0

abbrev pub direction_in : ℕ
direction_in = 1

abbrev pub dtd_pages : ℕ
dtd_pages = 5

abbrev pub dtd_page_size : ℕ
dtd_page_size = 4096

-- The part that the controller reads, and the buffer and the size that the driver keeps.
pub record Dtd : Type 0 where
  pub next : ℕ
  pub token : ℕ
  pub buffer : List ℕ
  pub buf : ℕ
  pub size : ℕ

-- `for n := range DTD_PAGES`
unfoldable pub dtd_buffer : ℕ → ℕ → ℕ → List ℕ
dtd_buffer zero n addr = []
dtd_buffer (suc k) n addr = (addr + dtd_page_size * n) % 2 ^ 32 ∷ dtd_buffer k (n + 1) addr

-- buildDTD, up to the allocation.
unfoldable pub build_dtd : ℕ → ℕ → Dtd
unfolding dtd_buffer
build_dtd addr size =
    let token = set_bit 32 0 15 in
    let token' = set_bit 32 (set_n 32 token 10 0b11 0) 7 in
    record {
      next = 1;
      token = set_n 32 token' 16 0xffff (size % 2 ^ 32);
      buffer = dtd_buffer dtd_pages 0 addr;
      buf = addr;
      size = size % 2 ^ 32;
    }

-- The 28 bytes that the controller reads.
unfoldable pub word_bytes : List ℕ → List ℕ
word_bytes [] = []
word_bytes (w ∷ ws) = le_bytes 4 w ++ word_bytes ws

unfoldable pub dtd_bytes : Dtd → List ℕ
unfolding word_bytes
dtd_bytes d = le_bytes 4 d.next ++ (le_bytes 4 d.token ++ word_bytes d.buffer)

-- A descriptor of a transfer as its loop leaves it, and whether the endpoint has been primed with it: its
-- status cleared, its queue head pointed to the descriptor, and its prime bit set.
pub record Queued : Type 0 where
  pub dtd : Dtd
  pub primed : Bool

-- `pos`, and the test that neither the prime bit nor the status bit is set.
abbrev pub is_idle : Registers → ℕ → ℕ → ℕ → ℕ → Bool
is_idle g prime stat n dir =
    Reg.get_n 32 g prime (dir * 16 + n) 1 == 0 && Reg.get_n 32 g stat (dir * 16 + n) 1 == 0

-- The loop of transfer for `total` bytes at `pages`, from round `r` and byte `i` on. The first argument bounds
-- the rounds. `address r` is the address that the descriptor of round `r` is allocated at; `idle r` is
-- the test `is_idle` in that round. The next round writes its descriptor's address in the next pointer.
unfoldable pub transfer_loop : (ℕ → ℕ) → (ℕ → Bool) → ℕ → ℕ → ℕ → ℕ → ℕ → List Queued
unfolding build_dtd
transfer_loop address idle zero r pages i total = []
transfer_loop address idle (suc k) r pages i total =
    let size =
      if ltb total (i + dtd_pages * dtd_page_size) then total - i else dtd_pages * dtd_page_size in
    let dtd = build_dtd ((pages + i) % 2 ^ 32) size in
    let rest = transfer_loop address idle k (r + 1) pages (i + dtd_pages * dtd_page_size) total in
    record {
      dtd = record dtd {
        next = if ltb (i + dtd_pages * dtd_page_size) total then address (r + 1) else dtd.next;
      };
      primed = if i == 0 then true else idle r;
    }
    ∷ (if ltb (i + dtd_pages * dtd_page_size) total then rest else [])

-- `polled r` are the registers at the test of round `r`.
unfoldable pub transfer_dtds : (ℕ → ℕ) → (ℕ → Registers) → ℕ → ℕ → ℕ → ℕ → ℕ → ℕ → List Queued
unfolding transfer_loop
transfer_dtds address polled prime stat n dir pages total =
    transfer_loop address (λ r. is_idle (polled r) prime stat n dir) (total + 1) 0 pages 0 total

-- checkDTD: the descriptors with the tokens that the controller leaves; `none` is an error.
unfoldable pub check_loop : ℕ → List (Dtd × ℕ) → ℕ → Option ℕ
check_loop dir [] size = some size
check_loop dir ((d, token) ∷ ds) size = do
  guard (bit_and token 0xff == 0)
  let rest = token / 2 ^ 16
  let n = (d.size + 2 ^ 32 - rest) % 2 ^ 32
  guard (not (dir == direction_in && ltb 0 rest))
  check_loop dir ds (size + n)

unfoldable pub check_dtd : ℕ → List (Dtd × ℕ) → Option ℕ
check_dtd dir ds = check_loop dir ds 0

-- The queue head that `set` writes: its bytes.
unfoldable pub queue_head : ℕ → ℕ → Bool → ℕ → List ℕ
unfolding word_bytes
queue_head n max zlt mult =
    let info = set_n 32 (set_n 32 0 30 0b11 (mult % 2 ^ 32)) 16 0x7ff (max % 2 ^ 32) in
    let info' = if not zlt then set_n 32 info 29 1 1 else info in
    let info'' = if n == 0 then set_bit 32 info' 15 else info' in
    let token = set_n 32 (set_bit 32 (set_n 32 0 16 0xffff 0) 15) 10 0b11 0 in
    word_bytes (info'' ∷ 0 ∷ 0 ∷ token ∷ replicate 12 0)

-- `hw.epctrl + uint32(4*n)`
abbrev pub control : ℕ → ℕ → ℕ
control epctrl n = (epctrl + 4 * n) % 2 ^ 32

unfoldable pub enable : ℕ → Registers → ℕ → ℕ → ℕ → Registers
enable epctrl g n dir transfer_type =
    let ctrl = control epctrl n in
    let c = g ctrl in
    if n == 0
    then g
    else if dir == direction_in
    then (let c' =
          clear 32 (set_n 32 (set_bit 32 (set_bit 32 c 23) 22) 18 0b11 (transfer_type % 2 ^ 32))
            16 in
        write g ctrl (if Reg.get_n 32 g ctrl 7 1 == 0 then set_n 32 c' 2 0b11 2 else c'))
    else (let c' =
          clear 32 (set_n 32 (set_bit 32 (set_bit 32 c 7) 6) 2 0b11 (transfer_type % 2 ^ 32)) 0 in
        write g ctrl (if Reg.get_n 32 g ctrl 23 1 == 0 then set_n 32 c' 18 0b11 2 else c'))

unfoldable pub stall : ℕ → Registers → ℕ → ℕ → Registers
stall epctrl g n dir =
    let ctrl = control epctrl n in
    if dir == direction_in then Reg.set 32 g ctrl 16 else Reg.set 32 g ctrl 0

unfoldable pub reset : ℕ → Registers → ℕ → ℕ → Registers
reset epctrl g n dir =
    let ctrl = control epctrl n in
    if n == 0 then g else if dir == direction_in then Reg.set 32 g ctrl 22 else Reg.set 32 g ctrl 6
