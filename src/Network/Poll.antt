-- ===== src/Network/Poll.antt =====
-- `ne_receive_packets` and `network_poll` of src/drivers/network.c: the card's ring of pages.
use Prim.Native.Nat.{bit_and}
use heat_os.Prelude.{
  ℕ, zero, suc, ◌+◌, ◌-◌, ◌*◌, ◌%◌, Bool, true, false, Option, none, some, List, ◌++◌, ltb, leb,
  ◌==◌, ◌&&◌, ◌||◌, if◌then◌else◌,
}
use heat_os.Network.{Net, Card}
use heat_os.Network.Ne2000.{Device, ne_read, ne_write, ne_dma_read, ne_curr_page}
use heat_os.Prelude.{◌>>=◌, byte}
use heat_os.Network.Receive.{handle_ethernet_frame}

-- The page after `page` in the card's ring of pages.
unfoldable pub page_after : ℕ → ℕ
page_after page = let next = (page + 1) % 256 in if leb 128 next then 70 else next

-- `next_page` of `ne_receive_packets`, from the packet's header.
unfoldable pub checked_next : ℕ → ℕ → ℕ → ℕ
checked_next page curr next =
    let next' = if ltb next 70 || leb 128 next then curr else next in
    if next' == page then page_after page else next'

-- `new_bnry` of `ne_receive_packets`.
unfoldable pub boundary : ℕ → ℕ
boundary next = let b = (next + 255) % 256 in if ltb b 70 then 127 else b

-- The frame of `count - 4` bytes whose header is at the start of `page`, in two transfers where it goes past the end of the ring.
unfoldable pub read_frame : Device → ℕ → ℕ → Card → List ℕ × Card
read_frame dev page frame_len c =
    let start = page * 256 + 4 in
    let whole = ne_dma_read dev start frame_len c in
    let first = ne_dma_read dev start (32768 - start) c in
    let second = ne_dma_read dev 17920 (frame_len - (32768 - start)) first.2 in
    if leb (start + frame_len) 32768 then (whole.1, whole.2) else (first.1 ++ second.1, second.2)

-- One packet of `ne_receive_packets`, behind its header `hdr`.
unfoldable pub take_packet : Device → ℕ → ℕ → ℕ → Net → Option Net
take_packet dev page status count n =
    let frame_len = if ltb 1600 (count - 4) then 1600 else count - 4 in
    let r = read_frame dev page frame_len n.card in
    if (status % 2 == 1) && leb 4 count
    then handle_ethernet_frame dev r.0 frame_len (record n { card = r.1 })
    else some n

-- The rest of a round of the loop, behind the header of four bytes; whether the loop goes on.
unfoldable pub after_header : Device → ℕ → ℕ → List ℕ → Net → Option (Bool × Net)
after_header dev page curr hdr n = do
  status ← byte hdr 0
  next ← byte hdr 1
  low ← byte hdr 2
  high ← byte hdr 3
  n' ← take_packet dev page status (low + high * 256) n
  some (true, record n' { card = ne_write 3 (boundary (checked_next page curr next)) n'.card })

-- One round of the loop of `ne_receive_packets`; `false` is its `break`.
unfoldable pub receive_round : Device → Net → Option (Bool × Net)
receive_round dev n =
    let curr = ne_curr_page dev n.card in
    let bnry = ne_read dev 3 curr.1 in
    let page = page_after bnry.0 in
    let hdr = ne_dma_read dev (page * 256) 4 bnry.1 in
    if page == curr.0
    then some (false, record n { card = bnry.1 })
    else if hdr.0
    then after_header dev page curr.0 hdr.1 (record n { card = hdr.2 })
    else some (false, record n { card = hdr.2 })

-- `ne_receive_packets` for at most `rounds` rounds; `none` is a read outside a frame, or a card that still has
-- packets then.
unfoldable pub ne_receive_packets : Device → ℕ → Net → Option Net
ne_receive_packets dev zero n = none
ne_receive_packets dev (suc rounds) n =
    receive_round dev n >>= λ r. if r.0 then ne_receive_packets dev rounds r.1 else some r.1

-- What `network_poll` does about an overflow of the ring.
unfoldable pub on_overflow : ℕ → Card → Card
on_overflow isr c =
    if bit_and isr 16 == 0 then c else ne_write 0 34 (ne_write 3 70 (ne_write 0 33 c))

unfoldable pub network_poll : Device → ℕ → Net → Option Net
network_poll dev rounds n =
    let isr = ne_read dev 7 n.card in
    if n.card.ready
    then (ne_receive_packets dev rounds (record n { card = on_overflow isr.0 isr.1 }) >>= λ n'.
        some (record n' { card = ne_write 7 255 n'.card }))
    else some n
