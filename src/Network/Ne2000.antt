-- ===== src/Network/Ne2000.antt =====
-- The NE2000 of src/drivers/network.c: its registers, its DMA, and the sending of a frame.
use Prim.Native.Nat.{bit_and}
use heat_os.Prelude.{
  ℕ, zero, suc, ◌+◌, ◌-◌, ◌*◌, ◌/◌, ◌%◌, ◌^◌, Bool, true, false, List, [], ◌∷◌, ◌++◌, ltb, ◌==◌,
  ◌||◌, not, if◌then◌else◌, length, take,
}
use heat_os.Network.{Access, port_in, port_out, Card}

-- What a port shows after a history of accesses.
abbrev pub Device : Type 0
Device = List Access → ℕ → ℕ

-- A read of `n` bytes from a port.
unfoldable pub in_port : Device → ℕ → ℕ → Card → ℕ × Card
in_port dev n port c =
    let v = dev c.trace port % 2 ^ (8 * n) in (v, record c { trace = port_in n port v ∷ c.trace })

unfoldable pub out_port : ℕ → ℕ → ℕ → Card → Card
out_port n port v c = record c { trace = port_out n port v ∷ c.trace }

unfoldable pub ne_port : ℕ → Card → ℕ
ne_port reg c = (c.io_base + reg) % 65536

unfoldable pub ne_write : ℕ → ℕ → Card → Card
ne_write reg v c = out_port 1 (ne_port reg c) v c

unfoldable pub ne_read : Device → ℕ → Card → ℕ × Card
ne_read dev reg c = in_port dev 1 (ne_port reg c) c

unfoldable pub ne_wait_isr : Device → ℕ → ℕ → Card → Bool × Card
ne_wait_isr dev mask zero c = (false, c)
ne_wait_isr dev mask (suc guard) c =
    let r = ne_read dev 7 c in
    let rest = ne_wait_isr dev mask guard r.1 in if bit_and r.0 mask == 0 then rest else (true, r.1)

-- `(uint16_t)((len + 1u) & ~1u)`
unfoldable pub even_len : ℕ → ℕ
even_len len = (len + 1) / 2 * 2 % 65536

-- The registers of a transfer of `len` bytes at `addr`, started by the command `cmd`.
unfoldable pub dma_start : ℕ → ℕ → ℕ → Card → Card
dma_start addr len cmd c = ne_write 0 cmd (
    ne_write 7 64 (
      ne_write 9 (addr / 256 % 256) (
        ne_write 8 (addr % 256)
          (ne_write 11 (even_len len / 256) (ne_write 10 (even_len len % 256) (ne_write 0 34 c))))))

-- The end of a transfer: the card says that it is complete.
unfoldable pub dma_end : Device → Card → Bool × Card
dma_end dev c =
    let w = ne_wait_isr dev 64 200000 c in if w.0 then (true, ne_write 7 64 w.1) else (false, w.1)

unfoldable pub dma_read_words : Device → ℕ → Card → List ℕ × Card
dma_read_words dev zero c = ([], c)
dma_read_words dev (suc n) c =
    let w = in_port dev 2 (ne_port 16 c) c in
    let rest = dma_read_words dev n w.1 in (w.0 % 256 ∷ w.0 / 256 ∷ rest.0, rest.1)

-- `ne_dma_read`: whether the card finished, and the bytes at `dst` after it, either way.
unfoldable pub ne_dma_read : Device → ℕ → ℕ → Card → Bool × List ℕ × Card
ne_dma_read dev addr len c =
    let words = dma_read_words dev (even_len len / 2) (dma_start addr len 10 c) in
    let end = dma_end dev words.1 in
    if len == 0 then (true, [], c) else (end.0, take len words.0, end.1)

unfoldable pub dma_write_words : List ℕ → Card → Card
dma_write_words [] c = c
dma_write_words (a ∷ []) c = out_port 2 (ne_port 16 c) a c
dma_write_words (a ∷ b ∷ src) c = dma_write_words src (out_port 2 (ne_port 16 c) (a + b * 256) c)

-- `ne_dma_write` of all the bytes of `src`.
unfoldable pub ne_dma_write : Device → ℕ → List ℕ → Card → Bool × Card
ne_dma_write dev addr src c =
    let end = dma_end dev (dma_write_words src (dma_start addr (length src) 18 c)) in
    if length src == 0 then (true, c) else end

unfoldable pub wait_sent : Device → ℕ → Card → Bool × Card
wait_sent dev zero c = (false, c)
wait_sent dev (suc guard) c =
    let r = ne_read dev 7 c in
    let rest = wait_sent dev guard r.1 in
    if bit_and r.0 10 == 0 then rest else (not (bit_and r.0 2 == 0), ne_write 7 10 r.1)

unfoldable pub zeros : ℕ → List ℕ
zeros zero = []
zeros (suc n) = 0 ∷ zeros n

-- The frame as it goes to the card, no shorter than 60 bytes.
unfoldable pub padded : List ℕ → List ℕ
padded frame = frame ++ zeros (60 - length frame)

-- The transfer of `ne_send_frame`, after its first checks.
unfoldable pub transmit : Device → List ℕ → Card → Bool × Card
transmit dev frame c =
    let w = ne_dma_write dev 16384 frame c in
    let started = ne_write 0 38 (
      ne_write 7 10 (
        ne_write 6 (length frame / 256 % 256)
          (ne_write 5 (length frame % 256) (ne_write 4 64 w.1)))) in
    if w.0 then wait_sent dev 300000 started else (false, w.1)

unfoldable pub ne_send_frame : Device → List ℕ → Card → Bool × Card
ne_send_frame dev frame c =
    if not c.ready || ltb (length frame) 14 || ltb 1600 (length frame)
    then (false, c)
    else transmit dev (padded frame) c

unfoldable pub ne_curr_page : Device → Card → ℕ × Card
ne_curr_page dev c = let r = ne_read dev 7 (ne_write 0 98 c) in (r.0, ne_write 0 34 r.1)

unfoldable pub pci_addr : ℕ → ℕ → ℕ
pci_addr slot reg = 2 ^ 31 + slot * 2048 + reg / 4 * 4

unfoldable pub pci_read32_bus0 : Device → ℕ → ℕ → Card → ℕ × Card
pci_read32_bus0 dev slot reg c = in_port dev 4 0xCFC (out_port 4 0xCF8 (pci_addr slot reg) c)

unfoldable pub pci_write32_bus0 : ℕ → ℕ → ℕ → Card → Card
pci_write32_bus0 slot reg v c = out_port 4 0xCFC v (out_port 4 0xCF8 (pci_addr slot reg) c)
