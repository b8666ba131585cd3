-- ===== src/Mm/Pmm.antt =====
-- The physical page allocator of src/kernel/mm.c: a bitmap with one bit for each page of 4096 bytes.
pub mod Bits
pub mod Count
pub mod Cycle
pub mod Alloc
mod Tests
use Prim.Native.Nat.{bit_and, bit_or}
use heat_os.Prelude.{
  ℕ, zero, suc, ◌+◌, ◌-◌, ◌*◌, ◌/◌, ◌%◌, ◌^◌, Bool, true, false, Option, none, some, ltb, leb, ◌==◌,
  ◌||◌, not, if◌then◌else◌, update, add32, mul32,
}

abbrev pub page_size : ℕ
page_size = 4096

-- `HEAP_START` and `HEAP_SIZE`
abbrev pub heap_start : ℕ
heap_start = 0x1000000

abbrev pub heap_size : ℕ
heap_size = 0x1000000

-- The statics of the page allocator. `bitmap i` is the byte at address 0x100000 + i.
pub record Pmm : Type 0 where
  pub bitmap : ℕ → ℕ
  pub max_blocks : ℕ
  pub used_blocks : ℕ
  pub reserved_blocks : ℕ

-- `b |= 1 << i`, `b &= ~(1 << i)` and `b & (1 << i)` on a byte; `~` is that of `int`.
unfoldable pub byte_set : ℕ → ℕ → ℕ
byte_set b i = bit_or b (2 ^ i) % 256

unfoldable pub byte_clear : ℕ → ℕ → ℕ
byte_clear b i = bit_and b (2 ^ 32 - 1 - 2 ^ i) % 256

unfoldable pub byte_test : ℕ → ℕ → Bool
byte_test b i = not (bit_and b (2 ^ i) == 0)

unfoldable pub pmm_bitmap_set : ℕ → Pmm → Pmm
pmm_bitmap_set bit p = record p {
  bitmap = update p.bitmap (bit / 8) (byte_set (p.bitmap (bit / 8)) (bit % 8));
}

unfoldable pub pmm_bitmap_clear : ℕ → Pmm → Pmm
pmm_bitmap_clear bit p = record p {
  bitmap = update p.bitmap (bit / 8) (byte_clear (p.bitmap (bit / 8)) (bit % 8));
}

unfoldable pub pmm_bitmap_test : ℕ → Pmm → Bool
pmm_bitmap_test bit p = byte_test (p.bitmap (bit / 8)) (bit % 8)

-- The loop of `pmm_init` that clears the bits from `i` on, for `n` pages.
unfoldable pub clear_from : ℕ → ℕ → Pmm → Pmm
clear_from zero i p = p
clear_from (suc n) i p = clear_from n (suc i) (pmm_bitmap_clear i p)

-- `memset(pmm_bitmap, 0xFF, bitmap_bytes)`
unfoldable pub fill_ones : ℕ → (ℕ → ℕ) → ℕ → ℕ
fill_ones bytes bitmap i = if ltb i bytes then 255 else bitmap i

-- `if (mem_size < PAGE_SIZE) mem_size = PAGE_SIZE`
unfoldable pub at_least_page : ℕ → ℕ
at_least_page mem_size = if ltb mem_size page_size then page_size else mem_size

-- `pmm_reserved_blocks` as `pmm_init` computes it.
unfoldable pub reserved_pages : ℕ → ℕ
reserved_pages mem =
    let reserve = if ltb mem (heap_start + heap_size) then mem else heap_start + heap_size in
    if ltb (mem / page_size) (reserve / page_size) then mem / page_size else reserve / page_size

-- The bitmap's set-up, and the counter.
unfoldable pub reset_pages : ℕ → ℕ → Pmm → Pmm
reset_pages max reserved p =
    let filled : Pmm = record {
      bitmap = fill_ones (add32 max 7 / 8) p.bitmap;
      max_blocks = max;
      used_blocks = p.used_blocks;
      reserved_blocks = reserved;
    } in
    record (clear_from (max - reserved) reserved filled) { used_blocks = reserved }

-- `pmm_init` up to its call of `heap_init`.
unfoldable pub pmm_init : ℕ → Pmm → Pmm
pmm_init mem_size p =
    let mem = at_least_page mem_size in reset_pages (mem / page_size) (reserved_pages mem) p

-- The loop of `pmm_alloc_page` from page `i` on, `n` pages before the end.
unfoldable pub alloc_from : ℕ → ℕ → Pmm → Option ℕ × Pmm
alloc_from zero i p = (none, p)
alloc_from (suc n) i p =
    let rest = alloc_from n (suc i) p in
    if not (pmm_bitmap_test i p)
    then (
      some (mul32 i page_size),
      record (pmm_bitmap_set i p) { used_blocks = add32 p.used_blocks 1 },
    )
    else rest

-- `none` is the null pointer.
unfoldable pub pmm_alloc_page : Pmm → Option ℕ × Pmm
pmm_alloc_page p = alloc_from (p.max_blocks - p.reserved_blocks) p.reserved_blocks p

-- The part of `pmm_free_page` behind its guards.
unfoldable pub release_block : ℕ → Pmm → Pmm
release_block block p =
    let c = pmm_bitmap_clear block p in
    record c { used_blocks = if ltb 0 c.used_blocks then c.used_blocks - 1 else c.used_blocks }

unfoldable pub pmm_free_page : ℕ → Pmm → Pmm
unfolding release_block
pmm_free_page addr p =
    let block = addr / page_size in
    if addr == 0
    then p
    else if ltb block p.reserved_blocks || leb p.max_blocks block
    then p
    else if not (pmm_bitmap_test block p)
    then p
    else release_block block p

unfoldable pub pmm_total_blocks : Pmm → ℕ
pmm_total_blocks p = p.max_blocks

unfoldable pub pmm_used_blocks_count : Pmm → ℕ
pmm_used_blocks_count p = p.used_blocks

unfoldable pub pmm_free_blocks_count : Pmm → ℕ
pmm_free_blocks_count p = if ltb p.max_blocks p.used_blocks then 0 else p.max_blocks - p.used_blocks
