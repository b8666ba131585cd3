-- ===== src/Mm/Heap.antt =====
-- The kernel heap of src/kernel/mm.c: block headers in the memory from HEAP_START on, chained by
-- their `next` pointers. The build is that of i386, where a header has 12 bytes.
pub mod Chain
pub mod Fit
pub mod Coalesce
pub mod Owned
pub mod Release
pub mod Undo
pub mod Usage
mod Tests
use heat_os.Prelude.{
  ℕ, zero, suc, ◌+◌, ◌-◌, ◌*◌, ◌/◌, ◌%◌, ◌^◌, Bool, true, false, Option, none, some, ltb, leb, ◌==◌,
  ◌||◌, ◌&&◌, not, if◌then◌else◌, update, add32, sub32,
}
use heat_os.Mm.Pmm.{heap_start, heap_size}

-- `heap_block_t`
pub record Block : Type 0 where
  pub size : ℕ
  pub next : ℕ
  pub free : Bool

-- The memory that holds the headers, by address.
abbrev pub Memory : Type 0
Memory = ℕ → Block

-- `heap_head`, `heap_ready` and the headers.
pub record Heap : Type 0 where
  pub head : ℕ
  pub ready : Bool
  pub mem : Memory

-- `sizeof(heap_block_t)`
abbrev pub header : ℕ
header = 12

abbrev pub heap_end : ℕ
heap_end = heap_start + heap_size

-- More rounds than there can be blocks: a block takes at least the 12 bytes of its header.
pub walk_fuel : ℕ
walk_fuel = heap_size / header + 2

-- `(value + 7u) & ~7u`: the three low bits go.
unfoldable pub heap_align8 : ℕ → ℕ
heap_align8 value = add32 value 7 / 8 * 8

unfoldable pub heap_init : Heap → Heap
heap_init h = record {
  head = heap_start;
  ready = true;
  mem = update h.mem heap_start (record { size = heap_size - header; next = 0; free = true });
}

-- The body of `kmalloc` at a block that is taken: the rest is split off if it can hold a header and
-- eight bytes.
unfoldable pub take_block : ℕ → ℕ → Memory → Memory
take_block need block m =
    let b : Block = m block in
    let split = add32 (add32 block header) need in
    let cut =
      update m split
        (record { size = sub32 (sub32 b.size need) header; next = b.next; free = true }) in
    if leb (add32 (add32 need header) 8) b.size
    then update cut block (record { size = need; next = split; free = false })
    else update m block (record b { free = false })

-- The walk of `kmalloc` along the chain. `none` means that the fuel ran out; address 0 is the null
-- pointer.
unfoldable pub find_block : ℕ → ℕ → ℕ → Memory → Option (ℕ × Memory)
find_block zero need block m = none
find_block (suc fuel) need block m =
    let rest = find_block fuel need (m block).next m in
    if block == 0
    then some (0, m)
    else if (m block).free && leb need (m block).size
    then some (add32 block header, take_block need block m)
    else rest

unfoldable pub with_memory : Heap → Option (ℕ × Memory) → Option (ℕ × Heap)
with_memory h none = none
with_memory h (some (p, m)) = some (p, record h { mem = m })

unfoldable pub kmalloc : ℕ → Heap → Option (ℕ × Heap)
unfolding with_memory
kmalloc size h =
    let need = heap_align8 size in
    if not h.ready || (size == 0)
    then some (0, h)
    else if (need == 0) || ltb heap_size need
    then some (0, h)
    else with_memory h (find_block walk_fuel need h.head h.mem)

-- `heap_coalesce` from `block` on: a free block swallows the free one right behind it, and is looked
-- at again. `none` means that the fuel ran out.
unfoldable pub coalesce_from : ℕ → ℕ → Memory → Option Memory
coalesce_from zero block m = none
coalesce_from (suc fuel) block m =
    let b : Block = m block in
    let n : Block = m b.next in
    let joined : Block = record b { size = add32 b.size (add32 header n.size); next = n.next } in
    let again = coalesce_from fuel block (update m block joined) in
    let onward = coalesce_from fuel b.next m in
    if (block == 0) || (b.next == 0)
    then some m
    else if b.free && n.free && (add32 (add32 block header) b.size == b.next)
    then again
    else onward

unfoldable pub with_coalesced : Heap → Option Memory → Option Heap
with_coalesced h none = none
with_coalesced h (some m) = some (record h { mem = m })

unfoldable pub kfree : ℕ → Heap → Option Heap
unfolding with_coalesced
kfree p h =
    let block = sub32 p header in
    if not h.ready || (p == 0)
    then some h
    else if ltb p (heap_start + header) || leb heap_end p
    then some h
    else if ltb block heap_start || leb heap_end block
    then some h
    else with_coalesced h
        (coalesce_from walk_fuel h.head (update h.mem block (record (h.mem block) { free = true })))

-- The loop that `kheap_used_bytes` and `kheap_free_bytes` share: the bytes of the blocks whose `free`
-- is `wanted`.
unfoldable pub sum_blocks : ℕ → Bool → ℕ → ℕ → Memory → Option ℕ
sum_blocks zero wanted block total m = none
sum_blocks (suc fuel) wanted block total m =
    let counted = if (m block).free then wanted else not wanted in
    let total' = if counted then add32 total (m block).size else total in
    let rest = sum_blocks fuel wanted (m block).next total' m in
    if block == 0 then some total else rest

unfoldable pub kheap_used_bytes : Heap → Option ℕ
kheap_used_bytes h = if h.ready then sum_blocks walk_fuel false h.head 0 h.mem else some 0

unfoldable pub kheap_free_bytes : Heap → Option ℕ
kheap_free_bytes h = if h.ready then sum_blocks walk_fuel true h.head 0 h.mem else some 0
