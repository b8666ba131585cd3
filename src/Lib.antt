-- ===== src/Lib.antt =====
-- HeatOS is a small 32-bit kernel with a shell. This library models the parts of it that keep state and
-- do not only drive a device, one module for each source file, and proves what makes them correct.
--
-- The parts, and the files that model them (paths from the root of the repository):
--
--   Mm.Pmm      src/kernel/mm.c, the page allocator: the bitmap is a function from indices to bytes, the
--               statics are the record `Pmm`; `pmm_init`, `pmm_alloc_page`, `pmm_free_page`, the counts.
--   Mm.Heap     src/kernel/mm.c, the heap: `Memory` gives the block header at an address. `kmalloc`,
--               `kfree` and `heap_coalesce` walk the chain as the source does, with 32-bit arithmetic.
--               Mm.Heap.Chain reads the chain as a list of blocks that tile the heap, and Mm.Heap.Fit,
--               Mm.Heap.Coalesce and Mm.Heap.Release relate the operations to that list.
--   Klog        src/kernel/klog.c: the ring of 8192 characters, the counter of lines, the records that
--               `klog_log` and `klog_log_u32` print, `klog_read`. The log also writes on the serial line.
--   Serial      src/drivers/serial.c: what is sent, with the bounded wait for the transmitter. What the
--               line status register answers at each read is a parameter.
--   CString     src/lib/string.c: `utoa`, `strcmp`, `strncmp`, `strchr`, `strstr`, `strtok_r` on strings as
--               lists of the bytes in front of the NUL; `memcpy`, `memmove` and `memcmp` on a memory of bytes.
--   Ramdisk     src/lib/ramdisk.c: the table of 64 nodes and the pool of 8192 bytes, as a record of
--               functions from node numbers; Ramdisk.Path has the walks along paths, Ramdisk.Init what
--               `ramdisk_init` puts there.
--   Keyboard    src/drivers/keyboard.c: scan codes to keys. The bytes that the controller will hold, from
--               the keyboard or the mouse, are a list.
--   Mouse       src/drivers/mouse.c: packets of three bytes and the pointer.
--   Terminal    src/terminal/terminal.c: the ring of 50 commands, the line editor key by key, the cursor of
--               the screen. What a command does and what is drawn is left out.
--   Scheduler   src/kernel/scheduler.c: the ring of processes; a process takes its struct from the heap and
--               its stack from the page allocator, and the calls write to the log.
--   Printf      src/kernel/printf.c: the directives of `kvprintf` on a list of arguments, and the buffer that
--               `kvsnprintf` fills.
--   Java        src/commands/java.c: Java.Hjar the stack machine of HJAR programs on 32-bit patterns,
--               Java.Zip the walk through the entries of an archive and the two searches in it, Java.Jar
--               the manifest and the choice of the class that runs, Java.Descriptor the descriptors.
--   Network     src/drivers/network.c: Network.Ne2000 the registers and the DMA of the card, where the state
--               holds the history of all port accesses and what a port shows is a parameter, a function of
--               that history; Network.Send the frames sent, Network.Receive the handlers of arriving frames,
--               Network.Resolver the DNS messages, Network.Poll the card's ring of packets, Network.Start the
--               probe and the set-up, Network.Address the parser of addresses, Network.Client ARP, ping and
--               name resolution. A buffer is the list of its bytes, and a read past its end gives `none`.
--
-- The heap and the page allocator are the memory of everything else; the log uses `utoa` and the serial
-- line; the keyboard's poll hands the bytes of the mouse on to the mouse driver. The scheduler takes from
-- the heap and from the page allocator, and its calls write to the log.
--
-- Fuel. A walk along a chain of blocks, of siblings or of path components recurs on fuel and gives `none`
-- when it runs out. `Mm.Heap.walk_fuel` exceeds the number of headers that fit into the heap, so that on a
-- heap in order no walk runs out; `Ramdisk.walk_fuel` exceeds the number of nodes; a path component takes
-- at least one byte, so that a path's length bounds its walk; `Scheduler.ring_fuel` exceeds the number of
-- addresses in the heap, and so of the structs there. A result `some ...` is therefore a result of the code,
-- and `none` stands for a loop that does not end. The loop of `ne_receive_packets` goes on as long as the
-- card has packets; its `rounds` bounds them, and `receive_round` is one round of it. The search in an
-- archive has the result `running` when its fuel runs out; a step of it moves at least 30 bytes where the
-- stated sizes are true. All other loops recur on what they count.
--
-- Not modelled: code that only drives a device (video, timer, speaker, the set-up of the mouse and of the
-- serial line), the wireless module on the serial line, the stubs of TCP and web, assembly and descriptor
-- tables, the games and applications, the separate 64-bit kernel, the class files and the byte code of the
-- Java interpreter, and the text interfaces of the shell commands.
pub mod CString
pub mod Java
pub mod Keyboard
pub mod Klog
pub mod Mm
pub mod Mouse
pub mod Network
pub mod Prelude
pub mod Printf
pub mod Ramdisk
pub mod Scheduler
pub mod Serial
pub mod Terminal
