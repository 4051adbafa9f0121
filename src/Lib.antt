-- ===== src/Lib.antt =====
-- okeOS is a small kernel for x86-64, in C++. This library models the parts of it whose behaviour
-- is a function of their state, and states what they do.
--
-- The parts, and the files that model them (paths from the root of the repository):
--
--   Prelude        shared names, the words u8 to u64 with their wrap-around, shifts, and facts on
--                  masks; lists with the native length
--   Bitmap         kernel/lib/bitmap.h, bitmap.cpp: `get`, `set`
--   MemoryMap      kernel/mem/memutils.cpp: `memory_size` is getMemorySize, `areal_size` is
--                  getMemoryArealSize, `mapping_name`, `to_phys` and `to_virt`
--   PageFrame      kernel/mem/pageframeallocator.cpp: the globals are the record `Pfa`;
--                  `request_page`, `lock_page`, `free_page`, `lock_pages`, `free_pages` and `init`
--                  are the functions mem_pageframeallocator_*
--   Paging         kernel/mem/paging.cpp, paging.h: `set_flag`, `get_flag`, `set_address`,
--                  `get_address` on the 64-bit value of an entry; `indexer_from` is
--                  PageMapIndexer_From, `map_memory` is PageTable_MapMemory
--   Heap           kernel/mem/heap.cpp, heap.h: the headers of the segments and the globals are the
--                  record `Heap`; `malloc`, `free`, `sfree`, `split`, `combine_forward`,
--                  `combine_backward`, `expand_heap`, `init_heap`, and `used_mem`, which is
--                  getUsedMem
--   Ports          kernel/lib/io.cpp: the instructions for ports, as a parameter `Bus`;
--                  Ports/Serial has the driver of kernel/lib/serial.cpp, and Ports/Pic has
--                  `disable_pic`, which is disablePIC of kernel/idt/pic.cpp
--   MemLib         kernel/lib/mem.cpp: memcpy, memset, memmove, memcmp, strlen
--   DynList        kernel/lib/list.h: the class List
--   Interrupts     kernel/idt/ints.cpp, ints.h: `set_idt_entry`, `init_ints`,
--                  `interrupt_dispatch`, and `page_fault_string`, which is getPageFaultString
--   Sched          kernel/sched/pit.cpp, timer.h: the interval timer and the stopwatch
--   Framebuffer    kernel/graphics/framebuffer.cpp
--   Terminal       kernel/terminal/terminal.cpp, terminal.h
--   Debug          kernel/debug.cpp: `write_string` is __write, `write_char` is __writeChar, and
--                  Debug/Format has `kprintf`, which is _kprintf; Debug/Channels has the functions
--                  that print on the terminal, the serial port or both
--   Boot           kernel/kernel.cpp: `init_paging` is the part of _start that builds the page table,
--                  `start_pages` sets up the allocator in front of it, `start_memory` is the order of
--                  these and the heap, and `start_acpi` the test in front of ACPI::init
--   Strings        kernel/lib/string.cpp: `strncmp`, `uitoa`, `itoa`
--   Builder        kernel/lib/string.cpp: FastStringBuilder
--   Logger         kernel/lib/logger.h: `internal_log` is __internal_log
--   Panic          kernel/panic.cpp: `trace` is traceStackTrace, `panic` the report
--   Gdt            kernel/gdt/gdt.cpp, gdt.h: the table of segments, `gdt_init`
--   Acpi           kernel/acpi/acpi.cpp: `do_checksum` is doChecksum, `find_table` is findTable,
--                  `acpi_init` is ACPI::init
--   Examples       concrete runs
--
-- How they interact: the page frame allocator keeps its locks in the bitmap and is set up from the
-- memory map; paging asks it for the pages of new tables; the boot sequence maps the entries of the
-- memory map with paging; the heap requests pages and maps them behind its end; the fault text is
-- built with the memory functions; the terminal draws with the framebuffer, and the debug output
-- writes on it, with the digits of the string functions; the search for an ACPI table maps the tables
-- that it reads, and compares their signatures with the string functions; the builder of strings keeps
-- its array and its text in blocks of the heap; the logger builds a text, prints it with the debug
-- output and gives the blocks back.
-- The drivers meet the hardware through a bus, and each of their theorems names what the device does
-- as a hypothesis, from its data sheet.
--
-- State is passed explicitly. A panic halts the kernel and is an outcome without a state. Memory is
-- a function from addresses, also behind the end of an array, so that a write there is seen. Native
-- naturals stand for machine words, and every wrap-around of the source is written out.
--
-- Loops over a counter are recursions on the rounds that are left. The search for a free page has as
-- many rounds as there are pages from the index to the end of the bitmap. These loops are on fuel:
-- the walks of malloc and getUsedMem, for which as many steps as there are segments are enough, where
-- the calls of malloc by itself are counted apart (`allocate` is malloc with the end of the heap for
-- its steps); the sleep, for which no fuel is enough unless something ticks, and otherwise as many ticks
-- as nanoseconds and one more, where a tick is 1 ns or longer; strlen,
-- for which the length of the string and one more is enough; the waits of the serial driver, for which
-- the reads of the status until the line is ready, and one more, are enough; the wait of ACPI::init,
-- which has one round; and the conversion of uitoa and itoa, for which the 64 binary digits of a `u64`
-- are enough, with two more where _kprintf prints the number with its sign. `__write` does not end on every text: its
-- fuel is a parameter, and that the length of the text and one more is enough holds for the texts on
-- which it ends.
--
-- The tables of pages are reached at their physical addresses, as where the processor maps them to
-- themselves: the boot loader's tables do, and those of _start for the first 16 MiB, until initHeap
-- maps the pages from 8 MiB on anew. The headers of the heap stand beside the bytes of the memory, and a
-- header that is laid over bytes of a block, or a write through a null `next`, is written to both. For
-- these two reasons malloc, initHeap, and what rests on them in the builder, the logger and the start
-- of the heap, are definitions only. The product of two ints in lockPages is undefined in C++ behind
-- 2 GiB, and the model is of the part below.
--
-- The font, what an interrupt's handlers do to the timer, what a new allocation holds, and the addresses of constant texts are parameters.
--
-- Not modelled: the output and the privileged instructions of _start, and the guards in it that only
-- halt; the one-instruction functions of kernel/lib/io.cpp, kernel/lib/math.cpp, the assembly stubs,
-- and the header of the boot loader.
pub mod Prelude
pub mod Bitmap
pub mod MemoryMap
pub mod PageFrame
pub mod Ports
pub mod Paging
pub mod MemLib
pub mod Interrupts
pub mod Sched
pub mod DynList
pub mod Framebuffer
pub mod Terminal
pub mod Heap
pub mod Debug
pub mod Boot
pub mod Strings
pub mod Builder
pub mod Logger
pub mod Panic
pub mod Gdt
pub mod Acpi
pub mod Examples
