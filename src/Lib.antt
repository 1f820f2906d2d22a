-- ===== src/Lib.antt =====
-- Verification of biefircate, a loader that runs 16-bit BIOS code from a UEFI machine.
--
-- Stage 1 (stage1/*.c) is a UEFI application: it reserves the memory below 1 MiB (bmem.c), looks for
-- option ROMs (pci.c, fv.c) and passes a linked list of boot parameters (bparm.c, bparm.h) to stage
-- 2. Stage 2 (stage2/*.c) builds its own memory map and page tables (mem.c), silences the APICs
-- (irq.c), runs the option ROMs (main.c) and answers keyboard interrupts (16/kb.c).
--
-- Prelude holds Boolean tests, lists as arrays, outcomes of calls, and words with their masks.
-- Bparams is bparm.h with the constants of common.h. Stage1.Bmem is stage1/bmem.c: the record State
-- holds its static variables, bmem_alloc and bmem_alloc_boottime the two allocators; Layout says how
-- the blocks lie, Alloc and Boottime have one allocator each, Calls any sequence of calls.
-- Stage1.Bmem.Init is bmem_init: Grab is about the calls of AllocatePages, Mark about the memory
-- map, Blocks about the blocks, and Result about the whole; the loop around AllocatePages has 65
-- rounds of fuel for each page that the firmware has left, since a success sets the count to 2 ^ 64
-- - 1 and a failure halves it. Stage1.Bparm is stage1/bparm.c, with the nodes in memory as a
-- function of their addresses; Chain says that they form a list, Append what a caller of bparm_add
-- gets. Stage1.Bparm.Fini is bmem_fini of stage1/bmem.c, which adds the memory ranges: Ranges is
-- about the parameters, Result about the whole.
--
-- Stage1.Util is stage1/util.c, with memory as a list of bytes in which a read outside is a fault:
-- Cksum is about the checksums, Compare about memcmp. Stage1.Rimg is the part of stage1/pci.c that
-- checks option ROM images: Pcir is about rimg_find_pcir and rimg_find, DevIds about
-- rimg_pcir_find_dev_id_list, whose loop has one round of fuel more than the index it stops at.
--
-- Stage1.Rimg.Place is get_rimg, which copies an image into base memory: Copy says what is at the
-- segments that it gives. Stage2.Main is stage2/main.c: Calls is about the order in which the option
-- ROMs run.
--
-- Stage1.Load is load_stage2 of stage1/main.c, with the UEFI file protocol and page allocator as a
-- record of operations on a state of their own: Elf decodes the headers of elf.h, Files says what
-- the loader relies on, Segments is about the reads and writes of one segment, Extents about the
-- slack before it, Loop about all segments, and Image about the whole; Served says when the file is
-- loaded, Closed which files are closed. An error message ends the loader with the state at that
-- time. Stage1.Handover is prepare_to_hand_over: Extended is about the memory from 1 MiB on, Result
-- about the whole. Stage1.Acpi is stage1/acpi.c, with the fields of the tables as functions of their
-- addresses, since their layout is that of a header outside the repository; Accept compares it with
-- a description of the tables that it accepts.
--
-- Stage1.Fv is the hash table of stage1/fv.c, with a bucket's chain as a list: Table is about one
-- entry, Cache about fv_cache_rimg, Gather about the loop over the images of a section, which has
-- one round of fuel more than the section has bytes, enough since each image has 512 bytes at least.
-- AllocatePool is a parameter of the definitions that call it, and the loop over device ids has as
-- many rounds of fuel as the image has bytes.
--
-- Stage2.Kb is stage2/16/kb.c: the record Bda holds the variables of the BIOS data area, handle_code
-- takes one scan code and irq1_impl is the interrupt; Maps has the four tables, Buffer the queue,
-- Keys, Modifiers and Letters what the codes do, and Irq the interrupt. The wait for the controller
-- runs at most 0xffff rounds, as the 16-bit counter of the source does.
--
-- Stage2.Mem is stage2/mem.c: the record State holds the memory map, Sort is about shellsort, Layout
-- about what a map says of each address, Search about find_highest_range_below, Alloc and Room about
-- mem_alloc; Stage2.Mem.Map is mem_map_init, Choose about the range that it takes for the map, Carve
-- what it puts into the map. The loop of shellsort that doubles h has 32 rounds of fuel, which is
-- enough up to 2 ^ 31 ranges; the binary search has as many rounds as there are ranges.
--
-- Stage2.Vm is the page tables of stage2/mem.c: Entries is about the bits of the entries, Tables
-- about what the tables say of a page and what keeps them apart, Keep about writing one entry,
-- Ensure, Map and Unmap about ensure_pt, do_va_map and do_va_unmap. Stage2.Va is mem_va_map and
-- mem_va_unmap, with the unused virtual addresses as the set that Ranges reads off the array;
-- Stage2.Va.Init is va_init: how it finds these addresses (Holes), makes the page directories
-- (Directories), and maps memory to itself (Identity), between the unused addresses (Gaps) and where
-- the attributes want it (Attributes). Result is about the whole of it. Its last loop has as many
-- rounds as the array of ranges has places, which is enough, since Stage2.Mem.Grows shows that the
-- array only gets longer. The loops over pages have as much fuel as there are pages below 4 GiB, and
-- each round deals with at least one page.
--
-- Words are natural numbers with the wrap-around of their width written out. A call that does not
-- return (error(.) in stage 1, hlt() in stage 2) is a stop of the outcome type. Addresses that stand
-- for objects are numbers, and NULL is 0.
--
-- Not modelled: the processor's control registers and its cache of page table entries, the protocols
-- of PCI devices and firmware volumes (pci.c, fv.c), the interrupt controllers (irq.c), the rest of
-- stage1/main.c, what is printed, the UEFI services themselves, the assembly files, and the ROM
-- dumper (romdumper.c), which only copies memory to files.
pub mod Bparams
pub mod Prelude
pub mod Stage1
pub mod Stage2
