-- ===== src/Lib.antt =====
-- Verification of the Qnixx kernel: its memory management, scheduler, file system, console,
-- drivers and firmware tables, translated from the C files under sys/.
--
-- The parts, and the files that model them:
-- - Common: what the other files share: tests on numbers, machine words, bitwise laws, loops on
--   fuel and what they leave alone, and memory as a function that is written at one place.
-- - Libkern: sys/libkern. Libkern/Bitmap is bitmap.c (bitmap_set_bit is set_bit, and so on),
--   Libkern/Memory the memory functions of string.c, and Libkern/String the strings and the
--   printing of numbers, with the numerals of a base in its children Numeral and Hexadecimal.
-- - Mm: sys/mm. Mm/Pmm is pmm.c: the record Pmm holds the memory map, the address of the bitmap
--   and its bytes. Mm/Vmm is vmm.c: the record Vm holds memory as 64-bit words, the physical
--   memory manager, CR3, the static variable of vmm_make_pml4 and the flushed addresses. Mm/Heap
--   is heap.c, over the allocator as a record of operations; Mm/Heap/Zeroed takes its laws as a
--   record.
-- - Sync: sys/sync/mutex.c, as functions for one thread, and as a step relation for any number of
--   them.
-- - Sched: sys/sched and sys/include/sys/queue.h. Sched/Queue is the tail queue, with its forward
--   links, its back links and the slot that the tail points to. Sched/Types has the structs,
--   Sched/Process, with Sched/Process/Create, and Sched/Pid are process.c, Sched/Switch and
--   Sched/Start are sched.c, with the schedule that it promises in Sched/Switch/RoundRobin, and
--   Sched/Trap is sys/amd64/trap.c.
-- - Fs: sys/fs/vfs.c and sys/include/sys/vnode.h: the vnodes by address, over the hash map as a
--   record of operations.
-- - Tty: sys/tty. Tty/Font is the table of font.c and Tty/Console is console.c: the record
--   Console holds the cursor, the pixels and the static buffers of the number printers.
--   Tty/Console/Render describes what a format stands for, apart from the console.
-- - Amd64: sys/amd64. Amd64/Io is io.c, with the hardware as an argument; Amd64/Idt is idt.c,
--   interrupts.c and exceptions.c; Amd64/Apic is ioapic.c and, in its child Lapic, lapic.c;
--   Amd64/Segments is gdt.c and tss.c; Amd64/Cores is smp.c and cpu.c.
-- - Dev: sys/dev. Dev/Pci is pci/pci.c, Dev/Rtl8139 is net/rtl8139.c, with the start of the card
--   in the child Startup, Dev/Hpet is timer/hpet.c, and Dev/Fb is video/fb.c.
-- - Acpi: sys/acpi/acpi.c, over the packed structs of sys/include/acpi/def.h, which Acpi/Tables
--   reads from memory.
-- - Start: sys/kern_init.c and sys/dev/init.c: the kernel's start as one program, which hands
--   what each part leaves to those that come later. Start/Returns and Start/Ready follow it to
--   its end, and Start/Handlers looks at the interrupt table.
--
-- How they interact: the virtual memory manager takes its tables from the physical one, which
-- keeps its frames in a bitmap, as the processes keep their PIDs; the scheduler moves on the
-- queues that the processes build, when the trap handler calls it on the timer of the local APIC,
-- which is measured against the HPET; the cores find their descriptors by their APIC IDs, under a
-- mutex; the network card is found on the PCI bus and registers its handler in the interrupt
-- table, and the drivers reach their devices through Amd64/Io. A new process takes its PID from
-- the bitmap and its page table from the virtual memory manager, and the calibration of the local
-- timer sleeps by hpet_sleep (Amd64/Apic/Calibrate), so that the start of the kernel and the
-- timer interrupt return only where the counter of the HPET goes on.
--
-- State is passed explicitly. A device program takes the trace of the accesses so far and returns
-- its result and the longer trace; the hardware is a function that says what a read gives after a
-- trace. An assertion that fails, a null pointer that is read, a halt, and a loop that goes on
-- when its fuel is used up, give none. A 64-bit value is a natural number, and where the source
-- can wrap the model takes the remainder.
--
-- Fuel: the loops over a memory map, a bitmap or a buffer have as many rounds as there are
-- elements; dec2str has 20 rounds and hex2str 16, enough for 64 bits; path2vnode needs one round
-- more than the path has bytes, the walks over the MADT at most one for each byte of the table,
-- and hpet_sleep at most one more than the ticks it waits; a mutex that is free is taken in the
-- first round. The interrupt loop of the card needs one round more than the acknowledgements
-- after which it is quiet. The PID loop ends within 8 rounds where the bitmap has a byte
-- (Sched/Pid), and the wait for the reset of the card when the device lets it. Each of these
-- takes its fuel as an argument.
--
-- Not modelled: the vendored allocator (sys/mm/tlsf.c), the vendored hash map
-- (sys/include/lib/hashmap.h), and the boot protocol (sys/include/limine.h), whose answers are
-- arguments, and instructions in assembly. The start takes the addresses that kmalloc returns to
-- the network card, and the physical addresses of vmm_get_phys, as arguments. The core that
-- this_core finds is an argument of the scheduler, of the start of another core and of the
-- callers of the calibration, without the reads of the APIC ID; a NULL that kmalloc returns for
-- the list of the cores or for a PCI descriptor, and a packet of more than 0x600 bytes to send,
-- are left out. Messages to the console are left out of every function but the console's own, and
-- an access of the compiler that C leaves undefined, a shift of an int by 32 or more, is an
-- argument.
pub mod Common
pub mod Libkern
pub mod Mm
pub mod Sched
pub mod Amd64
pub mod Dev
pub mod Acpi
pub mod Fs
pub mod Sync
pub mod Tty
pub mod Start
