-- ===== src/Lib.antt =====
-- Honey OS: a 32-bit micro-kernel and the library of its services.
--
-- The parts that are modelled, and how they interact: the kernel hands out pages and keeps the page
-- tables of every service; its memory system calls stand on these. The kernel also keeps strings by
-- id, for the names of services and events. The services exchange values in the message pack format;
-- one of them reads keyboards and mice by the descriptors that these give of their reports. A service
-- enters the kernel by a system call; the kernel keeps a queue of calls, starts the functions that
-- are requested or subscribed to an event, and answers the calls that wait.
--
-- Which file models which code:
-- - Memory/Paging.antt: the bitmaps of src/kernel/memory/paging.c and src/kernel/include/memory.h,
--   with reservePage, markPageFree and findMultiplePages. Memory/Paging/ holds the bitmap as a set
--   of pages and the search.
-- - Memory/Mapping.antt: the page tables, with mapTemporary, getPhysicalAddress, mapPage and
--   unmapSinglePageFrom. Memory/Mapping/ holds the tables as a partial function between pages.
-- - Memory/Pages.antt: getPage, getPagesCount, sharePage, kernelMapPhysical, giveUpPage, freePage
--   and their like, and the system calls of src/kernel/service/memorySyscalls.c.
-- - Heap.antt: src/kernel/memory/malloc.c. Heap/Pieces.antt holds what is proved of its pieces.
-- - MsgPack/Format.antt: the table of src/include/msgpack.h and src/hlib/msgPack/static.c.
--   MsgPack/Integer.antt, Text.antt, Sequence.antt, Seek.antt and Query.antt: the functions of
--   integer.c, string.c, array.c and util.c in src/hlib/msgPack, and the macros LENGTH and WRITE.
-- - StringMap.antt: src/kernel/stringmap/stringmap.c.
-- - Hid.antt: consumeBits, getValue, handleArrayGroup and handleGroup of src/userland/hid/main.c;
--   Hid/Descriptor.antt: input and parseReportDescriptor of that file. Hid/Keys.antt and Hid/Bits.antt
--   hold what is proved of them.
-- - Kernel/State.antt: the objects of src/kernel/include/service.h and syscall.h. Kernel/Schedule.antt:
--   scheduleFunction of src/kernel/service/service.c. Kernel/Events.antt: src/kernel/service/events.c and
--   eventSyscalls.c; Kernel/Events/Name.antt: events by their names. Kernel/Services.antt:
--   src/kernel/service/serviceSyscalls.c. Kernel/Calls.antt: src/kernel/syscalls/syscall.c, the
--   interrupts and exceptions, and the loop of src/kernel/main.c; what services ask for, and which
--   interrupts and exceptions come, are arguments of a round (Activity). Kernel/Order.antt and the files
--   below it: which pointers are calls, and how calls respond to each other. Kernel/Calls/Turns.antt and
--   Kernel/Calls/Answer.antt: a function that runs for a request, among the other rounds of the kernel.
-- - Kernel/Load.antt: loadElf of src/kernel/service/service.c, loadProgram of src/kernel/main.c, and
--   src/kernel/multiboot/initrdSyscall.c. Kernel/Load/Header.antt: src/kernel/service/elf.h and the tables;
--   Kernel/Load/Pages.antt: the pages of a program; Kernel/Load/Segment.antt: the bytes on them.
-- - Kernel/Machine.antt: src/kernel/util/IOSyscalls.c and the two system calls of
--   src/kernel/stringmap/stringmapSyscalls.c that read or write the memory of a service.
-- - Strings.antt: src/kernel/util/strings.c and src/kernel/memory/tar.c. Strings/Archive.antt: the blocks
--   of the image that the search of tar.c looks at.
-- - Input/Keys.antt: src/include/keycodes.h. Input/Keyboard.antt: src/userland/keyboard/main.c and
--   src/userland/ps2kb/main.c. Input/Pointer.antt: src/userland/ps2mouse/main.c and src/userland/mouse/main.c.
--   Input/Console.antt: src/userland/ioManager/main.c and src/userland/pit/main.c. Input/Screen.antt:
--   src/userland/vga/main.c.
-- - Pci.antt: src/userland/lspci/main.c, over the words that the devices show.
-- - Storage.antt: src/userland/usbStorage/main.c, src/userland/scisi/main.c, src/userland/mbr/main.c, and the
--   descriptors of src/userland/usb/main.c.
-- - Usb/Ring.antt: src/userland/usb/xhci/trbRing.c and commands.c. Usb/Interfaces.antt: the walk over the
--   interfaces and getType of src/userland/usb/main.c. Usb/Xhci.antt: src/userland/usb/xhci/xhci.c and
--   xhciInterrupt of controller.c.
-- - Drivers/Ports.antt: src/hlib/io.c, for drivers as sequences of actions. Drivers/Ps2.antt:
--   src/userland/ps2/main.c. Drivers/Pic.antt: src/userland/pic/main.c and setupPic of
--   src/kernel/interrupts/interrupts.c.
-- - Lists.antt: src/kernel/util/list.c and src/hlib/list.c, as sequences.
-- - Stdio.antt: the formatting of numbers in src/hlib/stdio.c. Stdio/Print.antt: its format strings.
-- - Base.antt: lists, options, words of 32 bits, signed integers and bytes, which all parts share.
--
-- Numbers are natural numbers, kept below 2 ^ 32 where the source has a uint32_t. State is passed
-- explicitly: a driver's state is the list of what it did, and its device is a parameter that answers by
-- that list; `Memory` holds kernelPhysicalPages, a PagingInfo for each address space (space 0 is
-- kernelVirtualPages), and the page tables by the physical page that holds them. An array is a
-- function from its indices, and a pointer into a buffer is the list of the bytes from there on.
-- `none` stands for a read behind a table or a buffer or through NULL, where the program has no
-- defined behaviour. `KernelState` holds the objects of the kernel by their pointers; `malloc` gives one
-- that was never in use, so that what is freed is not seen again; the heap itself is Heap.antt. What
-- stands on the stack behind the parameters of scheduleFunction, which reads on until it finds a zero,
-- is an argument of its callers. `Machine` is what the kernel reads of the ports, of the memory of the
-- services and of the start image; what it writes there is a result.
--
-- Fuel: the loops that free pages get 0x100000 rounds, one for each page of a space. `seek` and the
-- queries that use it take their fuel as an argument; the theorems say how much is enough, and it
-- depends on the size of the encoded value alone. The parser of descriptors gets one round for each
-- byte of its buffer, and takes at least one byte in a round. The search in an archive gets a round for
-- each block of 512 bytes, the loop over the pages of a segment one for each 4096 bytes of its size in
-- memory. The loop of handleStackContainsSyscall, the search for pci devices and those for descriptors
-- take their fuel as an argument. The driver of the PS/2 controller waits for answers for ever: its
-- fuel counts the rounds of each wait, and its trace is kept also where the fuel runs out.
--
-- Not modelled: the assembly and the tables that the processor reads at the start, the flush of its
-- address cache, the reading of the multiboot tables, what the drivers ask of their
-- devices beyond the bytes that are modelled, and what only prints.
pub mod Base
pub mod Drivers
pub mod Heap
pub mod Hid
pub mod Input
pub mod Kernel
pub mod Lists
pub mod Memory
pub mod MsgPack
pub mod Pci
pub mod Stdio
pub mod Storage
pub mod StringMap
pub mod Strings
pub mod Usb
