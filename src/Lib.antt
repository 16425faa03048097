-- ===== src/Lib.antt =====
-- Ts_OS is a small x86 kernel in C. This library models its core and proves what makes it correct.
--
-- The parts, with paths from the repository's root:
--   * Common.antt: the bit scans of kernel/common.c, which the frame allocator uses.
--   * Frame.antt: kernel/frame.c, the bitmap of physical frames. `bitmap` is a list of bytes that
--     each operation takes and returns; `alloc_frame`, `clear_frame` and `frame_status` keep their
--     names.
--   * Malloc.antt: kernel/malloc.c, the kernel heap. The state is the list head and a store of
--     region headers; `init_heap`, `kmalloc` and `kfree` keep their names, and their loops and
--     inner blocks are helpers: `find_size` and `find_ptr` the searches, `unlink` and `absorb` the
--     blocks of `kfree`.
--   * Task.antt: the task table and the scheduler of kernel/task.c with the switch of
--     asm/process.asm. Task/Load.antt loads a task: its directory, its kernel stack, the sections
--     of its image and its entry in the table, over the memory of Paging.antt.
--   * Timer.antt: drivers/timer.c and the way of interrupt 32 through kernel/isr.c. It calls
--     `cond_schedule`, so the timer drives the scheduler.
--   * Keyboard.antt: drivers/keyboard.c. `kb_handler` takes the scan code that it reads from the
--     port and gives the key that it passes to `shell_get_key_code`, if any.
--   * Descriptor.antt: the interrupt table of kernel/isr.c and the segment descriptor of
--     kernel/task.c. The entry points of the interrupts are a parameter.
--   * String.antt: lib/string.c. A pointer is the list of bytes from it to the end of its object.
--   * Memory operations and tokens of lib/string.c (`memset`, `memcpy`, `strncpy`, `str_pad`,
--     `strtok`, `itoa`) are String/Memory.antt. `strtok` gives the place to go on at and the
--     buffer.
--   * Vga.antt: kernel/vga.c, the text screen as a list of cells.
--   * Console.antt: kernel/console.c in the default build: the history, the window, the output
--     with its scrolling, and the line of input.
--   * Print.antt: lib/print.c, printing on the terminal of Console.antt. `_print_num` and
--     `_print_arg_handler` have no leading underscore here, and `_print_byte` is
--     `print_byte_digits`.
--   * Serial.antt: the transfer of a file in drivers/com.c; the port is the list of the bytes to
--     come, and memory the list of its bytes.
--   * Shell.antt: kernel/shell.c. `shell_get_key_code` is what `kb_handler` of Keyboard.antt gives
--     its key.
--   * Ata.antt: drivers/ata.c. A drive is the list of its 512-byte sectors and its identification
--     words.
--   * Fat.antt: fs/fat16.c, on the drive of Ata.antt: names, the search of directories and paths,
--     descriptors, the walk along the chain of clusters, the table of clusters, reads and writes,
--     creation, deletion and extension of files.
--   * Paging.antt: kernel/mem.c: the boot tables, the temporary window, the early and the later
--     mapping of pages, and the regions. Physical memory is a store of frames; the frames come
--     from Frame.antt.
--   * Base.antt: Boolean tests, machine words, arrays with native indices, bits of a byte, bytes
--     of words.
--
-- Conventions. A `uint32_t` is a native number with its wrap-around written out by `u32` and
-- `sub32`. An `int` of fs/fat16.c is given by its 32 bits, and `int_lt` and `int_div` read them as
-- signed. C code that may not return has an `Outcome`: `halted` is an endless loop behind a failed
-- ASSERT, `fault` an access outside an object or through NULL, and `out_of_fuel` a loop of the
-- model that was cut off. The scan of the bitmap has a round for each byte and one more, after
-- which it has left the bitmap; the searches of the heap have a round for each header that the
-- heap has room for, which is more than any free list has (`length-lt-rounds`); the loops that
-- fill the console's window have a round for each of its cells; the loops over the task table have
-- their 32 rounds.
--
-- The invariants. `IsHeap h bs fs` says that the headers of the heap `h` tile it as the blocks
-- `bs`, that no two free blocks are neighbours, that the first block is free, that an allocated
-- block is linked to the one before it, and that the free list is `fs`: the free blocks, by rising
-- size. `IsTable` says that each task knows its slot in a table of 32, and `IsRested` that in
-- addition no switch is due and each task has one to ten ticks left.
--
-- The loops of the later parts. A chain of clusters is followed for at most 2 ^ 16 rounds, one for
-- each cluster number. Reads and writes of a file have a round for each byte that is asked for and
-- one more. A path has a round for each of its characters, a directory a round for each of its
-- entries. The loops over the pages at boot have 257 and 4097 rounds, and the loop over a region a
-- round for each of its pages and one more. The serial port has a round for each 255 bytes of a
-- file and two more, and its buffer one for each place. A buffer of the C code that is read before
-- it is filled is a `fault`.
--
-- Not modelled: `init_task0` and `setup_tss` of kernel/task.c, the setting up of the serial chip,
-- the system calls, the kernel's entry, the boot loader and the user programs; the heap under the
-- files of fs/fat16.c, whose buffers are values here; the polling of the disk's status ports and
-- the registers of the video card; the buffer of translations (TLB) and the switch between page
-- directories. Port accesses and video memory are hardware.
pub mod Base
pub mod Common
pub mod Frame
pub mod Malloc
pub mod Task
pub mod Timer
pub mod Keyboard
pub mod Descriptor
pub mod String
pub mod Vga
pub mod Console
pub mod Print
pub mod Serial
pub mod Shell
pub mod Ata
pub mod Fat
pub mod Paging
