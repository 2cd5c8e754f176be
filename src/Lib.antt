-- ===== src/Lib.antt =====
-- GOATos, a small 32-bit x86 kernel in Rust (kernel/src), as pure functions on explicit state, with
-- theorems about them. A static of the source is an argument and a result of the functions that use
-- it, so a critical section under a lock is one function. Numbers are natural numbers; where a
-- fixed width shows, it is written out. Arrays with a count are lists.
--
-- The parts:
--   * Input, kernel/src/input.rs: the ring of key events between the keyboard interrupt (`push`) and
--     the shell (`pop`). `Queue`, `new`, `push` and `pop` have the source's names.
--   * Keyboard, kernel/src/keyboard.rs: `handle_scancode` and `translate`; it pushes into Input.
--     `handle_all` is a sequence of scancodes. Keyboard.Controller has the handler, `init` and the
--     loop that drains the controller, over a controller that is a parameter.
--   * Task, kernel/src/task/mod.rs: the scheduler. `enqueue_ready`, `dequeue_ready`, `init` and
--     `yield_now` (up to the stack switch) have the source's names, `enlist` is the part of `spawn`
--     under the lock. Task.Switch has the part before, `prepare_stack`, and the routines of
--     kernel/src/task/switch.s on a processor and a memory; Switch.Kept treats the frame on a stack.
--   * Memory.Map, kernel/src/memory/map.rs: the BIOS memory map that `load` reads from low memory.
--   * Memory.Frame, kernel/src/memory/frame.rs: the frame allocator. Frame has the state and `new`,
--     Frame.Ops the operations, whose free list stands in memory (Memory.Ram, one byte at each
--     address); Frame.Cursor, Frame.Runs and Frame.Chain treat the bump cursor, runs of frames and
--     the free list, and Frame.Owners who has which frame, with the allocator's callers as steps.
--     It takes its regions from Memory.Map. Frame.SelfTest is the self-test that runs at boot.
--   * Memory.Heap, kernel/src/memory/heap.rs: the kernel heap, a first-fit free list whose headers stand
--     in Memory.Ram. Heap has the state and operations with the source's names (a pointer is an
--     address, null is 0); Heap.Blocks is the free list as a list of blocks, with `fit`, `join` and
--     `insert` as its operations should work; Heap.Chain relates it to memory; Heap.Take and Heap.Fit
--     treat the search, Heap.Join to Heap.Place the way back, and Heap.Owners to Heap.Release who
--     has which bytes. The lock and the `GlobalAlloc` wrapper only pass on.
--   * Memory.Paging, kernel/src/memory/paging.rs, with `set_page_directory` of kernel/src/tss.rs: the
--     identity map that `init` builds in frames that `allocate` of Memory.Frame gives. Paging.Entries
--     treats one table, Paging.Build and Paging.Rounds the loop over the tables, Paging.Identity the
--     processor's walk of them, Paging.Extent the end of the map, Paging.Install the whole of `init`. The control registers are a
--     record `Cpu`; that a register reads as it was written is the processor's.
--   * Memory.Layout, kernel/src/memory/layout.rs: the boot-time check of stacks, guard page and heap.
--   * Fs, kernel/src/fs.rs: the read-only file system. The disk is a parameter, a function from a
--     sector number and a length to bytes or an error. Overflow panics, as in the default build; Fs.Answers
--     says what each answer of `read_file` means.
--   * Shell, kernel/src/shell.rs: the line editor and the commands. `drain_input` takes the keys from
--     Input, `cmd_cat` reads files through Fs; what is printed is a list of effects, which a panic ends.
--     The library's
--     test for UTF-8 is a parameter.
--   * Vga, kernel/src/vga.rs: the writer of the text screen, with its cursor and scrolling. Vga.Scrolling
--     treats its loops, and Vga.Page compares the screen with a page on which nothing scrolls.
--   * Framebuffer, kernel/src/framebuffer.rs: the fill of the graphics screen.
--   * Serial, kernel/src/serial.rs: the loop that sends a text, over the driver of the library
--     `uart_16550`, a parameter whose documented behaviour is the hypothesis `IsUart`.
--   * Idt, kernel/src/idt.rs: the interrupt descriptor table, a function from vectors to gates.
--   * Pic, kernel/src/pic.rs: the two interrupt controllers. Port writes are a log, and what a port
--     reads as is a function of it, a parameter that stands for the device; Pic.Chip is the mask
--     register as the 8259 documents it, and Pic.Protocol has the end of interrupt.
--   * Interrupts, kernel/src/interrupts.rs: `init` fills the free vectors of Idt with the catch-all;
--     Interrupts.Dispatch is the catch-all itself, which acknowledges through Pic and reports. The
--     addresses of the entry points are a parameter; what is printed is a record.
--   * Gdt, Tss, Exceptions, kernel/src/gdt.rs, kernel/src/tss.rs and kernel/src/exceptions.rs: the
--     segment descriptors (Gdt.Fields reads them as the processor does), the two task state segments,
--     and the registered exceptions with what they report.
--   * Pit, kernel/src/pit.rs: the timer's programming and its interrupt. Drivers runs the interrupts of
--     Pit and Keyboard in any order.
--   * Ata, kernel/src/ata.rs: the disk driver over a bus, any function from the port accesses so far to
--     what a port reads as. Ata.Waiting treats the wait for the drive, Ata.Handshake the order of
--     reads, Ata.Words the words of a sector, Ata.Reading the transfer, Ata.Attempt a whole call, Ata.Steady a drive whose status does not change. Fs shares its error type.
--   * Sync, kernel/src/sync.rs: the lock that handlers can take again.
--   * Boot, kernel/src/main.rs: `take_over` and `start_drivers` call the inits of Tss, Gdt, Idt,
--     Exceptions, Pic, Interrupts, Pit and Keyboard in the order of `kernel_main`;
--     Boot.Seconds has the rounds of `shell_task` and `demo_counter_task` that report each second.
--   * Base: lists, tests, rings and bytes that the parts share.
--
-- The loops of `allocate` and `allocate_contiguous` run on fuel, `work` and one round more: `work` is
-- the number of frames and regions in front of the cursor, which falls in every round, so the loops
-- never run out (Frame.Cursor). `drain` of the shell runs on as much fuel as keys wait and one round
-- more (Shell.Draining), and `send` of the serial port on `budget` (Serial.Sending). The two loops of
-- the heap run on `steps`, one more than the number of blocks that the heap has room for (Heap.Blocks).
-- The waits of the disk driver have the source's bound, `spin_limit`, as their fuel. Other loops recurse
-- on the list or the count they go through.
--
-- Not modelled: Display and reports, the self-tests of the heap and the file system, and the rest of
-- kernel/src/main.rs (output and glue); kernel/src/graphics.rs, which the kernel does not call; the port
-- instructions and other assembly, but for the stack switch; the debug triggers. The addresses that the
-- linker gives, and what devices answer, are parameters.
pub mod Ata
pub mod Base
pub mod Boot
pub mod Drivers
pub mod Exceptions
pub mod Framebuffer
pub mod Fs
pub mod Gdt
pub mod Idt
pub mod Input
pub mod Interrupts
pub mod Keyboard
pub mod Memory
pub mod Pic
pub mod Pit
pub mod Serial
pub mod Shell
pub mod Sync
pub mod Task
pub mod Tss
pub mod Vga
