-- ===== src/Lib.antt =====
-- A dynamic memory allocator over a simulated heap: mm.c, on the data segment of memlib.c, with the
-- structures that mdriver.c, fcyc.c and clock.c test and time it by.
--
-- mm.c keeps its blocks in the bytes between memlib.c's `heap` and `mem_brk`. Every block starts with
-- a header word and ends with a footer word, which hold its size and whether it is in use; the first
-- two payload words of a free block link it into the free list, whose head is `mm_free_head`. A
-- prologue and an epilogue of 8 and 16 bytes enclose the blocks. The client calls `mm_init`, `malloc`,
-- `calloc`, `realloc` and `free`.
--
-- Memory, Machine: what the C code runs on. Memory is a function from addresses to bytes, words are
--   eight bytes in little-endian order, and a command takes a state (memory and the static variables of
--   memlib.c and mm.c) to a result and a state, to a fault at an unmapped address, to an abort at a
--   failed assert, or to the end of its fuel.
-- Memlib (memlib.c): the break. Memlib.Break: what `mem_sbrk` promises.
-- Mm.Block (mm.c, lines 42 to 141): tags, footers and links. Mm.Block.Access: how they read back.
-- Mm.FreeList (`block_append`, `block_remove`): Links says what a linked list in memory is.
-- Mm.Heap: what the bytes stand for: blocks without gaps, tags, and the free list over the free ones.
-- Mm.Policy: the abstract allocator, on a list of blocks and a list of addresses, without memory:
--   first fit, last-in first-out, splitting and merging. `Represents` relates a state to it.
-- Mm.Alloc (`mm_init`, `create_space`, `split`, `find_fit`, `malloc`), Mm.Free (`coalesce_left`,
--   `coalesce`, `free`), Mm.Client (`realloc`, `calloc`): the code, and how it follows the policy.
-- Mm.Session: runs of a client as a step relation. Mm.Check: `mm_checkheap`.
-- Driver (mdriver.c): the data of the test driver, its range list (Driver.Ranges) and the random data
--   that it fills blocks with (Driver.Payload). Driver.Eval: `eval_mm_valid`, which runs a trace on mm.c;
--   its children take the operations one by one (Alloc, FreeStep, ReallocStep and
--   ReallocDone, ReallocZero; Checked for what is checked before each), and then whole traces (Trace).
-- Driver.Balanced: the traces that keep the rules of a client, and the space that they ask for.
--   Driver.Held: the pointers that a trace holds against the blocks in use.
-- Driver.Scan: the conversions of `fscanf`, on a list of bytes. Driver.ReadTrace (`read_trace`): Print
--   and RoundTrip for traces in the format of the files, Lines, Loop and Ends for any file. What fresh
--   memory held is an argument; the loop over the lines has as much fuel as the file has bytes left and
--   one more, and each line takes a byte.
-- Driver.Util (`eval_mm_util`): Usage is the reference for its high-water mark, Tracked and Rooms relate
--   the sizes in the trace to the heap, Steps, Releases and Whole follow the code.
-- Driver.Speed (`eval_mm_speed`), Driver.Libc (`eval_libc_valid`, `eval_libc_speed`): the other runs of
--   a trace. The C library's allocator is a record of operations on a state of its own.
-- Driver.RunTests (`run_tests`): the files of traces, read, checked, measured and timed. Scores says
--   what a file holds and what is recorded of it; Errors, Repeat and All follow the code.
-- Driver.Options (`main`, the loop over `getopt`): Given says which options count, Last that the loop
--   follows it.
-- Fcyc (fcyc.c): the K-best timing, over an ordered type in place of `double`. Clock (clock.c): the
--   subtraction of two readings of the cycle counter.
-- Fcyc.Cache and Fcyc.Clear: the buffer by which the cache is cleared; its loop has as much fuel as the
--   buffer has bytes and one more, and each round takes four of them. Fsecs: the parameters that
--   fsecs.c sets. Ftimer: the other two timers, over a record of the operating system's calls.
-- Examples: concrete heaps, and the theorems at them.
--
-- Pointers, `size_t` and `long` are numbers below 2^64, with `add64`, `sub64` and `mul64` for their
-- arithmetic. `find_fit` and the loops of `mm_checkheap` run on as much fuel as the heap has bytes and
-- one more; each round visits another block, and a block has 32 bytes or more, so on a well-formed heap
-- they end. `static` variables start at 0. `memcpy` and `memset` of the C library touch exactly the
-- bytes they are called for.
--
-- Not modelled: printing; `mem_deinit` and `mem_pagesize`, which call the operating system; in
-- mdriver.c the rest of `main` with the scores, and the division of the two numbers that
-- make the utilization; in clock.c the calibration, which divides `double` values.
pub mod Prelude
pub mod Memory
pub mod Machine
pub mod Memlib
pub mod Mm
pub mod Clock
pub mod Fcyc
pub mod Fsecs
pub mod Ftimer
pub mod Driver
pub mod Examples
