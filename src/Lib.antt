-- ===== src/Lib.antt =====
-- Systems programs of the repository, modelled and proved part by part.
--
-- A3/queue.c, a queue of pointers (modules Queue.*). `Memory` holds the items at their
-- addresses, NULL being 0; a dereference of NULL or of a freed item is a fault. `Ops` has one
-- function for each of the file. The address that `malloc` returns is an argument, which may be
-- that of an item that has been freed. Loops run on fuel, one round for each item.
--
-- A3/thread.c and A3/thread_table.c, cooperative threads (modules Threads.*). `State` holds the
-- structs and the static variables; `Table` is thread_table.c; `Yield`, `Join`, `Mutex`, `Cond`
-- and `Lifetime` are the functions of thread.c, and `History` is a program that calls them. The
-- queues of thread.c are lists here, first to last, as the theorems on Queue say that they
-- behave. The context switch is the change of the current thread. The fuel of detect_deadlock
-- bounds the rounds of its loop; a pointer that it follows to no live TCB is a fault.
-- thread_cleanup destroys the queues of mutexes and conditions: such an object is not live any
-- more until it is initialized again.
--
-- A2/P2/vmx20.c, the simulator of the vmx20 processor (modules Vmx.*). Words are bit patterns
-- below 2 ^ 32, and signed arithmetic wraps. `State` holds the structs and status codes,
-- `Decode` op_name, op_format and the fields of a word, `Memory` getWord, putWord and
-- getAddress, `Execute` executeInstruction with one function for each case of its switch, `Load`
-- initVm and loadExecutableFile, `Disassemble` disassemble, `Run` fetchDecodeExecute and
-- execute. A read that C leaves undefined (a fetch beyond the memory, INT_MIN / -1) has no
-- result. The `float` operations are the parameter `FloatUnit`. A loop of one core runs on fuel;
-- several cores run by a schedule, in which an instruction is two steps: the fetch of its word,
-- which holds no lock, and what is done with the word, where each access to the memory holds the
-- lock.
--
-- A2/P1/linkx20.c, the linker of vmx20 object files (modules Linker.*). A file is the list of
-- its words. `Object` holds the structs, extract_symbols and the loops of main that read the
-- files, `Output` generate_output_file and the rest of main. A section of symbols of the output
-- is the list of its entries. A read or a write outside of a buffer has the result `undefined`,
-- and so have symbol sections that do not consist of whole symbols. Each loop is recursion on
-- the list it walks. `Loads` and `Whole` relate the output to loadExecutableFile of the
-- simulator.
--
-- A4/alloc.c, an allocator with a garbage collector (modules Alloc.*). The heap is the list of
-- its blocks along `next`, at addresses counted in words; a pointer counts bytes, and the heap
-- is aligned. `Blocks` holds memInitialize, nextBlockOfSize, the allocation of memAllocate from
-- the block that is found, getBlock, and the second step of markAndSweep; `World` the rest of
-- the memory, which is read byte by byte, and `Scan` the first step of markAndSweep, which marks
-- what is in use, and memAllocate. An allocation that writes a header behind the block it takes
-- is an outcome of its own, since the heap is no list of blocks any more. A finalizer is
-- recorded when it is called. The loops for roots have the 100 iterations of the code; the one
-- for a word of the heap has no limit there and runs on fuel, which no number bounds, as a
-- theorem shows. Passes over the heap run on fuel too, one for each block and one more. `Dump`
-- is memDump: the lines it prints, each frame, block and word a value.
--
-- A1/P2/dsx20.c and A1/P2/dsx20_linear.c, disassemblers of vmx20 object files (modules Dsx.*). A
-- file is the list of its words, and a line of the listing its address, word, name and operands.
-- `Tables` holds the opcodes and op_name and op_format of both programs, `Parse` parse_code,
-- `Object` read_file, read_insymbols and read_outsymbols, `Print` print_code, `Listing` main,
-- and `Linear` read_code and main of dsx20_linear.c. An access beyond a buffer has no result.
-- The loop of parse_code goes back to new labels; its fuel is (count + 1) ^ 2 + 1, since each
-- round goes on by a word or marks one more of count + 1 words.
--
-- A1/P1/binary_info.c, which prints what an ELF file says of itself (modules Elf.*). A file is
-- the list of its bytes. `File` holds the layouts of the structs of A1/P1/elf.h that are read,
-- for both classes, `Text` the names that are printed for numbers, `Dump` print_header,
-- string_dump and list_sect_headers, `Symbols` symbol_dump and dynsym_dump, `Program` main. A
-- read beyond the file has the result `undefined`.
--
-- Not modelled: printTrace and the text that disassemble prints (its operands are kept), the
-- allocation and freeing of cores, failures of pthread calls, cleanup of the simulator; the
-- saved registers and the stacks of threads; failures of malloc in the threads, which end the
-- program; the name of the linker's output file, and failures to read or write files; freeAll,
-- and what finalizers do.
mod Common
pub mod Vmx
pub mod Queue
pub mod Threads
pub mod Linker
pub mod Alloc
pub mod Dsx
pub mod Elf
