-- ===== src/Lib.antt =====
-- psychOS: a model of the kernel's components under student-distrib/, and their correctness.
--
-- The program is an operating system kernel for x86: a library of strings, block operations and a
-- byte ring, a read-only file system in memory, three terminals over one screen with a keyboard
-- driver, processes, system calls, paging and device drivers. It stands on one C file per part;
-- each part below has the module named for it.
--
-- Base            the helpers that the modules share: native numbers, lists, words, memory
-- ByteQueue       the abstract queue of bytes that the ring promises
-- CircularBuffer  student-distrib/lib/circular_buffer.c; pointers are addresses into one memory
-- Str             student-distrib/lib/lib.c: strlen, strncmp, strcpy, strncpy, strrev, itoa
-- MemOps          student-distrib/lib/lib.c: memset, memset_word, memset_dword, memcpy, memmove,
--                 loop by loop of their inline assembly
-- Fs.Image        student-distrib/include/fs/ece391_fs.h: the image, its entries and inodes
-- Fs.Driver       student-distrib/fs/ece391_fs.c
-- Fs.Files        student-distrib/fs/fs.c: the operations of files and of the directory
-- Tty.State       the static variables of student-distrib/tty/terminal.c
-- Tty.Screen      its output side: video memory, cursor, scrolling, switching, clearing
-- Tty.Keys        keyboard_putc: line editing with its echo
-- Tty.Keyboard    keyboard_handler over the scancodes that are ready, and the tables of
--                 student-distrib/tty/keyboard_map.c
-- Tty.Calls       terminal_open, terminal_close, terminal_read, terminal_write and the set-up
-- Printf          student-distrib/lib/lib.c: printf and puts; Printf.Calls has the calls that the
--                 kernel writes, a literal format with its arguments
-- Pic             student-distrib/arch/x86/i8259.c: masks, and the bytes sent to the ports
-- Process.State   the control block of student-distrib/include/arch/x86/task.h, and the kernel's state
-- Process.Addresses, Process.Command
--                 the address functions and parse_command of student-distrib/arch/x86/task.c
-- Process.Scheduler
--                 student-distrib/drivers/pit.c: the choice of the next process, and the switch
-- Process.Clock   student-distrib/drivers/rtc.c: the clock of each process
-- Process.Descriptors
--                 syscall_open and syscall_close of student-distrib/kernel/syscall.c, and
--                 open_stdin_and_stdout of student-distrib/arch/x86/task.c
-- Process.Transfer
--                 syscall_read, syscall_write, syscall_getargs and syscall_vidmap, with the dispatch
--                 to the operations of the descriptor's table
-- Process.Programs
--                 loading, kernel_run_first_program, syscall_execute and syscall_halt
-- Paging          student-distrib/arch/x86/paging.c; Paging.Translate says what the processor makes
--                 of its tables
-- Interrupts      student-distrib/arch/x86/interrupt.c and the gates of
--                 student-distrib/include/arch/x86/x86_desc.h
-- Segments        the segment descriptors and the task state segment of that header
-- Exceptions      exception_handler of student-distrib/arch/x86/interrupt.c
-- Boot            entry of student-distrib/kernel.c, over the multiboot information in memory
-- KernelTests     student-distrib/kernel/tests.c: the tests that Ctrl and a digit start
-- User.Calls      syscalls/ece391syscall.h: the system calls as a program sees them
-- User.Support    syscalls/ece391support.c: the string library of the programs
-- User.Errors     syscalls/ece391syserr.c: the program that tries wrong system calls
-- User.Programs   syscalls/ece391cat.c, ece391ls.c, ece391hello.c, ece391testprint.c,
--                 ece391shell.c and ece391counter.c
-- User.Grep, User.Pingpong
--                 syscalls/ece391grep.c and ece391pingpong.c
-- User.KernelCalls
--                 the system calls of student-distrib/kernel/syscall.c in the form of User.Calls
--
-- The terminals hold a circular buffer each, and the screen functions are called by the line
-- editor for its echo. The file calls go through the driver; lookups use strncmp and strncpy of
-- the library. Functions keep their C names, and the memory they change is passed on.
--
-- Numbers are native; a uint32_t or uint8_t keeps its wrap-around where the code can reach it.
-- Loops over a count recurse on it. Loops up to a NUL, and the digit loop of itoa, take fuel and
-- are `none` without enough of it; the theorems about them show that fuel above the length of the
-- string, or above the number of bits of the number, is enough. The loop of read_data has the
-- length asked for and one more as its fuel, and each round reads a byte or stops.
--
-- A call that waits for interrupts takes the list of what they do, or how many there are, and is
-- `none` where they run out before the wait ends. Registers of chips that are read are arguments.
--
-- The image of the file system is not part of the memory that buffers live in, and an output
-- buffer or video memory is an array of words of its own. Interrupt flags are not modelled, since
-- the code runs with interrupts off but for its waits. Not modelled are the assembly entry points
-- and single port instructions; of the programs, the layer of
-- syscalls/ece391emulate.c that runs them on Linux, ece391sigtest.c, whose signals the kernel does
-- not have, and fish/, whose drawing is assembly.
--
-- A program is written over a record of system calls, and passes a buffer as its bytes. What a
-- system promises a program is a record too, User.Programs.Prints.Delivers and
-- User.Programs.Runs.Console; the tests of wrong calls are run on the kernel's own functions.
pub mod Base
pub mod ByteQueue
pub mod CircularBuffer
pub mod Str
pub mod MemOps
pub mod Fs
pub mod Tty
pub mod Printf
pub mod Pic
pub mod Process
pub mod Paging
pub mod Interrupts
pub mod Segments
pub mod Exceptions
pub mod Boot
pub mod KernelTests
pub mod User
