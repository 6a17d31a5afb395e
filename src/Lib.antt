-- ===== src/Lib.antt =====
-- A small Unix-like kernel for one x86 processor, student-distrib/: a read-only file system, system
-- calls for processes and files, drivers for the keyboard, the real-time clock and the interrupt
-- controllers, and the C library that they share. The model is of the parts named here.
--
-- Base         helpers: Boolean tests, lists, tables, bits; machine integers (types.h) in Base.Word.
-- Memory       student-distrib/lib.c: memcpy, memmove, memset, memset_word, memset_dword with their
--              inline assembly; Memory.Text: strlen, strncmp, strcpy, strncpy, strrev, itoa.
-- Io           what a driver does to the machine: port reads and writes, cli, sti.
-- Kernel       the global variables that the file system and the system calls share: fs_t, dentry_t,
--              file_struct_t, pcb_t of filesystem.h and systemcalls.h, fd_val, fd_index, fd_rtc, cr3.
-- FileSystem   student-distrib/filesystem.c: init_fs, read_dentry_by_name, read_dentry_by_index,
--              read_data.
-- SystemCalls  student-distrib/systemcalls.c: open (open_file), close (close_file), find_pid, with
--              filesystem_open, filesystem_close and dirclose of filesystem.c.
-- Processes    student-distrib/systemcalls.c: execute, halt, with the loader of filesystem.c, up to
--              the inline assembly that leaves the kernel.
--              Processes.Nesting: runs of programs that call programs.
-- Files        student-distrib/filesystem.c: dirread, filesystem_read, filesystem_write, diropen,
--              dirwrite; getargs, vidmap, set_handler and sigreturn of systemcalls.c.
-- Commands     student-distrib/systemcalls.c: parse_cmd, which splits a command line.
-- Pic          student-distrib/i8259.c: i8259_init, enable_irq, disable_irq, send_eoi.
-- Rtc          student-distrib/rtc.c, every function.
-- Keyboard     student-distrib/keyboard.c: shift, and read_keyboard (read_key) up to its call of
--              keyboard_read; the whole of it is in Console.
-- Screen       student-distrib/lib.c: setx, sety, setxy, get_char, clear, putc, puts, printf, on the
--              video memory.
-- Terminal     student-distrib/terminal.c: set_cursor, terminal_open, terminal_close, multi_init,
--              get_pid_from_cr3 and terminal_switch.
-- Console      student-distrib/terminal.c: keyboard_read, read_helper, write_helper, terminal_read,
--              terminal_write; read_keyboard of keyboard.c.
-- Idt          student-distrib/idt.c: init_idt and the functions that write a gate. The addresses
--              of the handlers are a parameter. Idt.Exceptions: the handlers of the exceptions.
-- Paging       student-distrib/pagefile.c: paging_init; Paging.Walks: what addresses mean under its
--              tables, by the processor's walk (`translate`), which the Intel manuals describe. The
--              addresses that the linker gives the tables are a parameter.
-- Machine      the variables of the kernel and of its terminals together.
-- Calls        student-distrib/systemcalls.c: read, write and the jump tables that they call through;
--              Calls.System: the kernel as the interface that the programs call.
--              Calls.Printing: what a program's text does to the display, by the description
--              of a terminal in Console.Display. Calls.Copying, Calls.Directory: cat and ls over
--              the kernel.
-- Boot         student-distrib/kernel.c: entry, with the segment descriptors of x86_desc.h and the
--              structs of multiboot.h (Boot.Descriptors, Boot.Multiboot). Where the linker puts things
--              is a parameter (`Linked`).
-- Programs     syscalls/ece391support.c, and under Programs the programs: Cat, Ls, Shell, Grep
--              (ece391grep.c), Counter (ece391counter.c, ece391hello.c). The system calls are an
--              interface, `Os`, over any type of states that hold the program's memory; theorems about
--              a program name what they need of it as laws (Serves, Prints, Lists,
--              Obeys).
--
-- How the parts meet. The system call open runs the file system's lookup, which compares names with
-- strncmp, and the clock's rtc_open, which unmasks two lines of the interrupt controllers; close
-- runs the file system's close. read_data copies blocks with memcpy. A key's interrupt goes from
-- read_keyboard to keyboard_read, which writes with putc, fills the line that terminal_read hands to
-- a program, or switches the terminal, by memcpy between the display and the place where each
-- terminal's screen is kept. execute runs parse_cmd and the loader, which runs read_data; halt runs
-- close. Each is here the composition of the same definitions. A function that changes globals takes
-- them and returns them; port accesses are returned as a list in order, and what `inb` delivers is
-- an argument.
--
-- Memory is a function from addresses to bytes. The kernel's own variables stand outside it: a
-- buffer that a program passes is taken not to lie on them, which the kernel does not check.
-- Pointers are numbers; addresses computed from the file system image wrap at 2 ^ 32, and a block
-- that a routine copies or fills is taken not to wrap round the address space. A `uint32_t` or an
-- `int32_t` is a number below 2 ^ 32, -1 being 2 ^ 32 - 1. Arrays that the source overruns are
-- written out: the search in open reads, and close may write, the start of `dentry[0]` behind
-- `file_struct[7]`; a scancode that is not in the key table reads what stands behind it, which is
-- an argument; parse_cmd may write, and getargs read, the bytes behind the control block, which are
-- a field (`behind`). The value of `charval` where the source does not set it is an argument.
--
-- Loops. A counted loop is recursion on the rounds to go. The loop of read_data has fuel for one
-- round more than the bytes to copy, since every round copies at least one. The loops over powers of
-- two in rtc_write and rtc_set have fuel for eleven rounds; they end after at most ten, with the
-- bound 1024. strlen, strcpy and strrev have no bound in the source and take fuel; more than the
-- length of the string is enough, and for dirread also more than the entries that it skips. `none`
-- stands for fuel that ran out, and in open_file also for the path on which open goes on with an
-- index that it never set. Waiting in rtc_read takes the number of interrupts that arrive.
--
-- itoa has fuel 33, one digit more than a 32-bit number has bits. puts and printf have fuel for the
-- length of what they write; a loop over the display or the line buffer is counted. read_helper
-- waits for the return key, and `none` stands for its waiting; where it and write_helper return a
-- value that the source never set, the value is `none`.
--
-- Processes. The memory of a program is a function of its own for each task. execute ends as one of
-- three outcomes: it returns, it reports that no slot is free, or it enters the program; halt ends
-- as a new shell or as the return of the caller's execute, with the registers that it loads. The
-- fuel of execute is for the strlen of parse_cmd.
--
-- Boot. The report prints through printf, whose fuel is a parameter; its loops over the modules and
-- the memory map have fuel too, since the boot loader's words bound them. entry ends in one of two
-- outcomes: it returns early, or execute ends.
--
-- Programs. String literals and local arrays stand at addresses that are parameters. A loop of a
-- program has fuel for its rounds, `none` standing for fuel that ran out and for a call that does not
-- return. In the kernel's instance the value of a call that the source never sets, as that of the
-- terminal's write, is a parameter; the kernel fills the laws of reading a file, of
-- reading a directory and of printing (Calls.Serving, Calls.Directory, Calls.Printing). Those of the
-- shell (Obeys) allow both what this kernel's read returns of a line and a count with the newline;
-- who types, and what the executed programs do, is not modelled.
--
-- Not modelled: getx and gety, which are fields here, and test_interrupts; the assembly files; the
-- message that execute writes when no slot is free; of syscalls/, pingpong, testprint, sigtest, the
-- test program syserr and the stand-in emulate, which calls a host's Linux; fish/.
pub mod Base
pub mod Memory
pub mod Kernel
pub mod FileSystem
pub mod Io
pub mod Pic
pub mod Rtc
pub mod Keyboard
pub mod SystemCalls
pub mod Paging
pub mod Commands
pub mod Screen
pub mod Terminal
pub mod Console
pub mod Idt
pub mod Processes
pub mod Files
pub mod Machine
pub mod Calls
pub mod Boot
pub mod Programs
