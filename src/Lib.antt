-- ===== src/Lib.antt =====
-- LycheeOS, a small operating system for one i386 processor with one ATA disk, in C and
-- assembly. This library models its kernel's C code and states what that code does.
--
-- The program. The loader starts init/kmain.c, which divides the memory into the system, the
-- buffers and main memory and calls the initialisation of each part. Then everything runs in
-- processes and interrupts. A process that reads or writes a device calls fs/block_dev.c, which
-- works block by block on the buffer cache of kernel/buffer.c. The cache keeps blocks in a table
-- of buffers; to fill or write back one it calls kernel/blk/rw_blk.c, which locks the buffer and
-- puts a request into the queue of the device. The disk driver kernel/blk/hd.c serves the first
-- request of its queue, and its interrupt functions end the request in kernel/blk/blk.c, which
-- unlocks the buffer. A process that must wait sleeps in kernel/sched.c on a chain of processes
-- that runs through their stacks, and the scheduler there chooses the next process; the timer
-- interrupt takes the processor away. mm/memory.c hands out pages and keeps the page tables.
-- kernel/chr/tty.c holds the key queues between the keyboard, the console and the readers.
-- kernel/kernel.c fills the descriptor tables, and kernel/ktime.c turns the clock's date into
-- seconds.
--
-- The files.
-- Base: shared names, tests on numbers, C arrays as lists, 32-bit words, checks by evaluation.
-- Ktime: include/time.h and get_startup_time; Calendar counts the days independently.
-- Kernel: the gates and descriptors of kernel/kernel.c, with include/kernel.h. The records
-- Descriptor and Gate are the packed structures, the IDT is a function of the vector.
-- Process: the fields of struct_process that the models read.
-- Sched: schedule, the timer interrupt, sys_pause, and sleep_on split at its call of schedule
-- into sleep_enter and sleep_leave, so that an interleaving is a sequence of these steps and
-- wake_up. Interruptible is about interruptible_sleep_on.
-- Tty: the two queues of a terminal with their pointers as indices, or none for NULL,
-- get_key_from_tty_read, tty_read, get_char_from_write, and the table of terminals
-- (get_empty_tty). Queue has the queues with pointers in their arrays, Lost those without.
-- Buffer: struct_mem_buffer. Blk: the request table with its `next` links as indices,
-- add_request, rw_blk, end_request. Blk/Insert relates a linked queue to the list of its entries
-- (Chain); Blk/Requests is about one request, Blk/Reachable about any sequence of them (Steps), Blk/Draining
-- about a queue that empties.
-- Cache: all of kernel/buffer.c on the state Io of Blk. Lookup, Reading, Dirty and Layout hold
-- the proofs, Unique those about two buffers for
-- one block, and Fetching follows a block from the device through the queue into its buffer.
-- Fs/BlockDev: block_read and block_write on Cache; Loaded describes the blocks that valid
-- buffers hold.
-- Fs: the tables of inodes and super blocks of fs/inode.c and fs/super.c, and commands on them,
-- with the interface BufferCache through which they use kernel/buffer.c; cache_of fills it with
-- the functions of Cache, and Laws says what the proofs ask of it (IsCache). Disk: the
-- structures on the disk and the bit operations of oslib/string.asm. Super: fs/super.c. Inodes:
-- reading, writing, finding and claiming entries. Release: put_inode, new_inode. Mapping:
-- ib_map_helper. Bitmap: fs/bitmap.c. Truncate: fs/truncate.c.
-- Names: fs/namei.c on Fs, with strlen and strchr of oslib/string.asm. Adding has add_entry and
-- Paths has get_dir and namei; Matching, Searching, Growth and Walking say what is_match,
-- find_entry, add_entry and namei do.
-- Files: the calls of fs/rw.c with fs/file_dev.c, fs/chr_dev.c and tty_write on the file system,
-- the block devices, the terminals and the screen together (System). Regular has file_write and
-- file_read, and Messages has kernel/printfs.c. Printing is about a terminal whose queue pointers
-- are set, and Lost about the terminals that the kernel sets up, whose pointers are NULL.
-- Interrupts: kernel/interrupt.c and kernel/i8259.c on the gates of Kernel, with the port writes
-- as a list.
-- Keyboard: kernel/chr/keyboard.c and sys_key_process of kernel/chr/tty.c; Keymap is
-- include/keymap.h, Keys is keyboard_read, Locks the end of it that no path reaches, and Task
-- has init_tty, set_current_tty and task_tty.
-- Screen: kernel/chr/console.c on a memory of bytes and the port writes as a list; Editing has
-- what moves the cursor and the text, console_write and console_init. The keys come from Tty.
-- Hd: the driver's state and its commands as a list of port accesses; Requests has do_hd_request
-- and the interrupt functions, Init has hd_init and Install its end.
-- Mm: the memory as aligned words, the use counts of pages, and the operations of mm/memory.c;
-- memcpy is the one of oslib/string.asm.
-- Fork: kernel/fork.c on the memory of Mm. A process structure is the words at its address; At
-- has the offsets of its fields.
-- Vsprintf: atoi, do_div and number of kernel/vsprintf.c; number is what it appends to the
-- string. Format has the loops of vsprintf over the format.
-- Syscall: the table of kernel/syscall.c and the choice of the function in kernel/syscall.asm.
-- Kmain: the start in init/kmain.c. Kmain itself has the bounds of memory with mem_init and
-- mem_buffer_init, FirstProcess has sched_init and the descriptors of process 0, and Drivers has
-- timer_init, blk_dev_init and read_cmos.
-- The files called Tests hold runs at concrete inputs.
--
-- How the code is modelled. Numbers are natural numbers with the wrap-around of their C type
-- written out where the code can reach it. Pointers into arrays are indices; -1 and NULL are
-- `none`. A function that halts the machine, goes through NULL or reads a variable before it is
-- set has that as a result of its own; a queue of a terminal has a mark for it (astray), at which
-- tty_write and tty_read end. Interrupts and other processes act while a process
-- sleeps: what they do then is a parameter (`others`), as are the start function of a device,
-- the bytes of a status register, and functions that the repository calls and declares nowhere
-- (ll_rw, free_page, iput, free_super, blk_read, read_byte_from_keyboard). What a register holds
-- where a function of C returns no value is a parameter too (`junk`), and so are the registers,
-- variables and bytes that fs/namei.c reads without having set them (Around in Names).
--
-- Bounds and fuel. Loops over tables recurse on the number of entries left. Loops without a
-- bound recurse on fuel, and running out of it is a result: find_place in Blk (the fuel is the
-- number of entries of the queue), block_read and block_write (as much as there are bytes),
-- place_buffers (as much as the end address has bytes), get_super and get_inode (one more than
-- there are entries, when no entry is locked), console_write (one more than there are keys), the
-- waits for a lock or a free request (one round if there is nothing to wait for), the write-back
-- of a dirty buffer, tty_read's wait for a key, find_entry (one more than there are entries),
-- add_entry (one more than the number of the entry it finds), get_dir (one round for each
-- directory), vsprintf (one more than the format has characters),
-- interruptible_sleep_on (one more than others head the chain).
--
-- Not modelled. The conversions of vsprintf, which no path reaches, and messages that are printed on the way to a halt. The boot loader, interrupt entries and
-- port operations in assembly are not C. The way of kmain into user mode is left out. The data
-- that the disk moves is recorded as a port access and not copied. Positions in a device are
-- taken below 2^31.
pub mod Base
pub mod Ktime
pub mod Kernel
pub mod Mm
pub mod Tty
pub mod Process
pub mod Sched
pub mod Buffer
pub mod Blk
pub mod Cache
pub mod Fs
pub mod Files
pub mod Fork
pub mod Hd
pub mod Interrupts
pub mod Keyboard
pub mod Screen
pub mod Vsprintf
pub mod Names
pub mod Kmain
pub mod Syscall
