-- ===== src/Lib.antt =====
-- TempOS, a small kernel for i386: its lists, its memory manager and the start of paging, its tables of interrupts, its scheduler with wait queues
-- and timer, its process numbers, its driver of ATA disks, its cache of disk blocks, its table of
-- i-nodes, its lookup of path names, its reader of ext2, its queues of interrupt handlers, its
-- buffer of keys, its tables of partitions, and its functions for strings and formatted output.
--
-- The parts and the files:
--   LinkedList     kernel/lib/linkedl.c: singly linked lists over nodes from kmalloc. Each function
--                  of the C file is a function of the same name over a heap, `Heap`.
--                  LinkedList/Cells says when a heap holds a list; Add, Remove, Lookup and Destroy
--                  have the theorems.
--   CircularList   kernel/lib/clinkedl.c: circular lists with links both ways, over `Memory`. Rings
--                  says when memory holds a list; Edit, Remove, RemoveNth, Lookup and Destroy have
--                  the theorems.
--   Mm/Bitmap      kernel/kernel/mm/init_mm.c: the bitmap of the pages in use.
--   Mm/Pages       alloc_page and free_page of kernel/arch/x86/mm/mm.c: the stack of free pages.
--   Mm/Paging      the start of paging in kernel/arch/x86/mm/mm.c, each loop by itself: Early is about
--                  kmalloc_e, Tables about make_kerneldir and the mapping of the kernel, Regions about
--                  the memory map, Fill about the stack of free pages that Mm/Pages hands out.
--   Interrupts     setup_IDT of kernel/arch/x86/idt.c, in Gates, and kernel/arch/x86/kernel/i8259A.c,
--                  in Pic.
--   Mm/Vmalloc     kernel/kernel/mm/kmalloc.c: `_vmalloc_`, kmalloc and kfree, over the bitmap and
--                  the stack of pages. Search is about the walk over the bitmap, Alloc about the
--                  pages that are taken, Free about kfree.
--   Pids           get_new_pid, release_pid and init_pids of kernel/kernel/fork.c.
--   Tasks          kernel/kernel/sched.c, wait.c, timer.c, the end of threads in thread.c, and
--                  switch_to of kernel/arch/x86/kernel/task.c, over one `System`. RoundRobin and
--                  Stuck are about schedule, Time about the clock, Wait and Cycle about sleep_on
--                  and wakeup, Alarms about the timer's interrupt.
--   Irq            kernel/arch/x86/kernel/irq.c: Request is about request_irq, Dispatch about
--                  init_IRQ and do_irq.
--   Keyboard       kernel/drivers/char/i8042.c: the buffer of keys. Fifo sees it as a queue, Bounds
--                  is about its positions.
--   Vfs            kernel/fs/vfs.c. FreeInodes is the free list of the i-nodes, Table their hash
--                  table, Iget and Collision are about vfs_iget, Register about the start, Bmap
--                  about vfs_bmap and _ipow.
--   Ext2           kernel/fs/ext2/ext2.c: Size is about div_rup and get_block_size, Layout about the
--                  tables of i-nodes and their fields, Inode about ext2_get_inode, Block about ext2_get_fs_block.
--   Namei          kernel/fs/namei.c: Path and Split are about vfs_namei, Block and Search about the search
--                  for a component in a directory.
--   Ata            kernel/drivers/block/ata_generic.c: Ports is what is sent for a sector, Program and Bytes
--                  are about the address and the data of it, Queue about new requests, Serve about the
--                  handlers, Lost about requests that are not served, Identify about the search for disks.
--   Bhash          kernel/fs/bhash.c: the buffers of a disk in a hash table and a free list. Create
--                  is create_hash_queue, Free the free list and brelse. create_hash_queue loses the
--                  pointer to the table, so no queue of the program has chains, and nothing is
--                  proved of those.
--   Partitions     kernel/fs/partition.c: parse_mbr, in Size, and translate_part_address.
--   Devices        kernel/fs/devices.c: the tables of drivers.
--   Chars          kernel/lib/ctype.c.
--   Locks          kernel/lib/semaphore.c and kernel/arch/x86/kernel/atomic.c: the mutex, as steps.
--   Cmdline        kernel/kernel/cmdline.c: Parse says that parse_cmdline ends and stays in its arrays, Line
--                  is a line of arguments in memory, Rounds and Found are about the table that is made of
--                  it, Value about cmdline_get_value.
--   Strings        kernel/lib/string.c over the memory of bytes. Scan is about the functions that
--                  look for bytes, Copy and Concat about those that write, Compare about strcmp.
--   Numbers        atoi of kernel/lib/stdlib.c and numtostr of kernel/lib/printf.c: Digits and
--                  Reverse are the loops of numtostr, Extent is about what it writes, Sign about
--                  negative numbers.
--   Printf         vsprintf of kernel/lib/printf.c: Plain is about formats without conversions,
--                  Decimal about one decimal conversion.
--   Ring           circular lists with links both ways, which several parts of the kernel use.
--   Base           the outcome of C code, Boolean tests, lists, bits of bytes.
--
-- How the code is read. State is passed along: the heap of nodes (`Heap`, `Memory`), the memory map
-- `Vm`, the stacks `Pages` and `Pids`, the buffer queue `Queue`, the `System` of tasks, the table
-- `Inodes`. A pointer is a number and NULL is 0; the fields of objects at addresses are functions
-- of the address, or the heap maps the address to a node. What C leaves undefined (an access
-- through NULL, to freed memory or out of an array) is the outcome `fault` where the code can meet
-- it. Words of 32 bits wrap around where the code counts on them.
--
-- How the parts interact. `_vmalloc_` takes pages from `alloc_page` and turns on bits with
-- `bmap_on`; kfree gives pages back with `free_page` and calls `bmap_off`. The lists take nodes
-- from kmalloc, whose answer is an argument of `llist_add` and `c_llist_add`. The cache of blocks
-- calls the driver of the disk and sleep_on; these are the fields of `World`. The scheduler walks the circular list of tasks; the wait queues and
-- the alarms are singly linked lists, and Tasks calls the functions of LinkedList and CircularList
-- on them. The queues of interrupt handlers are singly linked lists too, and request_irq calls
-- llist_add. The keyboard's interrupt handler calls wakeup. The table of i-nodes calls a file
-- system's get_inode, which may change the contents of an i-node and its lock only. vsprintf calls
-- atoi and numtostr; parse_cmdline calls strcpy and strlen, cmdline_get_value strcmp.
--
-- Fuel. A loop over a chain of pointers has a number of rounds; the theorems ask for more rounds
-- than the chain has nodes and conclude that the loop returns. A loop that looks for the end of a
-- string has more rounds than the string has bytes, and so has the parser of the line of arguments. The walk along the extended boot records is
-- asked to end. The loop of kfree has more rounds than the block has pages. The loop of getblk has
-- rounds too.
--
-- Not modelled: kprintf; cli and sti, which bracket what is one step here; the check for a driver
-- that is not there in the cache of blocks and the wakeups of brelse; the data of a block; the fork
-- itself and the creation of threads; what other tasks do while one sleeps, but for the wakeup and the calls of schedule; the
-- wait of kernel_thread_wait; the bodies of the interrupt handlers, which do_irq only lists in
-- their order; the screen and the serial port behind kprintf; mounting, the copy of the super
-- block in ext2_get_sb, the ports themselves and how long they are waited for; the order of the loops in
-- init_pg, the enabling of paging and the unmapping behind it; assembly and hardware.
pub mod Ata
pub mod Base
pub mod Bhash
pub mod Chars
pub mod CircularList
pub mod Cmdline
pub mod Devices
pub mod Ext2
pub mod Interrupts
pub mod Irq
pub mod Keyboard
pub mod LinkedList
pub mod Locks
pub mod Mm
pub mod Namei
pub mod Numbers
pub mod Partitions
pub mod Pids
pub mod Printf
pub mod Ring
pub mod Strings
pub mod Tasks
pub mod Vfs
