-- ===== src/Lib.antt =====
-- Project Dionysus: parts of the kernel as definitions, with the theorems about them.
--
-- The kernel gives processes handles to its objects, schedules threads on several processors and
-- lets threads exchange messages. Modelled are:
--   Base       outcomes (a value, an error code, a fault), loops, lists and bits;
--   Handle     include/object/handle_table.hpp, kern/object/handle_table.cc and the lookup of
--              kern/object/object_manager.cc. Handle/Code has the encoding of handles, Handle the
--              table and its operations by their names in the source, Handle/Valid what a valid
--              table is, Handle/Add, Handle/Lookup and Handle/Remove what operations preserve and
--              find, Handle/Faults where they fail, Handle/Manager the choice of a table;
--   Ipc        include/task/ipc/public/messages.hpp, include/memory/fpage.hpp and
--              kern/task/thread/ipc_state.cc. Ipc/Tag has the bit fields, Ipc/Message the message
--              and its operations, Ipc/State the registers of a thread and their transfer, and
--              Ipc/State/Extended sending with the typed items, behind the wait for the receiver, and
--              Sending below it what comes of that;
--   Task       kern/task. Task/Fcfs has the scheduler class of kern/task/scheduler/fcfs, Task/Scheduler
--              the scheduler of kern/task/scheduler/scheduler.cc, Task/Timers its timers,
--              Task/WaitQueue the wait queues of kern/task/thread/wait_queue.cc, Task/Semaphore the semaphore of
--              kern/libs/kbl/lock/semaphore.cc and Task/Signals killing, suspending and resuming of
--              kern/task/thread/thread.cc.
--   IntrusiveList   kern/libs/kbl/include/kbl/data/list.hpp: links by address, and the lists on
--              them. IntrusiveList/Ring has sequences of links, Steps adding and removing one link,
--              Ends the two ends, Refine the list as a plain sequence, Loops counting and clearing, Swap swapping and
--              merging of empty lists.
--   AddressSpace    kern/memory/vmm/address_space.cc: the segments of an address space, over
--              IntrusiveList. AddressSpace/Search has the search with its cache, Place, Order and
--              Insert the insertion, Map mapping, Unmap unmapping and resizing.
--   Jobs       kern/task/job/job.cc, and killing in kern/task/process/process.cc. Jobs/Kill has how
--              killing a job goes, Jobs/Leaf a job without children, Jobs/Height the nesting.
--   Buddy      kern/memory/pmm/buddy_provider.cc: setting up a zone, allocating and freeing pages.
--              Buddy/Order has the order of a request, Buddy/Count the count of free pages,
--              Buddy/Setup where the blocks of a zone are put and Buddy/Fuel the rounds.
--   Ext2       kern/fs/ext2. Ext2 allocates and frees blocks (block/block.cc), Ext2/Index has the
--              block numbers of an inode (inode/index.cc), Ext2/Inodes the table of inodes
--              (inode/inode.cc), Ext2/File reading, writing, seeking and resizing files (vnode.cc,
--              inode/resize.cc) and Ext2/Directory finding a name (vnode.cc). Ext2/Bytes has
--              memmove. Below them, Blocks, Stored, Table and Listing have what is allocated,
--              stored and found, and Ext2/File/Reading, Writing, Written, Resize and Overflow what
--              happens to the bytes of a file.
--   Vfs        kern/fs/vfs: Vfs/Path has paths as text, Vfs/Find the search for a node and the
--              resolution of links, Vfs/Access permissions, Vfs/Cwd the working directory and
--              Vfs/Open opening a node, and reading and writing an open file (vfs.cc, and vnode.cc
--              for children).
--
-- The scheduler takes threads from the run queues of its class. A wait queue blocks the current
-- thread and reschedules, and puts woken threads back into run queues; a semaphore is a count
-- and a wait queue; an address space and the timers keep their items in intrusive lists; a job
-- that is killed kills its child jobs and processes; messages are handed over between threads
-- that wait on semaphores. The virtual file system asks a file system for names below a node;
-- ext2 finds them in the blocks of a directory, which it reads by the block numbers of an inode.
--
-- Conventions. A failed assertion, a null dereference, an access out of bounds and a panic are
-- `fault`. Fields of hardware width wrap around as they do in the source. The lists of Handle,
-- Task and Jobs are lists of numbers, those of AddressSpace and Task/Timers are intrusive lists;
-- data of a processor are functions of its number. AddressSpace, Jobs, Task/Timers and
-- Ipc/State/Extended keep whether this processor holds a lock, since taking it twice is a panic;
-- elsewhere locks are left out: an operation is what happens while its lock is held, so that
-- interleavings are orders of operations. The loop over typed items has fuel 98: a round uses up
-- two of at most 63 items or two of 33 buffer registers. The loops of the page allocator go by
-- rounds: setting up n pages has n + 12 rounds, each of which takes pages or lowers the order;
-- freeing goes up 13 orders at most, and down in rounds that each take pages or lower the order.
-- log2 has fuel 64, the bits of a word. Loops over an intrusive list have a fuel that the
-- theorems ask to be larger than the list; the theorems on jobs need two or three levels.
-- Reading and writing n bytes has n rounds, each of which moves a byte at least; the search of a
-- directory's block has a fuel that the theorem asks to be larger than the listing; do_find
-- takes one unit for each call of itself.
--
-- Granting pages, moving memory between threads and signalling the receiver are parameters of
-- Ipc/State/Extended, and reading and writing blocks are parameters of Ext2, and what the buffer
-- of Ext2/Index holds once it is deleted; Ext2/File takes writing back an inode, and
-- Ext2/Directory reading a block of the directory, as a parameter too. Vfs/Find takes the
-- operations of the file system below and what new memory holds. Not modelled are the semaphores
-- around messages, the creation of processes, page tables (the address space takes unmap_range
-- as a parameter), the allocation of inodes and the entries that are put into directories,
-- mounting and the calls by path of the virtual file system, nor drivers, boot, system call glue
-- and the user library, which are input and output or thin wrappers.
pub mod AddressSpace
pub mod Base
pub mod Buddy
pub mod Ext2
pub mod Handle
pub mod IntrusiveList
pub mod Ipc
pub mod Jobs
pub mod Task
pub mod Vfs
