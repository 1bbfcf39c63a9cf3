-- ===== src/Lib.antt =====
-- A verification of cuteCore, a small RISC-V kernel in C: the parts of it that carry its data.
--
-- The block cache (block/blk_cache.c) stands between the disk and the file system. `BlkCache` models
-- its array of slots, the disk behind it, and bread, bwrite, brelse and bsync. A reader of the
-- cache sees one block for each number, `content`; the theorems say what each operation does to that view.
-- The driver's blkread and blkwrite are taken as reads and writes of a function from block numbers to
-- blocks, which is what driver/virtio_mmio.c promises to the cache.
--
-- The allocators of ext2 (fs/ext2/balloc.c and fs/ext2/ialloc.c) run on that cache. `Ext2` holds the
-- state of the mounted file system, `Ext2.Bitmap` the search of a bitmap, and `Ext2.Alloc` both
-- allocators, which are one program over different fields. Fields of the superblock are
-- words at fixed offsets of block 0, behind the slot that the mount keeps. Words of 16 and 32 bits wrap
-- around as in C. Their loops recur on the groups, bytes and bits that are left, so no fuel is needed.
--
-- `Ext2.Mount` is the mount (fs/ext2/super.c), on the state of `Vfs` over that of `Ext2`: the superblock,
-- the table of descriptors, and the root. Its two objects come from the kmalloc of `Slab`, which gives 4088
-- bytes at most, and a larger table is a fault, since the loop would write behind its object; ext2_iget
-- is a parameter. A round of that loop copies a byte at least, so the size of the table is enough fuel.
--
-- `Ext2.Inode` has the way of an inode to the disk and back (fs/ext2/inode.c), and `Ext2.File` the
-- blocks of a file and the loop of ext2_file_read (fs/ext2/dir.c), where each round copies a byte at
-- least, so that as many rounds as there are bytes to read are enough.
--
-- `Ext2.Dir` has the entries of a directory (fs/ext2/dir.c): the search for a name in a block and over
-- the blocks of ext2_lookup, and the part of ext2_dir_add_entry that finds space in a block and
-- splits an entry. The searches of a block have fuel, for which the size of the block is enough. What a
-- search for a name should give is said by the relation `Ext2.Dir.Search.Search` on the bytes alone, and
-- where a block of a file is by `Ext2.File.Blocks.Leads`.
--
-- `PathNames` takes a path apart (fs/vfs.c): skipslash and path_next, over the memory of `Str`. `Vfs`
-- has the rest of that file: namex walks over the inodes in memory, iput gives one back, and readi and
-- writei call the file system. What a file system puts into its tables inode_ops and file_ops
-- (include/fs.h) is a parameter, as `InodeOps` and `FileOps`; the state of that file system is a
-- parameter too. The walk has fuel, of which each component of the path uses one.
--
-- `Files` is the table of open files (fs/file.c) on top of `Vfs`, and `Links` the lists of
-- include/list.h that both keep: a node is an address, and the links are two maps on addresses.
-- `Files` takes the slab cache of file objects as the parameter `FileCache`. `Syscalls` is the
-- dispatch of calls with its arguments (kernel/syscall/syscall.c) and the calls on files
-- (kernel/syscall/filecall.c), on top of `Files`; the call of exec is a parameter.
--
-- `Scheduler` is the loop over the list of ready processes (kernel/task/scheduler.c), by its first rounds,
-- since it has no end. The switch of contexts is a parameter.
--
-- Process ids (kernel/task/proc.c) are `Pids`. The search takes MAXPID rounds, as in the source.
--
-- The page allocator (mm/kalloc.c) is `Pages`: the free list is kept in the bytes of the pages
-- themselves, and freerange takes as much fuel as its end address, of which a page uses one.
--
-- `Slab` has the caches, slabs and objects of mm/slab.c and the size classes of mm/kmalloc.c, in the
-- memory of the pages, with every pointer and count at its offset. cache_shrink takes the count of
-- empty slabs as fuel, which each round lowers by one.
--
-- `Vm` (mm/vm.c, include/riscv.h) has the page tables in that same memory: `Vm` itself the walk and the
-- mapping, `Vm.User` what is done to the table of a process. `Vm.Tree` says what it is for the pages of
-- a table to be a tree of three levels, and what address a virtual page leads to. The loop of vmmap takes as
-- many rounds as the range has pages, that of uvmunmap likewise, and a round of copyout copies a byte
-- at least. freewalk descends three levels.
--
-- `Console` is the formatted output (kernel/console.c) and the reads and writes of the serial line
-- (driver/uart.c). The characters that come in are a list, and so are those that went out. The digits
-- of a number take as much fuel as the number; vprintf takes fuel for the length of its format. The text
-- that a format stands for is the relation `Prints` of `Console.Format`, with the numerals of
-- `Console.Numerals`. The counts that the source keeps in an i32 wrap around.
--
-- The string library (lib/string.c) is `Str`. Its loops over a count recur on the count; those that
-- look for a NUL take fuel, and one more than the length of the string is enough.
--
-- Not modelled: the order in which the processor sees interrupts, the boot code, the traps and the
-- registers of the devices, which are reached by assembly and memory-mapped words; the making and
-- the end of a process; exec; the cache of inodes, and the writing and removal of files.
pub mod Base
pub mod BlkCache
pub mod Console
pub mod Ext2
pub mod Files
pub mod Links
pub mod Pages
pub mod PathNames
pub mod Pids
pub mod Scheduler
pub mod Slab
pub mod Str
pub mod Syscalls
pub mod Vfs
pub mod Vm
