-- ===== src/Lib.antt =====
-- A model of parts of the Linux 0.11 kernel, with theorems that say what they do.
--
-- The kernel keeps a table of tasks (include/linux/sched.h), which the scheduler, the signals and the
-- calls on identity read and change; a table of pages with use counts and the page tables in physical
-- memory; a list of timers, which the clock interrupt runs; a table of block requests, which the
-- buffer cache fills and the disk drivers empty; the buffer cache itself; the terminal lines and the
-- screen; and the file system: bitmaps, blocks of files, directories and pipes. Each is a module here.
-- State is passed explicitly: an operation takes the part of the state that it uses and returns it
-- changed, with its result. A panic, a fault and the end of the process are results of their own.
--
-- Base holds what the modules share: lists and tests on native numbers, signed integers, and the bits
-- of a word. Task has `struct task_struct` and the table `task[]`, a list of slots; slot 0 holds the
-- idle task. Beneath a module that models code, the child modules prove what their names say, and the
-- child Tests runs the definitions on concrete states.
--
-- Sched is kernel/sched.c, `schedule` up to the switch, `sys_alarm` and `sys_nice`. The loop of
-- `schedule` runs on fuel, two rounds, and Sched.Select proves that they are enough where every
-- priority is positive.
--
-- Timer is kernel/sched.c, `add_timer` and the timers of `do_timer`. The state is the list in link
-- order; the table has 64 slots.
--
-- Memory is mm/memory.c. `Mem` has the words of physical memory, `mem_map` and `HIGH_MEMORY`; Tables
-- has the functions on page tables, Fault those of the page faults. `do_no_page` reads the disk and
-- is not modelled. Words are numbers; the copies and masks are written with `/` and `%`. A page is
-- copied word by word, addressed by byte.
--
-- Bitmap is fs/bitmap.c, the bit operations, `new_block` and `free_block`, and, in Bitmap.Inodes,
-- `new_inode` and `free_inode`. The zone maps and the block
-- buffers are what `Device` holds; what `getblk` does to other buffers is the parameter `evict`.
--
-- Request is kernel/blk_drv/ll_rw_blk.c, `make_request` and `add_request`, with `IN_ORDER` of
-- kernel/blk_drv/blk.h. Where the code sleeps the pass ends and the result says on what.
--
-- Signal is kernel/signal.c, the mask, the handlers, and the frame that `do_signal` builds. What
-- crosses between the kernel and user memory is an argument or a result.
--
-- Sys is kernel/sys.c, the calls on user and group ids, process groups, the break and the file mask.
--
-- Kill is kernel/exit.c, `send_sig`, `sys_kill`, `kill_session` and `tell_father`. The loop for the
-- process id -1 is modelled as a compiler reads it, which is not as it is indented.
--
-- Mktime is kernel/mktime.c. The result is an unbounded number, and Mktime.Calendar shows when a
-- 32-bit `long` holds it.
--
-- Exit is kernel/exit.c, `release`, `do_exit` up to the switch and without its page tables, and a pass
-- of `sys_waitpid`, from the label `repeat` on. What `do_exit` does to files, inodes and the terminal
-- is in its result.
--
-- Fork is kernel/fork.c, `find_empty_process` and `copy_process`. The search for a process id runs on
-- fuel: Fork.Pid proves that 65 steps are enough for 64 tasks. What `copy_mem` and `get_free_page`
-- answer are arguments.
--
-- Pipe is fs/pipe.c, `read_pipe` and `write_pipe`, up to the point where they sleep or return. Their
-- loops run on fuel, one more than the bytes that they are asked for, and Pipe.Reading and
-- Pipe.Writing prove that it is enough. Pipe.Fifo reads the page as a queue.
--
-- Fcntl is fs/fcntl.c and `sys_close` of fs/open.c, on the descriptors of the current task and the
-- file table.
--
-- Vsprintf is kernel/vsprintf.c, `number` and `skip_atoi`, on lists of character codes. The digits are
-- made on fuel, 33 rounds, and Vsprintf.Digits proves that they are enough for 32 bits.
--
-- Wait is kernel/sched.c, `sleep_on` and `wake_up` on one queue, as steps that tasks take in any order.
-- Clock is the rest of a tick: `do_timer`, the floppy motors' timers, and the calls that only tell a
-- field of the current task.
--
-- Inode is fs/inode.c, `_bmap`. The blocks that `new_block` gives out stand in a list, and which
-- blocks `bread` can read is an argument.
--
-- Buffer is fs/buffer.c: the hash queues, the ring of buffers, `getblk` and `brelse`. The links between
-- buffers are lists in link order. `getblk` is cut where it sleeps, and Buffer.Users lets the users and
-- the disk go on in any order between.
--
-- Tty is kernel/chr_drv/tty_io.c: the queues of a terminal line, `copy_to_cooked`, and the characters
-- that `tty_read` takes and `tty_write` gives. The driver of the line is an argument, which takes
-- characters from the queue to write. The loops run on as much fuel as a queue has places, and
-- Tty.Lines and Tty.Output prove that it is enough.
--
-- Directory is fs/namei.c: `permission`, `match` and `find_entry`, and, in Directory.Emptying and
-- Directory.Adding, `empty_dir` and `add_entry`. Which block of the device a block of the directory is,
-- and which can be read, is its state. The loops run on fuel, one step for each slot, and 64 more for
-- `add_entry`; Directory.Finding, Emptying and Added prove that it is enough.
--
-- FileData is fs/file_dev.c, and, in FileData.Calls, fs/read_write.c and fs/char_dev.c up to the calls
-- of other files. The blocks of the file are a function, as in Inode; one more step of fuel than bytes
-- asked for is enough, by FileData.Reading and FileData.Writing.
--
-- Console is kernel/chr_drv/console.c: `con_write`, the moves and fills of the memory of the display,
-- and, in Console.Escapes, the escape sequences. Words of 16 bits stand at their addresses; the loops
-- run over the characters of the queue. The registers of the display and the bell are left out.
--
-- Truncate is fs/truncate.c, on the inode of Inode. The blocks that it calls `free_block` with, in order,
-- are its result; Bitmap models what `free_block` does.
--
-- Inodes is the inode table of fs/inode.c, `get_empty_inode`, cut where it sleeps.
--
-- Not modelled: boot, assembly and interrupts, the drivers of disks, keyboard and serial lines, which are
-- input and output on hardware; the walk along a path and the calls on names; what else the inode
-- table does, and the super blocks; the user library; and the order in which interrupts and the parts of the kernel
-- interleave, but for wait queues and the buffer cache.
pub mod Base
pub mod Task
pub mod Sched
pub mod Memory
pub mod Timer
pub mod Wait
pub mod Clock
pub mod Sys
pub mod Bitmap
pub mod Buffer
pub mod Request
pub mod Kill
pub mod Signal
pub mod Mktime
pub mod Pipe
pub mod Console
pub mod Directory
pub mod Exit
pub mod Fcntl
pub mod FileData
pub mod Fork
pub mod Inode
pub mod Inodes
pub mod Truncate
pub mod Tty
pub mod Vsprintf
