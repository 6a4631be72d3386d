-- ===== src/Lib.antt =====
-- Models of the Linux driver examples, and what holds of them.
--
-- The program is a set of kernel modules, each a file day_NN/exM.c of its own. A module registers
-- functions with the kernel, which calls them; each keeps its state in global variables.
--
-- Every function is a definition that returns a `Run` (Common/Runs): the kernel calls that it makes,
-- in order, with its result, or a fault, where it follows NULL or leaves an allocation. The stores to
-- `condition`, which other processes wait for, stand among the calls. The state goes in and out as
-- arguments. What the kernel answers (whether an allocation succeeds, how many bytes a copy leaves,
-- what a register shows) is an argument; the documented behaviour of
-- copy_to_user and copy_from_user, of locks, of kmalloc's size and of the ioctl numbers is in the
-- records of Kernel, which the theorems take as parameters and Kernel/Simple and Tests instantiate.
--
-- The files and the code:
--   Common     Booleans, lists, integers, runs, and C strings with scanning and printing of ints
--   Kernel     what is asked of the kernel, by interface. Kernel/Processes has any number of processes
--              around one lock, whose steps interleave; Chardev/Exclusion and Tty/Port/Exclusion
--              put the drivers' functions in it.
--   Chardev    the character drivers. Defs and Load hold what they share: the clamped copies between
--              the user and `buffer`, and char_drv_module_init with its labels. One file each:
--              Static and Dynamic (day_02/ex3.c, ex4.c), Sem, Spin and Completion (day_03/ex7.c,
--              ex8.c, ex9.c), Seqlock, Ioctl and WaitQueue (day_04/ex10.c, ex11.c, ex12.c), Poll and
--              Seek (day_05/ex13.c, ex14.c). `read`, `write`, `poll`, `seek` and `ioctl` are the
--              functions sample_char_drv_*, `module_init` and `module_exit` those of the same names.
--              Each has its open, release and table of operations. Drivers and Fops join the ten into
--              one family, which Copy, RoundTrip, Content, Loading, Exclusion and Sleepers are
--              about. In Seqlock/Torn and in Atomic a copy goes byte by byte.
--   Proc       day_03/ex5.c. SeqFile is day_03/ex6.c, whose operations are called in
--              the order that linux/seq_file.h asks for.
--   Deferred   day_06/ex15.c to ex18.c: `timer_`, `shared_queue_` (ex16.c), `own_queue_` (ex17.c) and
--              `tasklet_` stand before init_module and exit_module. Deferred/Unloading runs a handler
--              beside its module.
--   Memory     day_07/ex19.c and day_11/ex28.c
--   Irq        day_07/ex20.c
--   Pci        day_08/ex22.c; `probe` and `remove` are sample_pci_driver_probe and _remove. A probe
--              takes a list of BARs, of which the source has six.
--   Usb        day_09/ex23.c; `probe` and `remove` are sample_usb_driver_probe and _remove
--   Bus        day_10: lddbus.h, ex24.c, and the modules of ex25.c and ex26.c. Bus/Binding asks
--              the bus type for the device and the driver that are registered.
--   Tty        day_12/ex29.c, whose functions keep their names. A port is an entry of tiny_table;
--              Tty/Table has the four together. A history (Tty/Port/History) calls the functions
--              through Tty/Ops, which is serial_ops.
--   Mmap       day_11/ex27.c. Mmap/Mapping is the physical memory that a mapping shows.
--   Block      day_13/ex30.c. Block/Order has the queues up to the exchanges that a scheduler may make.
--   Adc        day_14/ex31.c
--   Programs   the programs that use the drivers, over a driver's table of operations
--              (Kernel/FileOps): WriteRead is day_02/test.c, PollTest day_05/polltest.c, MapFile
--              day_11/mmap.c, and ReadOnce day_14/test.c. The C library and the system calls around
--              the driver's functions stand in `main` as they are documented.
--   Tests      the models at concrete inputs
--
-- Loops: the loop of ex10.c and the loop of TIOCMIWAIT run over the answers that they wait for, and
-- the poll of ex31.c over the values that the register shows; each gives none where these end first.
-- tiny_exit closes a port on fuel, of which one more than the number of users is enough. The digits of
-- a printed int are on fuel too, one more than the number.
-- The endless loop of polltest.c runs over what happens while it waits in poll, round by round.
-- All other loops are structural. A count is a size_t (2 ^ 64), and the ints of ex27.c and ex30.c wrap at
-- 2 ^ 32. open_count and the counter of ex27.c are not taken near 2 ^ 31, and the parameters of
-- ex30.c where the size of the disk fits an int.
--
-- Not modelled: what only logs or does nothing (the modules of day_01, day_08/ex21.c, the operations
-- of a mapped area), tiny_read_proc, which #if 0 takes out, and the other user programs:
-- day_04/test_ioctl.c does not compile, and day_13/test.c goes through the kernel's block layer.
pub mod Common
pub mod Kernel
pub mod Chardev
pub mod Proc
pub mod SeqFile
pub mod Bus
pub mod Usb
pub mod Pci
pub mod Deferred
pub mod Memory
pub mod Irq
pub mod Programs
pub mod Tty
pub mod Mmap
pub mod Block
pub mod Adc
pub mod Tests
