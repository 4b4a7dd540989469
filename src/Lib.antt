-- ===== src/Lib.antt =====
-- Verification of the character drivers of this repository (Linux device drivers in C).
--
-- Each driver is a set of entry points that the kernel calls on a device structure under the
-- driver's own lock: open, release, read, write, llseek, poll, mmap. The drivers share no state with
-- each other; scull/access.c and scull/pipe.c only take the shapes of their files from scull.h.
--
-- Files and the code they model:
-- - Common (Tests, Lists, Bytes, Int, Codes, User, Registry): what the drivers share. User is the
--   interface of copy_to_user and copy_from_user, which belong to the kernel: the count of bytes left
--   over is 0 on success, as functions.c describes. Codes has the error numbers. Registry counts the
--   number regions, character devices and blocks that a driver holds while it is loaded.
-- - Pipe: scull/pipe.c. The ring buffer is a list of bytes with the indices rp and wp. scull_p_open,
--   scull_p_fasync, scull_p_release, spacefree, scull_p_read, scull_getwritespace, scull_p_write and
--   scull_p_poll are definitions of those names. A sleeping process is given what it finds at each
--   wake-up as a list (signals and the states that others leave), so the loops recurse on that list.
--   Pipe/Module has scull_p_init and scull_p_cleanup.
-- - Scull: scull_char_device/main.c. The list of quantum sets that dev->data points to is a list of
--   arrays of blocks. scull_open, scull_release, scull_trim, scull_read and scull_write are in Scull;
--   scull_follow, which no file of the repository defines, is a parameter with its laws (Follow).
--   Place takes positions apart, Bytes gives the byte at a position, Session sets any sequence of
--   calls against a log of the writes.
-- - Scullp: scullp/main.c and scullp/mmap.c. A device is its first item and the list of the items
--   behind it; an item is an array of quanta, a quantum a block of bytes. `none` stands for NULL
--   and, as the result of a call, for an access outside of a block or through NULL. scullp_follow,
--   scullp_read and scullp_write are in Scullp, scullp_trim in Scullp/Trim, scullp_open and
--   scullp_llseek in Scullp/Calls, scullp_mmap and scullp_vma_nopage in Scullp/Mmap, scullp_ioctl in
--   Scullp/Ioctl, scullp_init and scullp_cleanup in Scullp/Module.
-- - Access: scull/access.c. scullsingle (OneFile), sculluid (OneUser), scullwuid (Waiting) and
--   scullpriv (Clones). scull_trim is a parameter: its definition is not in that directory. Loading
--   and cleaning up are in Access/Module, with the device structure of Scull.
-- - Phantom: phantom/phantom.c. A register bank holds what was last written to it; what the hardware
--   shows is an argument. phantom_status, phantom_ioctl, phantom_open, phantom_release, phantom_poll,
--   phantom_isr, phantom_suspend and phantom_resume are in Phantom, phantom_get_free, phantom_probe and
--   phantom_remove in Phantom/Probe, where the kernel's resources are counted, phantom_init and
--   phantom_exit in Phantom/Init, phantom_compat_ioctl in Phantom/Compat.
-- - Sram: sram/sram.c. Offsets are relative to the region. sram_add_partition, sram_free_partitions,
--   sram_reserve_cmp (sram_reserve_after) and sram_reserve_regions (reserve for the children of the
--   device tree, walk for the sorted blocks) are in Sram, sram_probe and sram_remove with the clock in
--   Sram/Probe; list_sort and the answers of the kernel's pools, files and protection are parameters.
-- - Short: short/short.c. do_short_read and do_short_write, and the page of time stamps: short_incr_bp,
--   short_interrupt, short_sh_interrupt, short_i_read, short_i_write. What sprintf prints is spelled
--   out in stamp, the NUL behind it in short_interrupt. Short/Halves has the handlers that are split
--   in two (short_wq_interrupt, short_tl_interrupt, short_do_tasklet) with their ring of times,
--   Short/Files the entry points of the files; Short/Session runs interrupts and reads one after the
--   other.
-- - Demos: mmap/simple.c, mapcmp.c, nbtest.c, hello.c and ioctl/sleepy.c. The system's calls of
--   nbtest.c are an interface, which Demos/NbTest/Pipes fills with two pipes of Pipe. The readers and
--   writers of sleepy.c are a step relation, in which a reader's wait and its assignment to the flag
--   are two steps.
--
-- Native numbers stand for the C integers; where a signed value falls below zero it is a ℤ. Positions,
-- sizes and counts are not wrapped at the machine's width: the products of a page size, an order and an
-- array length are taken to fit. The outcomes of allocations, of waits for a mutex and of copies are
-- arguments. Loops run on the list, the count or the wake-ups given, and need no fuel, with four
-- exceptions: all_digits of Short recurses on a bound, the number itself, which is never less than its
-- count of digits; the loop of short_do_tasklet gets as many rounds as its ring has places, which is
-- enough wherever its indices stand; the loops of hello_read and of nbtest.c, which may run for ever,
-- get a number of rounds, any one.
--
-- Not modelled: printing and /proc reports; atmel_securam_wait of sram.c, which has no state; the interrupt
-- probing, short_init and short_cleanup of short.c, which have empty bodies; the empty
-- hello_write of hello.c; the notes (errno.c, functions.c, macros.c), the programs
-- map.c and mapper.c, and ioctl/pipe.c, an earlier stub of scull/pipe.c.
pub mod Common
pub mod Pipe
pub mod Scull
pub mod Scullp
pub mod Access
pub mod Phantom
pub mod Sram
pub mod Short
pub mod Demos
