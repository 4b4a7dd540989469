-- ===== src/Demos.antt =====
-- The short programs of the repository: a character device in hello.c, a sleeping one in
-- ioctl/sleepy.c, mmap/simple.c, and the user programs
-- mapcmp.c and nbtest.c.
pub mod Simple
pub mod MapCmp
pub mod NbTest
pub mod Hello
pub mod Sleepy
mod Tests
