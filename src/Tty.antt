-- ===== src/Tty.antt =====
-- The tiny tty driver, day_12/ex29.c.
pub mod Defs
pub mod Port
pub mod Write
pub mod Modem
pub mod Ioctl
pub mod Termios
pub mod Driver
pub mod Ops
pub mod Table
