-- ===== src/Shell.antt =====
-- kernel/shell.c and shell.h: the interactive shell over the components that its commands use.
-- `System` holds their states, the command history, the line buffer of shell_run and run_buf, with
-- the bytes that follow it. The parameters are the disk driver, the addresses that the linker
-- fixes, the registers of the clock, and the stack pointer `esp` on which a command calls
-- process_yield. No other process runs while the command sleep waits.
pub mod Text
pub mod Line
pub mod Messages
pub mod State
pub mod Commands
pub mod Files
pub mod Programs
pub mod Execute
pub mod Safe
pub mod Round
pub mod Words
pub mod Recall
mod Tests
