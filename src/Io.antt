-- ===== src/Io.antt =====
-- io.c and io.h: the ring of banks between the thread that produces a game's data and the I/O
-- thread that writes it to the partition (or reads it from there).
--
-- The record is the C structure. `buffer` is the memory at the address IOState.buffer, by byte;
-- `bd` holds the lengths of IOState.bd; the semaphores inBufSema, outBufSema and CmdAckSema are
-- their counts. `alive` is false once the I/O thread has run ExitDeleteThread, and `wakeups` counts
-- the calls of WakeupThread that SleepThread has not yet taken. `held` counts the banks that one
-- side has taken by WaitSema and not yet given on.
pub mod State
pub mod Device
pub mod Write
pub mod Read
pub mod Thread
pub use State.{IoState, ThreadState, Command, bank_size}
