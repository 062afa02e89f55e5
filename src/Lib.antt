-- ===== src/Lib.antt =====
-- HDLGameInstaller: the server on the console that installs PlayStation 2 games on its hard disc,
-- and the file system driver that it writes them through.
--
-- Parts and files:
--   Base: the libraries' names, lists and byte memory with native indices, and the `int` results
--   of the C functions as Base.Codes.Code, a count or an error.
--   Io (io.c): the ring of banks between a network thread and the disc. Io.State has
--   `struct IOState` with the calls that change only it, under their C names without the prefix
--   (IOGetNextWrBuffer is get_next_wr_buffer); semaphores are counts, and a call that would block
--   gives none. Io.Write is IOExecWriteNext, Io.Read IOExecReadNext, Io.Thread IOThread and the
--   calls that wait for it. Io.Device has fileXioWrite and fileXioRead as parameters with laws.
--   Transfer (HDLGameSvr.c, WriteGame): the data thread that fills the ring. The two threads run
--   against each other in any order: Transfer.Step has a constructor for each call of WriteGame
--   (IOGetNextWrBuffer, ReceiveData with IOSignalWriteDone, IOGetStatus), and one for a round of
--   IOThread. A round of IOThread, from one SleepThread to the next, is one step.
--   Hdlfs (hdlfs/main.c): the file system driver. Hdlfs.Format is hdlfs_format, Hdlfs.Descriptor
--   mount, umount, open and lseek, Hdlfs.Transfer hdlfs_io_internal with read and write, and
--   Hdlfs.Header getstat, chstat and the title. What the APA driver below answers is a parameter.
--   Server (HDLGameSvr.c): Server.Installation has the commands that set up an installation, with
--   the lock, the mounts, the open files, the banks and the contexts that they hold; Server.Osd the
--   task that prepares OSD resources; Server.Session HandlePacket with all commands, the data
--   thread, the coming and going of the one client, and errors of the I/O thread, as a run over a list
--   of events, which stops at an event that waits for ever.
--   Net (HDLGameSvr.c, HDLGManClient/client.c): the packets, the loops that send and receive them,
--   SendResponse, GetResponse and the client's commands. Net.Socket has send, recv and select as
--   parameters with laws.
--   Install (system.c, HDLGameList.c): Install.Partitions is GetPartSize and the loops that make the
--   partitions of a game, Install.Creation CreateAndFormatPartition, Install.Names the names of
--   partitions and discs, Install.Games the game list, Install.Update the change of a game's
--   settings, and Install.Drive the installation from the disc drive, whose thread is modelled by the
--   calls that it makes of the drive and of the ring, of which some may wait for ever.
--   Settings (settings.c): the settings, the text of settings.ini as WriteSettings prints it, and
--   ParseSettings; Settings.Load is LoadSettings. Settings.Text has the C library's functions on
--   text that they use. Sjis (sjis.c) decodes Shift-JIS titles.
--   Osd (OSD.c): Osd.Files is the list of resource files with the buffers that it owns, Osd.Area the
--   extended attribute area of a partition, as InstallOSDFiles lays it out around the game's header
--   and GetOSDResourceFileStats and ReadOSDResourceFile read it.
--   Disc (HDLGManClient/iso9660.c, system.c): ReadSectors on a disc image, with the static
--   current_lsn that saves seeks. Disc.ImageFile has the Windows calls as parameters with laws.
--
-- Integers are natural numbers; 32-bit unsigned arithmetic that can wrap is written with
-- `% 2 ^ 32`, and unsigned subtraction as Hdlfs.Format.sub32.
--
-- Fuel: io.c repeats a write or read until it succeeds or gives -EIO, which a device may put off for
-- ever, so the retries have fuel, and Io.Thread.End.Covers says that it is enough for a device: one
-- that fails for ever with other errors has io.c repeat the write for ever.
-- The loop of IOThread that drains the ring gets one round more than there are full banks. The
-- loop of hdlfs_io_internal needs no more rounds than there are sectors and slices to go, and those
-- of Install have one round more than sectors, each of which a round takes off.
--
-- Not modelled: the user interface (UI.c, menu.c, graphics.c, font.c, pad.c, main.c and the icons),
-- which draws and reads input; the APA driver (apa-hdl), a copy of another project's; the PC client
-- (HDLGManClient) but for its commands and connection and ReadSectors: windows, a ring of banks that
-- repeats io.c, and a walk over directories that follows unchecked pointers; the creation of the settings'
-- files; the network configuration; of OSD.c the text of icon.sys and the search of memory cards, which
-- stand on wide-character functions and services outside this repository; and of HDLGameSvr.c the start
-- and stop of the server, the reading of command headers and the sending of a game.
pub mod Base
pub mod Io
pub mod Transfer
pub mod Hdlfs
pub mod Server
pub mod Net
pub mod Install
pub mod Settings
pub mod Sjis
pub mod Osd
pub mod Disc
pub mod Tests
