-- ===== src/Lib.antt =====
-- Verification of the firmware of the BCU, the control unit for announcements and intercom in a
-- driver's cab. The code is C++ for eCos, in 1.0.x/ProdExplUnits/sourcecode; all files named below
-- are there.
--
-- The program's threads hand each other bytes and commands through named buffers
-- (buffer_read_write_fun.cxx), wait for alarms (alarm_list_fun.cxx), sample buttons
-- (bcu_extern_button.cxx), and change between states: those of the intercom by a table of rules
-- (bcu_function.cxx), those of the announcements by a list of priorities (bcu_state_machine.cxx). One
-- thread fetches the tables of the database from a central control unit (bcu_gd_sync.cxx), and another
-- one puts audio packages from the network into a buffer (network/udp_recv_fun.cxx).
-- Each of these is a component here:
--
--   Ring           index arithmetic of a ring, which both kinds of buffers share
--   CharBuffer     one byte buffer: char_buffer_t, its memory, and what each function does to it
--                  once the handle is accepted; View has the invariant and the bytes that wait
--   Names          the list of names and handles: CharBufferPointerSave, CharBufferOpen,
--                  CharBufferIsValid, CharBufferIdReset, and their copies for blocks and alarms
--   Pool           structures behind handles: the check, the creation and the deletion
--   CharPool       the byte buffer functions on handles, errors and NULL pointers included
--   BlockBuffer    one block buffer without the lock, as a bounded queue of blocks
--   BlockPool      the block buffer functions on handles
--   Alarm          the alarms, with the calls of the eCos kernel as outputs
--   Rules          BCURuleInit to BCURuleTableInit, and StateMachineExchange; Intercom has the state
--                  machine that they set up
--   StateMachine   the table of priorities and its sort, the list made of it, and
--                  BcuDynamicStateExchange; Defaults has the tables of the source
--   Buttons        the counters of the buttons, and the presses that are reported
--   Signals        how a command reaches the two state machines: GetEventType,
--                  WhetherWantToExchangeState, ANNStateHangle and IntercomStateHangle
--   Sync           the thread of bcu_gd_sync.cxx that fetches the database from a CCU: Phases has the
--                  switch of its loop, Receive the packages and a whole turn; the alarm and the send
--                  buffer are those of Alarm and BlockPool by what they return
--   Reorder        the cache that sorts audio packages in network/udp_recv_fun.cxx, in front of a byte
--                  buffer: Entries has its array of pointers, Bounds what each function keeps
--   Stations       the numbers of the stations: GetNextStationNo, AdjustStationNo and
--                  BCUUpdateTCMSLineInfo
--   Tables         the tables that the thread of Sync gets: StationTable and RegionTable have what they
--                  hold after any rows, Dispatch has BcuGdGetDbFromServerCcu
--   Failures       the failures of the devices: WhetherHaveDevFailureInfo and the two functions that
--                  compare a table of failures with another
--   AlarmSound     the sound of a passenger's request (bcu_intercom.cxx, bcu_main.cxx)
--   LineNumber     a new line number or a station to leave out, from the touch screen
--   Common         C's tests and words, lists over native numbers, and library names
--
-- A function of the model has the name of the source's function, without its prefix, in the module
-- of its component: CharBufferWrite is CharBuffer.write on a buffer and CharPool.write on a handle.
--
-- How the code is rendered. An address is a number, and memory is a function from addresses; a
-- structure is a record, and a function that changes it returns the new one. An int result is an
-- integer, with negsuc n for -(n + 1). `unsigned int` wraps at 2 ^ 32 and `unsigned char` at 2 ^ 8
-- where the code computes with them; pointers are moved inside their memory only. Names are lists
-- of the bytes of a C string. What malloc, the kernel and the pins return are arguments. Where the
-- code would follow a pointer to memory that holds no structure, a model returns `none`.
--
-- Loops. The loops of CharBufferWrite and CharBufferRead recurse on the source and the destination.
-- The loops of BlockBufferPtrIsValid, BlockBufferWrite and BlockBufferRead are bounded in the code,
-- by the number of blocks and by 256 or 255 rounds. The endless loops of BlockBufferFull,
-- BlockBufferCnt and BlockBufferEmpty get as much fuel as there are blocks, which is enough for
-- every valid buffer (BlockBuffer.Scan). The loops over the stations get fuel as well: 32 and 31
-- rounds are enough where they end, and the results say where they do not. The loop of
-- CopyToAppBuffer2 gets fuel for one round more than packages wait, which is enough (Reorder.Bounds).
-- The loop of BcuUpdateLineNumber that
-- does not count its rounds gets any fuel. The endless loop of a thread is a list of turns. The other loops go through lists and tables.
--
-- Configuration: CONFIG_BUFFER_MUTEX_LOCK is undefined, CONFIG_CHAR_BUFFER_CLEAR_FLAG is defined
-- (both in buffer_read_write_fun.h), WITH_DB is defined (include/struct_type.h).
--
-- Not modelled: the handlers of the states, which drive pins, sound and packets; the rest of
-- bcu_function.cxx, which mostly fills packets; the rest of the network (of network/udp_recv_fun.cxx:
-- its sockets, its commands, and its first way of sorting, which no call reaches), TFTP, touch
-- screen, sound driver, log and thread start; interleavings of two threads inside one function on a
-- buffer.
pub mod Common
pub mod Ring
pub mod CharBuffer
pub mod Names
pub mod Pool
pub mod CharPool
pub mod BlockBuffer
pub mod BlockPool
pub mod Alarm
pub mod Rules
pub mod Buttons
pub mod StateMachine
pub mod Sync
pub mod Reorder
pub mod Tables
pub mod Failures
pub mod AlarmSound
pub mod LineNumber
pub mod Signals
pub mod Stations
