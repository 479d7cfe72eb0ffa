-- ===== src/Lib.antt =====
-- A verification library for the SMSC95xx USB Ethernet driver for macOS (a DriverKit extension, its
-- shared C layer, and a userspace probe).
--
-- The program. common/ holds what the extension and the probe share: the wire format and the words of
-- the chip's registers (smsc95xx_proto.c, smsc95xx_regs.h), and the bring-up sequence and the EEPROM
-- reader over two register callbacks (smsc95xx_init.c). dext/SMSC95xxDriver is the extension: its
-- state is one structure of instance variables (SMSC95xxDriver_ivars.h), SMSC95xxDriver_datapath.cpp
-- moves frames between the packet queues of the network stack and two bulk pipes, and
-- SMSC95xxDriver.cpp attaches, enables, disables and tears down the interface. Every callback of the
-- datapath runs on one dispatch queue, so that a run of the driver is a sequence of calls of the
-- functions modelled here.
--
-- The modules.
--   Base      names of the libraries, tests and conditionals, lists, and bits of numbers.
--   Regs      common/smsc95xx_regs.h, one constant each.
--   Proto     common/smsc95xx_proto.c: Words (MII_ADDR, E2P_CMD and single tests), Mac (the register
--             pair and the pattern checks), Le32, Tx (smsc95xx_tx_prepend), Rx (smsc95xx_rx_next),
--             VidPid (smsc95xx_parse_vid_pid).
--   Init      common/smsc95xx_init.c: init_seq and eeprom_read, with the callbacks' answers as
--             functions of the accesses so far. WR is write_reg, a run of WR lines is write_all.
--   Driver    the extension. Status: kern_return_t. Kit: what is asked of DriverKit, as answers that
--             are functions of the history of calls; an arbitrary environment is an arbitrary Kit.
--             State: SMSC95xxDriver_IVars, in four groups, and the history of calls.
--   Driver/Tx transmit: tx_return_packet (txReturnPacket), tx_submit_packet, tx_frame_packet and
--             tx_start_transfer (txSubmitPacket in three parts), tx_drain_round, tx_drain_loop and
--             tx_drain_submission (txDrainSubmission), tx_data_available (TxDataAvailable),
--             tx_completed (TxComplete).
--   Driver/Rx receive: arm_rx_read (armRxRead), rearm_rx_read (rearmRxRead), rx_backoff_expired
--             (RxBackoffExpired), deliver_packet, rx_acquire_packet, rx_record and what it calls (the
--             body of the loop of RxComplete), rx_walk (the loop), rx_completed (RxComplete).
--   Driver/Tx/Mailbox  a machine of one place, as the specification of what transmit does with packets.
--   Driver/Interface  set_interface_enable (setInterfaceEnable) and quiesce_datapath (quiesceDatapath).
--   Driver/Run        the callbacks between attach and release, in any sequence (Callback, Run), and
--             what holds over it. Sides splits the history into the calls of transmit and the others.
--   Driver/Release    release_datapath (releaseDatapath), release_resources (ReleaseResources),
--             start_failed (the label fail of Start), stop (Stop).
--   Driver/Attach     Start as a list of steps that run until one fails: Chip (what it asks of the chip,
--             find_mac and init_chip among them), Objects (what it takes hold of, and setupDatapath),
--             Start (the order of the steps, the registration, and the three ways to end).
--   Driver/Teardown   finishStop: the countdown of the cancellations, as a step relation.
--   Driver/Life       the whole life (Life): callbacks in any sequence, Stop, the Cancels and their
--             handlers in between, the release when it is due (release_when_due), and late callbacks.
--   Driver/Service    Start of a new driver and the life after it, or the rest of the teardown that a
--             refused registration began. The callbacks come once Start has returned.
--   Driver/Control    register access by vendor requests (readRegister, writeRegister), miiRead,
--             setPromiscuousModeEnable, setMaxTransferUnit.
--   Driver/Queries    getHardwareAddress and the other answers and refusals.
--   UsbDevice dext/SMSC95xxUSBDevice: start_device, stop, copy_first_interface.
--   Probe     tools/smsc95xx-probe/smsc95xx_ops.c, and control of usb_backend.c.
--   Probe/Backend  usb_claim_interface and find_bulk_pipes of usb_backend.c; what IOKit answers about
--             an interface is the record Interface, and the iterator a list of them.
--   Probe/Device    usb_open_id, usb_open_first and usb_close of usb_backend.c.
--   Probe/Args      main.c of the probe: the options and the subcommand. Render and Storing read the
--             arguments as items in any order.
--   Probe/Commands  main.c: the subcommands cmd_id to cmd_rx and resolve_mac, over a World of answers of
--             the device, with a Link as the state of the open device.
--   Probe/Main      main.c: main.
--   Reenumerate  tools/usb-reenumerate/usb_reenumerate.c.
--   Tests     a concrete environment, states, and runs.
--
-- Conventions. Numbers are natural numbers and every wrap-around is written out; size_t has 64 bits.
-- A pointer that is only tested for null is a Bool, a packet is a number, a buffer is a list of bytes.
-- DriverKit and IOKit are not part of the repository: their calls are fields of Kit, Site,
-- ControlPipe, Host, Interface, Matching, World and Answers, whose answers are arbitrary; what a
-- theorem asks of them is a hypothesis of that theorem.
--
-- Fuel. The drain, the walk over a transfer, and the scan of the probe's pipes take fuel, and `none`
-- means that it ran out. The walk advances by at least 8 bytes a round. The drain ends when the stack
-- presents finitely many packets; no bound follows from the code alone. The scan of the pipes has fuel
-- 256, which is enough for up to 254 pipes; the walk of cmd_rx as much as there are bytes, and 4. The
-- polls of Init count down from the bounds of the header, 100 each.
--
-- Not modelled: logging, what the tools print, and the counters that only guard or fill a log line;
-- the installer, scripts and tests. sscanf and strtol are of the C library. Creating an object is a
-- question that an attach asks once, so that its answer is a field of Site, without a history.
-- quiesceDatapath is one step: a completion that is delivered from inside its synchronous Abort is
-- taken to come after it.
pub mod Base
pub mod Regs
pub mod Proto
pub mod UsbDevice
pub mod Probe
pub mod Reenumerate
pub mod Driver
pub mod Init
pub mod Tests
