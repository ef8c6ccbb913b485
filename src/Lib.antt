-- ===== src/Lib.antt =====
-- Verification of the core of qemu-gui-manager, the manager of QEMU virtual machines.
--
-- The manager keeps each VM as the arguments of QEMU, one option on a line.
-- src/core/argsfile.cpp reads and writes the lines, src/core/optionvalue.cpp the value of one,
-- and src/core/vmconfig.cpp the settings that the pages show. src/core/vmrunner.cpp makes the
-- command line of a VM, starts virtiofsd and QEMU, and follows the run; it talks to QEMU by
-- src/core/qmpclient.cpp, whose signals and callbacks drive its state.
--
-- Prelude, Text and Numbers hold what the components share: lists, the operations of QString
-- that the sources call, and the texts of numbers. A QString is a list of UTF-16 code units.
--
-- OptionValue is src/core/optionvalue.cpp: an OptionValue is its list of items, and a method is
-- a function of the same name on it (parse is the constructor, to_string is toString). Its
-- lemmas stand in OptionValue/Lookup (one edit and one look), Parts (the split at commas),
-- Readable and Clean (the values and texts of the syntax), RoundTrip, Edits (an edit that is
-- written and read again) and Firm (edits that leave the first item).
--
-- ArgsFile is src/core/argsfile.cpp: a file is its list of lines. line_index is indexOf, with
-- none for -1, and set_text_at and set_value_at are the two setValueAt. Lemmas: Lines and
-- Parsed (one line), RoundTrip and Settles (a file), Index, Apart, Values, Argv and
-- Edits.
--
-- VmConfig is src/core/vmconfig.cpp, a module for each group of settings: Name, Sizes, Memory,
-- Cpus, Shares, Files, Passthrough. Naming, SharedMemory, SizeText, MemoryLine, Smp, ShareLines,
-- ShareText and Features hold theorems. Fresh is the loop that numbers ids until one is free; its fuel is
-- one more than the ids in use, so it ends before the fuel does. QString::toDouble and toUInt are
-- the record Conversions of Numbers. An int product that overflows in cpus() is not wrapped, as
-- C++ does not define it.
--
-- VmHardware is src/core/vmhardware.cpp: Lines has where new lines go, Machine the machine and the
-- accelerator, Graphics, Card and Window the graphics, Disks and DiskEdits the disks, Boot and
-- FirstDevice the firmware, the boot menu and the first boot device. An int index is an Option of
-- a number, with none for -1. The firmware descriptors are an argument. The loop that numbers an
-- id is Fresh again, and an edit gives none only where its fuel runs out, which it never does.
-- Places, MachineType, Accel, Accelerator, Drivers, CardText, CardKind, AddedDisk, Ids, Bios,
-- FlashLines, Firmware, LastLine and BootMenu hold theorems.
--
-- VmStore is src/core/vmstore.cpp: the class Vm, with its name, save() and reload() and the bytes of
-- its vm.args as a field, and in Folders the class VmStore, with what it reads of the disk as the
-- parameter Disk. The loop that numbers a folder is Fresh. UTF-8, the watcher and the regular
-- expression for unsafe characters are parameters. Reload, Followed and Created hold theorems.
-- vms(), which sorts by the locale, is not modelled.
--
-- QmpClient is src/core/qmpclient.cpp: a Client is the state of QmpClient::Private, and each
-- method and each slot of its socket is a function on it. What the client does is recorded in
-- `log`: messages written, callbacks called, signals emitted. A callback is a number; a callback
-- that calls the client again is a further step after the call. `sent` is a list, in place of a
-- hash table: the order in which failAll calls the callbacks is that of their ids here. The loop
-- of read() has fuel for each byte of the buffer. Steps has the events in any order and the
-- invariant, which Methods and Invariant keep; Callbacks and Once count the calls; Reading and
-- Handshake are about read() and the start of a connection. JSON is a parameter. Not modelled: a
-- client destroyed by its callback.
--
-- VmRunner is src/core/vmrunner.cpp. CommandLine has commandLine() and the texts it is made of,
-- Quoting has shellQuote(), Shell the shell that reads its line, Mounts has mountNext(), LogTail
-- has logTail(), Machine the state, the timers and the end of a run, Signals what the QMP client
-- tells, Start the calls of the owner. The host, with its processes, files and clock, is the
-- parameter World, and what reaches it is recorded in `effects`. Steps is the relation of the
-- steps; Cleaning, Sound, Invariant, Timers, Signalled, Started, Soundness, Ended and Ending hold
-- the lemmas. Not modelled: the connection to the guest agent, and the firmware copies that start()
-- makes again.
--
-- Snapshots is src/core/snapshots.cpp: Texts has the names, the commands of the monitor and the
-- messages, Images the files a VM writes to and the snapshots in them, Machine the state, the
-- listing and the runs of qemu-img, Actions what starts an action, and Replies what ends a run of
-- qemu-img or answers a command, with the events in any order. The callback that an action waits
-- for is the Job of the state, and each listing in flight is a Listing. The VM, its runner and the
-- disk are the parameter World, which can change from event to event. tr() gives the English text.
-- A date of a snapshot is the milliseconds since 1970, as qemu-img writes it, none before 1970.
-- Finished, Ended and the other modules hold theorems. Not modelled: the deletion of the object
-- during a callback.
--
-- Importer is src/core/importer.cpp: Words has the state of splitCommands() and its variables, Script
-- its loop, Import importScript(). The loop, and that within double quotes, have fuel for each
-- character of the text, as each round takes one or more. The environment, the folders and
-- files, and the takesValue of the caller are parameters. Progress, Exported and Imported hold theorems.
--
-- Cloner is plan() of src/core/vmcloner.cpp, with the folders and what is drawn at random as the
-- parameter Folders. The loop that numbers a copy is Fresh, with fuel for each name that is taken.
-- Copies holds theorems. Not modelled: the runs of cp.
--
-- Tests holds concrete runs, and each theorem at a concrete input.
--
-- The other parts of the program (src/ui, and the rest of src/core) are not modelled.
pub mod Prelude
pub mod Text
pub mod Numbers
pub mod OptionValue
pub mod ArgsFile
pub mod Fresh
pub mod VmConfig
pub mod VmHardware
pub mod VmStore
pub mod QmpClient
pub mod VmRunner
pub mod Snapshots
pub mod Importer
pub mod Cloner
pub mod Tests
