-- ===== src/Lib.antt =====
-- Verification of the fineFTP server, the C++ library under fineftp-server/ of this repository.
--
-- Parts, files, and the code that they model (the Unix build, but for Windows):
--   Permission          fineftp-server/include/fineftp/permissions.h
--   Message             fineftp-server/src/ftp_message.h: the reply codes and `FtpMessage::str`
--   Users               fineftp-server/src/user_database.{h,cpp}, ftp_user.h: `addUser`, `getUser`
--   CleanPath           fineftp-server/src/filesystem.cpp: `cleanPath`, `cleanPathNative`
--   FileStatus          fineftp-server/src/filesystem.{h,cpp}: `FileStatus`, `dirContent`
--   FileCache           fineftp-server/src/unix/file_man.{h,cpp}: `ReadableFile::get`, its destructor
--   Session             fineftp-server/src/ftp_session.{h,cpp}: the state of a session, and below it
--     Access, Parameters, Upload, Download, Manage, Listing, Info: one function `handle_xxxx` for
--                       each `handleFtpCommandXXXX`
--     Dispatch          `handleFtpCommand`, with its command map
--     Output            `sendRawFtpMessage`, `startSendingMessages`, as steps of the command strand
--     Sender            `addDataToBufferAndSend`, `writeDataToSocket`, as steps of the data strand
--     Connection        the handler of `acceptDataConnection`, the texts of listings, what is
--                       received of a file; its child Transfers has `sendFile` and how each transfer ends
--     Receiver          `receiveDataFromSocketAndWriteToFile`, `writeDataToFile`, `endDataReceiving`,
--                       as steps of the data strand, with `WriteableFile` of unix/file_man.h
--     Stream            the constructor, `start` and `readFtpCommand`: a session over all its input
--   Server              fineftp-server/src/server_impl.{h,cpp}: `start`, the accept handler, the count
--     System            the sessions of a server, which share the database, the files and the disk
--     Interface         fineftp-server/src/server.cpp: the class `FtpServer`
--   Windows             the Windows build
--     Readable, Writeable  fineftp-server/src/win32/file_man.{h,cpp}
--     StrConvert        fineftp-server/src/win_str_convert.cpp
--     Paths             `cleanPathNative` and `toLocalPath`, as Windows compiles them
--     Status, Folder    its `FileStatus`, `GetLastErrorStr` and `dirContent`
--     Manage, Rename    RNFR, RNTO, DELE, RMD and MKD
--   Os                  the system calls, a record of functions that every handler takes
--   Base                shared types, tests, text, lemmas
--
-- How they interact. A command line goes to `handle_ftp_command`, which finds the handler; the
-- handler reads the user database, maps its parameter to a local path with `clean_path`, asks the
-- permission bits, looks at the disk through `FileStatus`, makes one system call, and posts a
-- reply. A session is a record with the members of `FtpSession`; a handler is a function from
-- session to session. What the code posts to its two strands is kept in order in the fields
-- `posted` (replies) and `accepting` (data connections). The disk is the type `Os.Disk`, a
-- parameter: nothing is assumed of the system calls but their types. What asio, the random
-- generator and gmtime answer while a command runs is the record `Env`.
--
-- A session handles the lines of its input one after the other (Stream.serve); a server is a map
-- of sessions, of which each step runs one handler of one session on the files and the disk as the
-- others left them (System.SystemStep).
--
-- Bounds and fuel. The loop of `cleanPath` runs on fuel, the length of the path and one more,
-- of which each round takes a byte. The loop of STOU counts its ten attempts. A session reads on
-- fuel, of which each line takes one; one more is for the end of the connection.
-- Numbers are natural numbers: sizes and times are not negative here, and times before 1970 are
-- left out. Strings are lists of bytes; system calls take them as C strings, cut at a NUL byte.
--
-- Strands. What asio runs on a strand is one step of a relation: Output.OutputStep, Sender.SenderStep,
-- Receiver.ReceiverStep, Server.ServerStep; a run is any sequence of steps, so that every interleaving is one.
--
-- Not modelled: log output; that the disk changes under a handler while it runs; what the C++
-- library and asio do, whose answers are parameters (`Env`, `Os`, `Windows.Api`, `Windows.Machine`,
-- `read_until`), and with it what a stream does with the data of a received file; the handlers
-- that have no branch of their own in the Windows build, over its `FileStatus`.
mod Base
pub mod Permission
pub mod Message
pub mod Users
pub mod CleanPath
pub mod Os
pub mod FileStatus
pub mod FileCache
pub mod Session
pub mod Server
pub mod Windows
mod Tests
