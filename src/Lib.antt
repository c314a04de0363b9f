-- ===== src/Lib.antt =====
-- go-serial-cli: a model of the parts of the command-line program that decide what goes over a
-- serial line, with the theorems that make those parts correct.
--
-- The program opens a serial port or a relay in front of one, sends payloads over it, shows what
-- the device says, and moves files with ZMODEM. This development follows the paths of the Go
-- sources under internal/. Each file opens with the source it is about.
--
--   Zmodem/Crc, Header, Escape, Encode, HexRoundTrip
--                         internal/serialcmd/zmodem_proto.go: constants, CRC-16, the escaper,
--                         the hex and binary header encoders, the subpacket encoder, hex digits
--   Zmodem/Unescape, Scan, EscapeRoundTrip, ScanRoundTrip, ScanBounds, DeviceText
--                         internal/serialcmd/zmodem_link.go: zUnescapeN, zScanHeader,
--                         cleanDeviceLine, isDeviceTextLine
--   Zmodem/Link, LinkFrames, LinkWrite, LinkRead, DleRoundTrip, Subpacket
--                         internal/serialcmd/zmodem_link.go: the methods of zLink
--   Text/Payload, PayloadBounds, HexPayload, HexPayloadRoundTrip
--                         internal/serialcmd/payload.go: escapes, hex payloads, line endings
--   Text/Display, DisplayRoundTrip, Monitor, MonitorOrder
--                         internal/serialcmd/monitor.go: lines on the terminal, the merged view
--   Text/Chunks, ChunksCover, ChunksWrite, LastLines
--                         internal/serialcmd/timed_chunks.go: the capture and its index
--   Text/Overlay, OverlayChunks
--                         internal/serialcmd/txoverlay.go: other senders' bytes, line by line
--   Port/Claim, ClaimHeld
--                         internal/serialcmd/transfer_claim.go: who may write during a transfer
--   Port/Request, RequestBytes
--                         internal/serialcmd/portlease.go and transfer_claim.go: readRequest and
--                         readClaim, the first bytes of a control connection
--   Port/Lease, LeaseSystem, LeasePhases, LeaseHeld, LeaseLent, LeaseHandles
--                         internal/serialcmd/portlease.go, and of serial.go the loops and requests
--                         that call it: the port lent to another program
--   Transfer/Frames, Send, Stream, SendReady, SendWaits, SendHonest
--                         internal/serialcmd/zmodem.go: streamFile and what it calls
--   Transfer/Receive, ReceiveSafe, ReceiveWhole
--                         internal/serialcmd/zmodem.go: receiveData
--   Transfer/Delivery, Quiet, QuietSteps, QuietSend
--                         both sides of a file with a line between them
--   Transfer/Names, NamesSafe
--                         SanitizeTransferName of internal/serialcmd/zmodem.go
--   Transfer/Disk, DiskRemove, DiskFree, DiskEntries, Decide, DecideSafe, DecidePolicy
--                         fileExists, renamedPath, decide and zmanagement of zmodem.go
--   Transfer/Options, OptionsBounds
--                         the defaults of TransferZModem, useReceiverInit, answerWait and
--                         sessionOutcome of zmodem.go
--   Transfer/ReceiveFile, ReceiveFileSafe, ReceiveFolders, ReceiveResume,
--   ReceiveFileWhole
--                         receiveFile and commitPart of zmodem.go
--   Shell/Detector, DetectorPads, DetectorChunks, DetectorFeed
--                         zDetector of internal/serialcmd/zmodem_shell.go
--   Shell/Gate, GateKeys  shellGate of internal/serialcmd/zmodem_shell.go
--   Worker/Retry, RetryDelay
--                         internal/worker/retry.go
--   Common                the operations on lists, bytes, options and tests that the parts share
--   Tests                 runs on concrete inputs, and every theorem applied at one
--
-- A byte is a native number, and `IsByte` says that it is below 256. A machine word keeps its
-- wrap-around written out: the CRC register is taken mod 2 ^ 16 where the Go type is uint16.
-- A method that changes its receiver takes the record and returns the changed one.
--
-- The reader goroutine of zLink and the clock are the environment. A Link holds the bytes read
-- and not yet used, and the list of what is still to come out of the channel: chunks, errors and
-- silences that outlast the caller's deadline. A write takes the list of the answers of the port.
-- Time itself is not modelled, only whether a deadline passed. hash/crc32 is a parameter: a
-- function from bytes to a number.
--
-- The capture is a pair of values, the cache and the entries of its index; each write takes what the
-- file system answers. The format of a time is a parameter, and a time is a number. The lease of a
-- port is modelled by the sections that run under its lock. LeaseSystem puts them into steps: one
-- step is one section, or one call that opens or closes the port, so that the steps of the read loop,
-- of a request and of the end of the session interleave freely. A release that gives up after two
-- seconds is not among the steps.
--
-- The data phase of a transfer stands on frames: what one call of readHeader or readSubpacket gives,
-- a header, a subpacket, damage, silence or an error. Times are numbers there, in milliseconds. The
-- sender's calls of pollHeader and readHeader return the events of a list, and a mode tells at which
-- call the sender stands; the receiver takes the frames of a list. The bytes of a frame are the
-- matter of the modules on zmodem_link.go and zmodem_proto.go.
--
-- The disk of a receiver is a list of paths with what is there. What the calls of the file system
-- return is a record, and each write leaves the disk that those answers allow. A name is the list of
-- its runes; the tables of unicode are parameters. The CRC of a front of a file is a parameter, as is
-- what the sender answers to ZCRC. A time is a number, and a duration is in milliseconds.
-- The paths for which Lstat fails in another way than that nothing is there are a parameter, and so is
-- how many names of renamedPath's loop, which nothing bounds, are watched: one more than the disk has
-- entries is enough where Lstat does not fail. MkdirAll gives the folders that it makes.
--
-- Loops that Go bounds by its input are structural. The rest run on fuel, and a result type with
-- the constructor `stuck`, which no Go value corresponds to, tells an exhausted fuel apart from
-- every result: zdlread has the number of bytes and chunks still to come and two more, readSubpacket
-- that number and one more, readHeader a round for each arrival and one more, pollHeader one for
-- each pending byte and one more. Each round uses up at least one of what is counted.
--
-- Not modelled: the system calls of the port and of the file system, the terminal's panels, the
-- processes that are started, and the commands of the tools that are bundled.
pub mod Common
pub mod Port
pub mod Text
pub mod Transfer
pub mod Shell
pub mod Worker
pub mod Zmodem
mod Tests
