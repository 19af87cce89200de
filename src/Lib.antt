-- ===== src/Lib.antt =====
-- hdlcd: a daemon that shares serial devices which speak HDLC. This library models the daemon from the
-- bytes on the line to the sessions of its clients.
--
-- Parts, with the files of the repository and the modules that model them:
-- - src/SerialPort/HDLC/FCS16.{h,cpp}: Hdlc/Fcs16. `pppfcs16` is the loop over the table `fcstab`;
--   Bitwise has the polynomial division that the table stands for, Detection the residue.
-- - src/SerialPort/HDLC/HdlcFrame.{h,cpp}: Hdlc/Frame (the class) and Frame/Dissect (its text).
-- - src/SerialPort/HDLC/FrameGenerator.cpp: Hdlc/FrameGenerator. SerializeFrame, ApplyFCS and
--   EscapeFrame are `serialize_frame`, `apply_fcs` and `escape_frame`.
-- - src/SerialPort/HDLC/FrameParser.{h,cpp}: Hdlc/FrameParser. AddReceivedRawBytes, AddChunk,
--   RemoveEscapeCharacters and DeserializeFrame have the same names in snake case. The ProtocolState
--   that a parser reports to is a state `S` with a function `interpret`.
-- - src/SerialPort/HDLC/AliveState.{h,cpp}: Hdlc/AliveState. A timer is armed or not.
-- - src/SerialPort/HDLC/ProtocolState.{h,cpp} with ISerialPortHandler.h and BufferType.h:
--   Hdlc/ProtocolState. Transmit has OpportunityForTransmission, cut into the stages that choose the
--   next frame, Receive has InterpretDeserializedFrame, Operations the public operations and the
--   timers. It owns a parser and an AliveState. Its calls on ISerialPortHandler are recorded in the
--   list `emitted`; the answers of RequiresBufferType are an argument of each operation. Outgoing, Repeat
--   and Round have such objects at the ends of a line.
-- - src/SerialPort/SerialPortLock.{h,cpp}, src/HdlcdServer/LockGuard.{h,cpp} and AliveGuard.h: Lock.
--   Holders has the guards of all clients of a port with the counter that they share.
-- - src/HdlcdServer/HdlcdServerHandler.{h,cpp}: Client. Operations has one function for each method,
--   with OnFrame cut at the call of GetSerialPortHandler, whose effect on the client is an argument.
--   The pointers to the endpoints and to the port are the fact that they are set. Reachable has a client
--   with what its packet endpoint does, as steps.
-- - src/SerialPort/SerialPortHandler.{h,cpp} and BaudRate.h: Serial. The handler contains the lock of
--   Lock and the protocol of Hdlc/ProtocolState; `drive` calls the protocol and then carries out the
--   calls that it has emitted. on_read and on_written are the callbacks of DoRead and DoWrite. Reachable
--   has the calls of clients, port and timers as steps, Dial, Tuning and Searching the search for the baud
--   rate.
-- - src/SerialPort/SerialPortHandlerCollection.{h,cpp}: Ports, a map from names to handlers of Serial.
--   Lookup has the map, Sharing the calls of GetSerialPortHandler.
-- - src/HdlcdServer/HdlcdServerHandlerCollection.{h,cpp}: Server, a list of the sessions of Client with
--   acceptance and Shutdown. Members has the list in one state, Shutdown its states, Others the
--   end of Shutdown if clients are stopped before their turn.
-- Base holds the shared helpers; the modules whose names end in Tests run the models at concrete inputs.
--
-- Numbers are natural numbers with the masks and shifts of the source written out. A failed assertion
-- or a read outside a buffer is `none`; ProtocolState has the member `failed` for it.
-- Bounds and fuel: AddReceivedRawBytes runs on as much fuel as there are bytes, since every chunk takes
-- at least one; the loop that lists missing frames runs eight rounds, one for each sequence number; a
-- number has at most as many digits as its value plus one; the loop of the server's Shutdown runs as many
-- rounds as there are clients. The counter of locks and those of the subscribers wrap around at 2 ^ 64.
--
-- The calls of a client and of a port handler are logged with the newest call first.
--
-- Not modelled: the sockets and the acceptor, main-hdlcd.cpp, and the submodules under libs
-- with the packets and the two endpoints of a connection. Of the serial port of boost::asio the model
-- has whether it is open and what is pending, with the documented results: an asynchronous operation
-- ends once, with an error code if the port is closed, and cancel and set_option throw on a closed port. A timer that is cancelled never fires, so
-- the race of boost::asio between the expiry and the cancellation is left out. What a client does in
-- answer to a call, such as the SendPayload that QueryForPayload leads to, is the next operation here.
-- What the clients require does not change within one operation of the protocol. In the
-- server's Shutdown it is an argument which other clients the end of a client stops, through the lock that
-- it gives back.
pub mod Base
pub mod Hdlc
pub mod Lock
pub mod Client
pub mod Serial
pub mod Ports
pub mod Server
pub mod Tests
pub mod LinkTests
pub mod LockTests
pub mod ClientTests
pub mod SerialTests
pub mod ServerTests
pub mod PortTests
