-- ===== src/Lib.antt =====
-- Models of transport-cpp, an event loop with devices for Linux, and the theorems that they meet.
--
-- The program. An engine (src/engine.cpp) keeps a list of devices, a map from handles to devices
-- and a table for `poll`; a device (src/device.cpp) has a handle, the engine that it is loaded into
-- and its last error. The two call one another when a device is registered, released or given a new
-- handle. The engine's loop polls and calls each device whose handle is ready. An IODevice
-- (src/iodevice.cpp) is a device that reads and writes bytes, a NetworkDevice
-- (src/networkdevice.cpp) one that has addresses as well; a serial port (src/serial.cpp) is an
-- IODevice and a timer (src/timer.cpp) a device. The logger, which devices and engines may share, and
-- the information on the build are in src/transport-cpp.cpp.
-- Over NetworkDevice stand the classes that a program uses: clients and servers of TCP
-- (src/tcpclient.cpp, src/tcpserver.cpp), whose acceptor makes a peer of each connection and
-- registers it with its own engine, and those of UDP (src/udpclient.cpp, src/udpsender.cpp,
-- src/udpreceiver.cpp, src/udpserver.cpp, src/udpmulticaster.cpp), whose server keeps raw pointers to
-- peers that the user owns.
--
-- The files.
-- - Types: include/transport-cpp/transport-cpp.h, and the types of the other headers.
-- - Int: `int` and durations as integers. Text: joined texts and numbers in decimal. Prelude: shared
--   names and lemmas.
-- - Os: the system calls as an interface over a state of the kernel; Os/OpenFiles: what they are
--   documented to do to the set of open handles.
-- - World: all engines and devices by address, with the stores of the subclasses' fields;
--   World/Invariant: when the tables of engines and devices fit one another.
-- - Engine: the map and the poll table of one engine (`registerNewHandle`, `deRegisterHandle`,
--   `requestRead`, `requestWrite`). Registry: `registerDevice`, `deRegisterDevice`, `deloadEngine`
--   and `~Engine`. EventLoop: `awaitOnce`, `awaitFor`, `awaitForever`, `awaitOnceUpto`.
-- - Devices: `Device`'s work on its handle; Devices/Steps: the operations as steps of a machine.
-- - IoDevice: queue and blocking sends; IoDevice/Receive: reading.
-- - Sockets: the socket calls as an interface, and `AddrInfo`. NetworkDevice: the addressed queue;
--   NetworkDevice/Receive: `receiveMessage`; NetworkDevice/Open: `createAndConnectSocket` and
--   `createAndBindSocket`.
-- - Endpoints: the fields and the code that the connected and the bound classes share;
--   Endpoints/Exchange: blocking sends through their handlers, and `syncRequestResponse`.
-- - TcpClient, UdpEndpoints: the clients, the sender and the receiver. TcpServer: the acceptor;
--   TcpServer/Peer: its peers. UdpServer: the server and the lifetime of its peers;
--   UdpServer/Peer: sending through a peer; UdpServer/Receive: the routing of what arrives.
-- - Loop: the virtual calls of the event loop on the TCP classes, with the fields of the endpoints
--   beside the kernel's state; its children: what one turn does, and what all turns keep.
-- - Interfaces: `getAllInterfaces`, `getLocalBroadcasterAddr` and `ifaceExists`. Multicaster: the
--   state of a multicaster; Multicaster/Groups: `publishToGroup` and `subscribeToGroup`;
--   Multicaster/Interface: `setInterface` and `setLoopback`; Multicaster/Send: both ways of sending.
-- - Tty: settings, termios flags and rates. Serial: `openDevice` and the listing of ports.
-- - Timer, Logger: the classes of these names. Logging: which logger a device or an engine has, and
--   what it forwards to it (`setLogger`, `log…`, `logLastError`); Logging/Unhandled: the virtual methods
--   of `Device`. Information: `Transport::Information`, with the macros of the compiler as parameters.
-- - Tests and its children: small kernels on which the theorems are applied.
-- The other children of a module are its proofs.
--
-- How it is modelled. Methods are functions from a state to a result and the next state. A null
-- pointer or an empty optional that the code would read sets `fault`. Virtual methods and the
-- user's callbacks are parameters, which may change the whole state: so a callback may register and
-- release devices in the middle of a round of the loop. Handles are 32-bit patterns, so that -1 is
-- 4294967295; flag words are sets of bits. The kernel is a parameter: what a theorem needs of it is
-- a record of laws with a name, and a test shows a kernel that obeys them. An object that `new` makes
-- gets its address as an argument. Durations are 64-bit counts of milliseconds; their conversion to
-- nanoseconds is a product in 64 bits, whose overflow C++ leaves undefined and the model wraps around.
-- A peer that the user has destroyed is marked, and reading through a pointer to it sets `fault`.
-- Socket addresses and masks are the bytes that lie in the memory of a little-endian host, which the
-- source's constants assume.
--
-- Bounds. `read` and `recvfrom` are repeated until nothing is left, which the kernel decides: these
-- loops have fuel, and the theorems ask for more than the number of pieces that arrive. The loops
-- over addresses need more fuel than there are addresses; the loops that wait need as many rounds as
-- the clock takes to pass the timeout, of which the theorems allow as many milliseconds as have
-- nanoseconds in 64 bits (9223372036854). `deRegisterDevice` and `deloadEngine` call each other with a
-- bound of two, which is shown to be enough.
--
-- Not modelled. The single log lines that the operations send, which change no state but that of the
-- logger; buffers that are static per thread, so that a callback is taken not to run the same loop
-- again; the conversion of nanoseconds to a `timespec` in floating point, which is a parameter; the text
-- that `strerror` adds to a description, except where it is named. Classes are joined to the event loop
-- for TCP only; those of UDP, the serial port and the timer are modelled by their methods.
pub mod Prelude
pub mod Types
pub mod Engine
pub mod Int
pub mod Interfaces
pub mod Os
pub mod World
pub mod Registry
pub mod Devices
pub mod EventLoop
pub mod IoDevice
pub mod Text
pub mod Tty
pub mod Serial
pub mod Sockets
pub mod NetworkDevice
pub mod Logger
pub mod Information
pub mod Logging
pub mod Loop
pub mod Timer
pub mod Endpoints
pub mod TcpClient
pub mod TcpServer
pub mod UdpEndpoints
pub mod UdpServer
pub mod Multicaster
pub mod Tests
