-- ===== src/Lib.antt =====
-- A model of the core of ProxyLane, a Windows program that hooks the sockets of other processes and
-- carries their traffic through a proxy.
--
-- How the parts interact. A hook in the client's process (src/ProxyLaneHook) asks the host where a
-- connection goes, with the records of structinfo.h: `SockAddr` and `Prc`. The policies of `Dns`
-- decide on resolvers and IPv6. For UDP the host keeps tasks for each client socket: a task has
-- local routes, one for each destination (`Udp.Routes`, which rests on the sharing policy of
-- `Udp.Destination`), two bounded queues (`Udp.Pending`), and a server peer that speaks SOCKS5
-- (`Socks5Udp`). Whether an association may be tried at all is asked of a circuit breaker that the
-- tasks share (`Udp.Capability`). The task itself is a state machine driven by its sockets and a
-- timer (`Udp.Task`), and `Udp.Manager` gives each socket its tasks and each route its port.
-- `Udp.Payload` bounds what the hook hands on, and `Udp.BlockLog` the lines on what it refuses.
-- For TCP a task is two peers, the application's and the server's, each of which receives for the
-- other to send (`Tcp.Peer`), and `Tcp.Manager` keeps the tasks and ends those of an application
-- that is to reconnect. A browser's own process settles whether QUIC is off in it
-- (`QuicPolicy.Browser`) and reports to the table the host keeps of the browsers (`QuicPolicy`).
-- `Registry` is the host's table of hooked processes and `LogQueue` the queue between the log's
-- writers and the window. Apart from these, the UI starts an elevated copy of itself with a request
-- on the command line: `ElevatedRequest` in the text of `Base64Url`. It keeps profiles in an INI
-- file (`IniFile`, `ProfileStore`), shares them as text (`ProfileShare`), starts programs from a
-- command line (`CommandLine`, with the writer of such lines in `CommandLine.Quote`), puts off a
-- child's signature policy until the hook is in (`Mitigation`), asks for what it shows in threads of
-- its own (`Snapshot`) and ends the processes the user chose (`Termination`).
--
-- Files and the code they model:
--   Base64Url        src/ProxyLaneHook/ElevatedLaunchProtocol.h, the ProxyLaneBase64Url functions
--   ElevatedRequest  the same file, ProxyLaneParseElevatedRequest; the writer in
--                    src/ProxyLane/Page3.cpp; the reader ElevatedLaunch in ElevatedLauncher.cpp
--   Socks5Udp        Socks5UdpCodec.cpp and .h, CSocks5UdpCodec
--   SockAddr, Prc    structinfo.h, ProxyTransportPolicy.h
--   Dns              DnsRedirectPolicy.h, DnsNamePolicy.h, DnsAddressFamilyPolicy.h,
--                    Ipv6BlockPolicy.h, DirectIpv6Route.h
--   Registry         ProcessRegistry.h, CProcessRegistry
--   LogQueue         src/ProxyLane/BoundedLogQueue.h
--   Udp/Capability   UdpAssociationPolicy.h, CapabilityCircuit, and the functions of
--                    CProxyUDPTaskMgr in ProxyTaskMgr.cpp that use it
--   Udp/Destination  UdpAssociationPolicy.h, the destinations
--   Udp/Pending      UdpProxyTask.cpp: QueueDatagram, QueueReply, ExpirePendingDatagrams,
--                    FlushPendingReplies
--   Udp/Routes       UdpProxyTask.cpp: AddRoute, HasRoute, CanAcceptRoute, ForwardServerDatagram
--   Udp/Task         UdpProxyTask.cpp: the states; Udp/Task/Handlers the handlers, each a function
--                    on the task; Udp/Task/Events the events, whose lists are the task's runs
--   Udp/Manager      ProxyTaskMgr.cpp: the rest of CProxyUDPTaskMgr, with MatchesAssociation, IsClosed
--                    and SetTaskInfo of UdpProxyTask.cpp; Placing has the registrations, Ending the
--                    ends and the timers
--   Tcp/Peer         PRCTcpPeer.cpp and .h, TimeoutMonitor.h; Tcp/Peer/Handlers the handlers of the
--                    sockets' events and the timer, Tcp/Peer/Runs their lists
--   Tcp/Manager      TcpProxyTask.cpp, ConnectProxy of PRCTcpPeer.cpp, and CProxyTCPTaskMgr of
--                    ProxyTaskMgr.cpp
--   Udp/Payload      UdpPayloadPolicy.h
--   Udp/BlockLog     UdpBlockLogLimiter.h, CUdpBlockLogLimiter
--   QuicPolicy       BrowserQuicPolicy.cpp: Observe, Lookup, Forget
--   QuicPolicy/Browser  the same file: the state of a browser's process, its threads and reports
--   IniFile          src/ProxyLane/IniFile.cpp: ReadIniBuffer, WriteSection, ReadSection
--   ProfileStore     src/ProxyLane/ProxyProfileStore.cpp: EncodeFilter, DecodeFilter
--   ProfileShare     src/ProxyLane/ProfileShareCodec.h: Base64Url, Encode and Decode around the JSON
--   CommandLine      src/ProxyLane/AutomationOptions.cpp: ParseAutomationOptions (Parse) and
--                    RawTailAfterArgument (Tail)
--   CommandLine/Quote   the same file: QuoteCommandLineArgument, BuildAutomationCommandLine
--   Mitigation       DeferredMitigationPolicy.h
--   Snapshot         src/ProxyLane/AsyncSnapshot.h
--   Termination      src/ProxyLane/ProcessActions.h
--   Common           bytes, lists, 32-bit ticks and C strings
-- A child module with a name of its own (RoundTrip, Breaker, Runs) holds proofs, and a Tests module
-- holds runs at concrete inputs.
--
-- Conventions. A DWORD is a natural number below 2^32 with the wrap-around written out (`sub32`,
-- `add32`); a byte string is a list of numbers; addresses stand in network byte order. A null
-- pointer is `none`, and a function that returns FALSE returns `none` or a pair with `false`. The
-- loops are structural recursions; three count down a number, the loop over the offsets of a command
-- line (one for each), the inner loop of ProfileShare's encoder (its bit count, of which each round
-- takes six) and the loop of ReadIniBuffer (thirteen rounds: twelve sizes from 512 to 2^20, and the
-- test that ends it). A handler reads the clock once, where the code reads it again a moment later.
-- The loops of OnReceive and TransferSend recur on the list of what the socket answers; where the
-- list ends, the socket would block. What the sockets answer, the tests of ws2ipdef.h on IPv6
-- addresses, the system's route query, the profile functions of Windows, CommandLineToArgvW and
-- `wcstoul` are parameters; the documented rules of CommandLineToArgvW are the hypothesis
-- `IsDocumented`.
--
-- Not modelled: the hooks and the injection, the windows, the pipes, the socket library in
-- src/ProxyLaneHook/asynsocket, the UDP peer (PRCUdpPeer.cpp), the Rust libraries (MITM, QUIC, secure
-- transport) and what the code copies from other projects. Of the TCP tasks, the bridge to the MITM
-- library, the capture of traffic and the making of a proxy layer. Of the UDP task, the QUIC bridge,
-- the capture of traffic and the partner pointers.
pub mod Common
pub mod Base64Url
pub mod ElevatedRequest
pub mod Socks5Udp
pub mod SockAddr
pub mod Tcp
pub mod Termination
pub mod Snapshot
pub mod Prc
pub mod CommandLine
pub mod Dns
pub mod Registry
pub mod LogQueue
pub mod ProfileStore
pub mod IniFile
pub mod Mitigation
pub mod ProfileShare
pub mod QuicPolicy
pub mod Udp
