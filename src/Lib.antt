-- ===== src/Lib.antt =====
-- A model of the peer-to-peer node of this repository in its stateful parts, with what makes them
-- correct. The node keeps a pool of relays that it scores, selects and evicts, a database of the
-- peers it has heard of, a list of the peers it stays in touch with, the addresses it announces and
-- a detector of whether the host is online. Over its connections it sends files and, through a hub
-- of streams to each peer, the packets of a virtual network. The parts share no state here: each
-- has its own lock in the source, and the connections come to them as events.
--
-- Which file models which code:
--   RelayPool      p2put/relaypool.go. RelayPool has the types and the scores, RelayPool/Prune the
--                  method prune in its stages, RelayPool/Ops the other methods that change the
--                  pool, RelayPool/Select the methods that choose relays and Stats. RelayPool/Run
--                  has histories of calls. A snake_case name is the source's camelCase one.
--   PeerDb         p2put/peerdb.go.
--   Offline        p2put/offline.go; `evaluate` is one tick.
--   StablePeers    p2put/stable_peers.go. The package-level map is the state; `handle` is the switch of
--                  the event handler. Printing of times is left out.
--   RelayFile      p2put/relayfile.go and p2put/filecomp.go: Frame, Bitmap, Pack and Detect are the
--                  functions of those names, Receive the loop of receiveLoop, one frame at a time,
--                  Accept what HandleFileStream does before it, Send the turns of SendFile, with
--                  Send/Remote the receiver as its peer, and Poll ReceiveFile. Progress callbacks
--                  and the names of files are left out.
--   AddrManager    p2put/addrmgr.go, with mergeAddrs of p2put/libp2p_bs.go.
--   Tunnel         iptunnel/hub.go and iptunnel/reaper.go: the list of carriers of a hub, the map of
--                  hubs and the reaper. Tunnel/Write is the method write with its retries, and
--                  Tunnel/Inbound has pump, handleStream and WriteToPeer of iptunnel/iptunnel.go.
--   Turn           p2put/turnpool.go and p2put/turnpeer.go: Turn has a server and what connect,
--                  reallocate and shutdown open and close, Turn/Loop its goroutine, Turn/Pool the
--                  map of servers, Turn/Permissions the IP addresses, and Turn/Peer the test peer.
--   Push           p2put/pushid.go: HandlePushStream and PushToPeer, over PeerDb and the permitted
--                  addresses of Turn/Permissions. What AddrMgr.GetAll and the TURN pool give is a
--                  field of the node.
--   Softun         softun/softun_tcp.go: the markers of connections that are being opened, and the
--                  refusal of a SYN. Softun/Ports is softun/softun_loportmap.go, Softun/Udp is
--                  softun/softun_udp.go, Softun/Route is softun/softun.go: Known is peerIPs, Choice the
--                  choice by the destination, Laws where packets go.
--                  Softun/Dispatch is handleInbound, Softun/Icmp softun/softun_icmp.go.
--   IrohRelay      p2put/irohrelay.go: Codec is its bytes, Conn the connection to a relay with its
--                  handshake and loop, Streams the multiplexed streams with their managers on a
--                  store of objects, Lifecycle the pool. A relay server is a function on messages.
--   Virtun         fbvirtun: Checksum is that of fbvirtun/virtun.go, Packets, Peers and Tcp are
--                  fbvirtun/virtun_tcp.go, Udp is fbvirtun/virtun_udp.go.
--   Dict           Go maps as lists of entries, in the order of a `range`.
--   Runtime        float64, sort.Slice and time, as parameters.
--   Prelude        shared names, tests on numbers, lists and counting.
--
-- A method that runs under a lock is one function from state to state. Time is a number of
-- nanoseconds since Go's zero time, which the clock hands in; peer IDs and addresses are numbers
-- that are only compared. Loops over a list are recursion on it. The others run on fuel: that of
-- the method write in Tunnel/Write, for which 49 turns are enough; that of a stream's Write in
-- IrohRelay, with a turn for each byte, as each turn sends at least one; that of the groups of a
-- uint64, of which there are 10 at most; and that which folds the carries of a uint32, at most
-- twice. receiveLoop is given the frames that come. Log lines, goroutines, tickers and network calls
-- are not modelled: what they bring in (the result of a ping, the connections of the host, the
-- frames of a stream) is an argument. The packages that the code imports and myvendor are not
-- modelled.
pub mod Prelude
pub mod Dict
pub mod Runtime
pub mod RelayPool
pub mod PeerDb
pub mod StablePeers
pub mod AddrManager
pub mod Tunnel
pub mod Turn
pub mod Push
pub mod Softun
pub mod Offline
pub mod IrohRelay
pub mod RelayFile
pub mod Virtun
