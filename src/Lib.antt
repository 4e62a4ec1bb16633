-- ===== src/Lib.antt =====
-- zerogo: a virtual Ethernet network over UDP. Each node has an identity, keeps encrypted
-- connections to its peers, and switches the frames of its device among them.
--
-- The parts, by file:
--   Base: shared types and lemmas. Base/Wire has Go's `copy` and the encodings of
--     `encoding/binary`, Base/Maps Go's maps as association lists, Base/Outcome `(value, error)`
--     results, Base/Bits the laws of or and exclusive or that the comparison of codes needs,
--     Base/Decimal the decimal texts of numbers as `fmt` and `strconv` write and read them.
--   Crypto: BLAKE2s, X25519 and ChaCha20-Poly1305 as a record of functions, since their code is
--     not in the repository, and `Laws`, what their documentation promises; Crypto/Toy satisfies the
--     laws.
--   Identity: internal/identity. Addresses as five bytes, their text and numbers, the clamping of
--     private keys, `LoadOrGenerate` over the content of its file.
--   Vl1/Packet: internal/vl1/packet.go. `none` is the panic of a slice out of range.
--   Vl1/Noise: the handshake of internal/vl1/noise.go. A method passes the handshake's state on,
--     also through its error returns. What `rand.Read` gives is an argument.
--   Vl1/Cipher: the transport cipher of the same file, with 64-bit counters that wrap.
--   Vl1/Peer, Vl1/Manager: internal/vl1/peer.go. Peers stand on a heap, to which the map of peers
--     and the index of endpoints point, so that both see one peer's changes.
--   Vl2/Frame, Vl2/Mac: internal/vl2/frame.go and internal/vl2/mac.go.
--   Vl2/Eviction: the loops for the oldest and for stale entries, which the next two share.
--   Vl2/Switch: internal/vl2/switch.go, over the interface of Vl2/Sender, with the sender's state
--     passed through. Vl2/Switch/Bridge specifies it without its table, Vl2/Switch/Refinement
--     compares the two, and Vl2/Switch/History relates the table to the frames heard.
--   Vl2/Arp: internal/vl2/arp.go.
--   Agent: internal/agent/agent.go. A `Node` is what sends: the peers, and a log of the datagrams
--     that were written; it is the state behind the switch's sender. Agent/Receive has the handlers
--     of packets, Agent/Tap one round of the loop that reads the device, Agent/Maintenance the
--     keepalives and the hellos of a maintenance round, Agent/Wellformed what all of them keep,
--     Agent/Delivery a frame's way from node to node, Agent/Broadcast a frame to many, Agent/Hello
--     the hellos. Agent/Client is internal/agent/controller.go: what the agent does with the
--     controller's messages (Agent/Client/Configuration, Agent/Client/Peers), its waits between
--     attempts to connect (Agent/Client/Backoff), and runs of all of the agent's handlers
--     (Agent/Client/Runs). Agent/Start is how an agent is made, started and stopped
--     (Agent/Start/Connected has its static peers, Agent/Start/Started its runs from the start on,
--     Agent/Start/Stopped the end of its connections).
--   Protocol: internal/protocol/messages.go, as the values that JSON texts stand for.
--     Protocol/Cidr is what is used of Go's `net`: the texts of IPv4 addresses and of networks.
--   Controller: internal/controller. The allocation of addresses in internal/controller/api.go;
--     Controller/Blocks has the arithmetic of a network's addresses, Controller/Allocation the
--     search. Controller/Store is the database as a record of queries (`Database`) with the laws
--     that the theorems need (`Laws`); Controller/Tables, lists of rows, satisfies them.
--     Controller/Sessions is internal/controller/ws.go: the map of connections
--     (Controller/Sessions/Registry), and what an agent is sent (Controller/Sessions/Access);
--     Controller/Sessions/Consistent says what the map keeps. Controller/Api has the handlers of
--     internal/controller/api.go on networks and members, Controller/Users logins, registrations and
--     the tokens of internal/controller/auth.go, with what their libraries promise in
--     Controller/Users/Login. Controller/Runs has runs of all of this.
--   Tun: the frames that internal/tap/tun_linux.go makes of packets, and the packets of frames.
--   Enrollment: the controller and an agent together, from `authorizeMember` to the agent's
--     device, and from an agent's join message to other agents (Enrollment/Discovery).
--
-- Function names are those of the code in lower case with underscores: `HandleLocalFrame` is
-- `handle_local_frame`. `time.Now` is an argument `now` in nanoseconds. A lock makes a method one
-- step, and a run is a list of steps in the order in which they take the lock. Bytes are numbers;
-- where a theorem needs them below 256 it says so. Texts are their bytes. Every loop is recursion
-- on the list that it walks, but for the search for an address: it has as much fuel as the network
-- has addresses, since each step goes to the next address; and the decimal text of a number below
-- 2 ^ 32 has at most 10 digits, which is its fuel. A map is an association list in any order: what
-- holds of it holds for every order of Go's `range`.
--
-- What is a parameter: the database, bcrypt, the JWT library, `net.ResolveUDPAddr`, and whether a
-- device can be created. Addresses of networks are IPv4, and texts of IPv6 addresses are refused.
-- Sizes and numbers in messages are not negative.
--
-- Not modelled: logs, buffer pools and the names of states for logs; sockets, devices, HTTP, SQL
-- and the web interface, which call libraries and the system; JSON texts; the settings of
-- transports and devices; how an agent's maintenance finds dead peers and renews ICE connections;
-- opening the database and starting the controller; the loops that read the connections between
-- controller and agent, of which each message is a step; addresses and routes of devices, which
-- are commands of the operating system.
pub mod Agent
pub mod Base
pub mod Controller
pub mod Crypto
pub mod Enrollment
pub mod Identity
pub mod Protocol
pub mod Tun
pub mod Vl1
pub mod Vl2
