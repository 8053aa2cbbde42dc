-- ===== src/Lib.antt =====
-- A model of btclite, a lite Bitcoin full node in C++, and its properties. Paths are from the root
-- of the repository, under src/.
--
-- The program's parts, from below. A node keeps its data in memory streams of bytes; a serializer
-- writes integers, counts, vectors and strings to a stream and a deserializer reads them;
-- transactions and block headers are serialized so and hashed. The compact number in a header
-- stands for its target, and the target for the work of the block. The block index is the tree of
-- all known headers, with skip pointers and the work of each branch; the active chain is one path
-- of that tree; the chain state puts new headers into the tree, notes the arrival of their
-- transactions and moves the tip. Towards the network, an address knows its kind, group and
-- reachability, a subnet is an address with a mask, the messages of the protocol are written to and
-- read from the same streams, and the address book keeps the peers by address and by group. A
-- connection is a node; the outbound ones are made by the connector from the address book, the
-- inbound ones by the acceptor, each into its table of nodes. The bytes of a connection are cut into
-- messages and dispatched to the handlers, which change the node; timers and bans disconnect it,
-- and its callback takes it out of the table. Beside them stand the ban list, the addresses of this
-- host, a ring buffer and hexadecimal text.
--
-- Files and code:
--   Prelude: the shared names, Boolean tests, lists, bits, bytes and 32-byte hashes.
--   Endian: utility/include/util_endian.h, ToLittleEndian to FromBigEndian; RoundTrip.
--   Stream: utility/include/blob.h, stream.h and utility/src/stream.cpp, ContainerSource::read,
--     ContainerSink::write and MemoryStream::Clear; Window says what is left to read.
--   Serialize: utility/include/serialize.h and utility/src/serialize.cpp, SerWriteVarInt,
--     SerReadVarInt and the vectors and strings; VarInt, Vectors, Text, Canonical, Steps (one field),
--     Objects (vectors of objects).
--   Hex: utility/include/string_encoding.h and utility/src/string_encoding.cpp, EncodeHex, DecodeHex.
--   CircularBuffer: utility/include/circular_buffer.h; Invariant, Window (its elements), Queue (one
--     operation each), History (sequences of operations), Exist.
--   Compact: consensus/include/compact.h and consensus/src/compact.cpp; Size (LogicalSize), Encode
--     (GetCompact), RoundTrip.
--   Transaction: consensus/include/transaction.h and consensus/src/transaction.cpp; Size
--     (SerializedSize), Amount (OutputsAmount), Cache (GetHash), Codec (Deserialize).
--   Merkle: Block::ComputeMerkleRoot of consensus/src/block.cpp, from the hashes on; Root.
--   Header: BlockHeader of consensus/include/block.h and consensus/src/block.cpp; Proof, Codec.
--   Block: Block of the same two files.
--   BlockIndex: chain/include/block_index.h and chain/src/block_index.cpp; Status, Work, Skip,
--     Ancestor.
--   Chain: class Chain of chain/include/chain_state.h and chain/src/chain_state.cpp; Path (SetTip),
--     Fork (FindFork), Locator (GetLocator).
--   ChainState: class ChainState of the same files; Valid (appending to the tree), Made (the new
--     block), Add (AddToBlockIndex), Genesis (LoadGenesisBlock).
--   NetAddr: class NetAddr of network/include/network_address.h and
--     network/src/network_address.cpp; Category (IsTor to IsRoutable), Codec, Group (GetGroup,
--     GetFamily), Reach (GetReachability), Ipv4 (SetIpv4), SockAddr, Print (ToString).
--   SubNet: class SubNet of the same files; Mask (the masks byte by byte), Match.
--   Protocol: network/include/protocol and network/src/protocol; Cut (texts cut to a
--     limit), Header (MessageHeader), Inventory (InvVect, Inv, Addr), GetBlocks, Ping
--     (with Pong), Reject, SendCompact, Version, Handshake (the RecvHandlers of Version and Verack).
--   Peers: network/include/peers.h, network/src/peers.cpp and network/proto/peers.proto; Table (the
--     protobuf maps), Book (the operations), Listed (the invariant), Change and Keep (what keeps it).
--   BanList: network/include/banlist.h and network/src/banlist.cpp; Laws.
--   Node: network/include/node.h and network/src/node.cpp; Behavior (Misbehavior), Flooding
--     (FloodingAddrs and RelayFloodingAddrsTimeoutCb of network/src/net.cpp), Counters (the static
--     counters), Table (class Nodes) with Entries, Life (from InitializeNode to DisconnectNodeCb),
--     Sound (the invariant), Join (new nodes), Reach (sequences of changes), Timeouts.
--   LocalService: class LocalService of network/include/net.h and network/src/net.cpp.
--   Connector: network/include/connector.h and network/src/connector.cpp; Open (its timer).
--   Acceptor: network/include/acceptor.h and network/src/acceptor.cpp, with the callbacks ConnReadCb
--     and ConnEventCb of network/src/libevent.cpp.
--   MsgProcess: network/include/msg_process.h and network/src/msg_process.cpp; Frames (ParseMsg),
--     Guard (what comes before the end of the handshake).
-- Modules named Runs hold concrete runs.
--
-- How code becomes definitions. A member function is a function from the state before to the
-- result and the state after. Integers are natural numbers with their wrap-around written out;
-- heights of blocks are below 2^30, so that the conversions of GetSkipHeight to int and the
-- doubled step of GetLocator stay exact, and clocks are not negative. An exception is an error
-- value, a failed assertion or undefined behaviour is none. The content of an uninitialised
-- variable is the parameter `stale`, and that of an uninitialised member the parameter `memory`.
-- Objects that the program makes with new stand in a list and a pointer is an index into it. The
-- hash functions, base32, the clock and random numbers are parameters or arguments; what a handler
-- sends is the list of its actions. What libevent, the resolver and the network interfaces return
-- is an argument, and libevent's buffer a record of its operations with the laws of pulling up and
-- draining. A node stands once in its table, and changes of it are written back there. The tests
-- for null pointers to a connection or its buffer are left out.
--
-- Fuel. LogicalSize of a 256-bit number shifts at most 32 times. The loops of GetAncestor, SetTip,
-- FindFork and GetLocator have the height of their block plus one at most, since a parent and the
-- target of a skip pointer are lower, and ComputeMerkleRoot has fewer rounds than leaves. ParseMsg has
-- one round more than there are messages in its buffer, which it drains by at least a header each.
-- That the fuel is enough is part of what is proved of them.
--
-- Not modelled: scripts; bloom filters; the orphan pool, which nothing ever fills; the download of
-- blocks, which the source switches off by #if 0; the eviction of nodes, which is commented out;
-- sockets, the start of event loops, threads and timers, locks, logging and files; tables of
-- constants; generated protobuf code; the third-party hash functions; the unit tests. The decimal
-- decoders are calls of the C library.
pub mod Prelude
pub mod Endian
pub mod Stream
pub mod Serialize
pub mod Hex
pub mod CircularBuffer
pub mod Compact
pub mod Transaction
pub mod Merkle
pub mod Header
pub mod Block
pub mod BlockIndex
pub mod Chain
pub mod ChainState
pub mod NetAddr
pub mod SubNet
pub mod Peers
pub mod Protocol
pub mod Node
pub mod LocalService
pub mod Connector
pub mod Acceptor
pub mod MsgProcess
pub mod BanList
