-- ===== src/Lib.antt =====
-- The verification library of Sponge, a user-space TCP stack in C++ (libsponge).
--
-- The program: a TCPConnection holds a TCPReceiver and a TCPSender. The receiver turns the segments
-- of the peer into pushes into a StreamReassembler, which writes the bytes in order into a
-- ByteStream that the application reads; the sender reads the bytes of the application from a
-- ByteStream, cuts them into segments that fit the peer's window, and sends them again when its
-- timer expires. Sequence numbers on the wire have 32 bits and start at a random number
-- (WrappingInt32); within the code they are absolute, with 64 bits, and wrap and unwrap go between
-- the two. Below the connection an adapter puts segments into IPv4 datagrams and these into
-- Ethernet frames: a NetworkInterface asks for the Ethernet address of an IP address with ARP and
-- keeps what waits for the answer. A Router moves datagrams between interfaces, by the longest
-- prefix of its routing table that matches.
--
-- The files:
--   Base             lists, Booleans and orders over the native natural numbers
--   Wrapping         libsponge/wrapping_integers.hh, .cc: wrap, unwrap and the operators
--   ByteStream       libsponge/byte_stream.hh, .cc: the buffer as the padded string the code keeps
--   Reassembler      libsponge/stream_reassembler.hh, .cc: the two strings _buffer and _written
--   Segment          libsponge/tcp_helpers/tcp_header.hh, .cc, tcp_segment.hh, .cc: the fields and
--                    length_in_sequence_space; Segment/Codec: parse and serialize
--   Buffer           libsponge/util/buffer.hh, .cc: Buffer, BufferList and BufferViewList
--   Parser           libsponge/util/parser.hh, .cc: integers in network byte order
--   Checksum         libsponge/util/util.hh, .cc: InternetChecksum
--   Ipv4, Datagram   libsponge/tcp_helpers/ipv4_header.hh, .cc, ipv4_datagram.hh, .cc
--   Ethernet         libsponge/tcp_helpers/ethernet_header.hh, .cc, ethernet_frame.hh, .cc
--   Arp              libsponge/tcp_helpers/arp_message.hh, .cc
--   Receiver         libsponge/tcp_receiver.hh, .cc
--   Sender           libsponge/tcp_sender.hh, .cc, the constant of tcp_helpers/tcp_config.hh
--   Adapter          libsponge/tcp_helpers/tcp_over_ip.hh, .cc, fd_adapter.hh, .cc,
--                    lossy_fd_adapter.hh, tuntap_adapter.hh: segments in datagrams, and devices
--   NetworkInterface libsponge/network_interface.hh, .cc: frames, ARP and the queues
--   Tap              libsponge/tcp_helpers/tuntap_adapter.hh, .cc: the adapter over Ethernet
--   Router           libsponge/router.hh, .cc, with AsyncNetworkInterface
--   Connection       libsponge/tcp_connection.hh, .cc: its calls, over the receiver and the sender
--   State            libsponge/tcp_helpers/tcp_state.hh, .cc: the official states
-- A child module Fields, Inv, Maps, Queues, Cells, Chain or Fill holds lemmas and invariants, the
-- other child modules are named for what they prove, and Examples holds runs at concrete inputs.
--
-- A member function that changes its object is a function from the object to the object, paired
-- with what it returns. A byte is a number. A std::string, a Buffer or a queue is a list; the
-- priority queue of the sender is a list sorted by absolute sequence number. Arithmetic on size_t,
-- uint64_t and uint32_t has its wrap-around written out where a value can reach it in a state the
-- theorems speak of. The loop of fill_window runs on fuel, the number of buffered bytes and two
-- more: each round but the last two takes a byte out of the stream. The loop that folds a checksum
-- runs on fuel of two rounds, and the inner loop of Router::route on fuel of the length of the
-- queue, which it never makes longer: for both the results below say that more rounds change
-- nothing. The other loops are structural recursion. An exception is none where no state is left to
-- look at, and otherwise an Outcome beside the state. A std::map is an association list in the
-- order of its keys (Base/Dict). The payload of a datagram or a frame, a
-- BufferList, is the list of the views of its buffers; its conversion to one Buffer throws where
-- there are more than one (Buffer/Views, as_buffer), and what a device gets is all the bytes.
-- What a device gives is an argument, what is written to it a result. random_device is the argument
-- `random` of the constructors of the sender and the connection.
--
-- Not modelled: the sockets, file descriptors, event loop and threads, which are calls of the
-- kernel; the programs in apps; what the destructor of a connection and the constructor of an
-- interface print; the printed names of the states and the other printed forms; as_iovecs and copy
-- of the buffers, which hand out pointers.
pub mod Base
pub mod Wrapping
pub mod ByteStream
pub mod Reassembler
pub mod Segment
pub mod Buffer
pub mod Parser
pub mod Checksum
pub mod Ipv4
pub mod Datagram
pub mod Ethernet
pub mod Arp
pub mod Receiver
pub mod Sender
pub mod Adapter
pub mod NetworkInterface
pub mod Tap
pub mod Router
pub mod Connection
pub mod State
