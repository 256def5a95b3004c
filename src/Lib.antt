-- ===== src/Lib.antt =====
-- libatbus, a message bus of nodes that form a tree: a model of its core and what is proved of it.
--
-- A node (src/atbus_node.cpp) keeps one endpoint for itself and one for each node that it knows: its
-- parent, its brothers and its children. Brothers and children stand in routing tables that are
-- keyed by the last bus id of a domain. An endpoint (src/atbus_endpoint.cpp) holds the connections
-- to one node and answers for the ids of its domain. Connections carry messages over channels; the
-- stream channel frames a message by a variable-length integer and stores it in a buffer manager
-- (src/detail/buffer.cpp).
--
-- A message that a node sends goes to the endpoint that next_hop picks, through a connection of that
-- endpoint; the message handler of the receiver delivers it, forwards it or answers. A registration
-- turns a connection into an endpoint of the receiver.
--
-- Files and what they model:
--   Status           include/detail/libatbus_error.h, the codes that functions return
--   Buffer/Vint      src/detail/buffer.cpp, fn::read_vint and fn::write_vint, on lists of bytes
--   Buffer/Block     src/detail/buffer.cpp, buffer_block: sizes, addresses, what is left of it
--   Buffer/Manager   src/detail/buffer.cpp, buffer_manager while its static buffer is null: the list
--                    of blocks, the limits and their counters
--   Buffer/Static    src/detail/buffer.cpp, buffer_manager with a static buffer: the ring of pointers into
--                    one piece of memory; Grow has the pushes, Shrink the pops
--   Endpoint/Domain  src/atbus_endpoint.cpp, the arithmetic on bus ids
--   Endpoint/Select  src/atbus_endpoint.cpp, the connections of an endpoint: add_connection,
--                    is_available, get_ctrl_connection, get_data_connection
--   Protocol         include/detail/libatbus_protocol.h, the messages and their init
--   Node/Table       src/atbus_node.cpp, find_child, insert_child, remove_child over the std::map
--   Node/State       include/atbus_node.h, the fields of a node, and the events that it tells
--   Node/Members     src/atbus_node.cpp, the endpoints that a node knows: get, add and remove them,
--                    disconnect, faults; reset of an endpoint and disconnect of a connection
--   Node/Route       src/atbus_node.cpp, the choice of the next node in send_msg
--   Node/Send        src/atbus_node.cpp, the send functions, with those of
--                    src/atbus_msg_handler.cpp which they call
--   Node/Links       src/atbus_node.cpp and src/atbus_connection.cpp, connect of a node, reset of a
--                    connection, remove_connection of an endpoint
--   MsgHandler       src/atbus_msg_handler.cpp, the handlers: Transfer for data, Register for
--                    registrations, Dispatch for the others, dispatch_msg and on_recv of a node
--   Channel/Bytes    memory as bytes, with memcpy and the fields of 64 bits
--   Channel/Mem      src/channel_mem.cpp, mem_init, mem_send and mem_recv; Fifo is the queue of messages
--                    that a channel stands for, Stands says what that means
--   Channel/Address  src/channel_utility.cpp, make_address; a string is a list of bytes, snprintf and
--                    sscanf are parameters, a port is an integer of any sign
--   Channel/Stream   src/channel_io_stream.cpp, the frames of io_stream_send and the loop over the head
--                    buffer in io_stream_on_recv_read_fn; the cast of a length for libuv and the 512
--                    bytes of the head buffer are conditions on libuv, which is not modelled
--   Crc              src/detail/crc32.cpp and src/detail/crc64.cpp, with their tables; Whole has the division
--                    of a text that they are compared with
--   Base             tests, lists and bit operations that the others share
--
-- Numbers are native naturals; the wrap-around of machine words is written out. What a node tells its
-- callbacks and channels is a log of events in its state, the newest first. An environment of
-- functions (Env in Node/Send) stands for what lies outside the source or below the node: the size
-- of a packed message, what a channel answers to a push, what opening an address gives, and the step
-- of the counter for sequence numbers. What `::malloc` returns is an argument of the functions that
-- call it, and the clock one of mem_recv. The debug callback of a node is not set.
--
-- Loops are structural recursion on lists, bytes or the room that is left. Where a loop goes round
-- the nodes of a memory channel, it is given as many turns as the channel has nodes; a loop that
-- meets its end within one round needs no more. The search of mem_recv returns none when its turns
-- run out, which is shown not to happen. The walk of a message over many nodes, which only the
-- theorem on delivery uses, is given a number of steps that a mask bounds.
--
-- Memory channels have one writer and one reader, so a compare and exchange succeeds; a size_t has 64
-- bits, a node of data 128 bytes, which are the defaults of the build.
--
-- Not modelled: the state machine of a connection (listen, connect, proc and the callbacks of
-- channels) and the timer that a new connection gets; init, start, reset and proc of a node;
-- mem_attach, a configuration that is given to mem_init, and several writers of a memory channel; the
-- shared memory channel; the stream channel but for its frames; the tree in a node_sync message,
-- which no handler reads. The libraries libuv and msgpack, and the copy of c_cpp_utils, are other projects.
pub mod Base
pub mod Status
pub mod Buffer
pub mod Crc
pub mod Endpoint
pub mod Protocol
pub mod Node
pub mod MsgHandler
pub mod Channel
