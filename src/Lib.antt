-- ===== src/Lib.antt =====
-- A reliable transport over UDP: the KCP control block of kcp_server, and what makes it correct.
--
-- The program. A control block (struct Kcp of src/kcp/kcp_module/kcp.rs) cuts what `send` is given
-- into segments, and `flush` numbers them, puts them into datagrams with acknowledgements and
-- window probes, and hands these to the UDP peer; `input` takes the datagrams of the other side,
-- acknowledges, and orders the segments, and `recv` gives the messages back. `update` and `check`
-- drive it by a clock of milliseconds. A listener greets each client, opens a control block for it
-- inside a peer, which stands behind a lock, and feeds the peer the client's datagrams, while the
-- user's handler reads from the peer and writes to it, and a loop of the listener updates it.
--
-- The files. Error is src/kcp/kcp_module/error.rs. Segment is KcpSegment and its wire format, and
-- Cipher is the coding of KcpOutput. Control has the state, its constructors and KcpOutput::send;
-- Receive has peek_size, recv, parse_data and wnd_unused; Transmit has send; Ack has update_ack,
-- shrink_buf, parse_ack, parse_una, parse_fastack and ack_push; Input has input; Flush has
-- flush, flush_ack, probe_wnd_size and flush_probe_commands; Timer has flush_async, update and
-- check; all these are functions of kcp.rs. Setup has its setters, and
-- src/kcp/kcp_module/kcp_config.rs. Safety is about any row of calls on a control block, and
-- its Network about two of them that exchange datagrams; its Operations says what each call
-- adds to the log; its Numbering, Sequence, Arrivals, Spared, Untouched, Unforged and Hearing follow
-- the receiving half through the calls, and its Delivered puts both halves together. Flush/Frames
-- says what a datagram is made of, on the terms (conversations and a key) that two ends have agreed
-- on, and with the log of what got a number, which Flush/Numbers lets grow by just what a flush
-- takes from the send queue; Flush/Plan lists what a flush is to send, without buffer, datagrams and
-- errors. Receive/Whole is about messages whose fragments are numbered down to 0.
--
-- Listener has make_conv and create_kcp_peer of src/kcp/kcp_server/kcp_listener.rs, its Handshake
-- the task that KcpListener::new starts for a client (greet is a round of its first loop, serve
-- its second loop; Accepting says what a round leaves), its Registry the table of peers, with the
-- tasks that use it, and its Rounds the updates of a round of the loop of start. Peer is
-- src/kcp/kcp_server/kcp_peer.rs: Waiting is its recv with WaitInput, and Wakeup the steps of a task
-- that waits there, between those of the tasks that call input and set_broken_pipe. Reader is
-- src/kcp/kcp_server/kcp_peer/reader.rs, and Writer is src/kcp/kcp_server/kcp_peer/writer.rs, with
-- Poll for what a poll answers.
--
-- A function of the model has the name of the source's function (peer_ stands before what the peer
-- and the control block both have); a loop or a branch that is a function of its own says so in its
-- comment. Outcome is how a call ends: with a value, with an error and the state that it leaves, or
-- with a panic. Base has the shared helpers, and Tests the concrete runs.
--
-- The model. Integers are natural numbers that wrap as the machine types do in a release build,
-- `as` casts and i32 differences included. Queues are lists, the front first. An async function of
-- the control block is one step, since its caller holds the lock throughout. UDPPeer::send is a
-- parameter, a function from the datagrams taken so far and the new one to an error or none; the
-- list of datagrams taken stands in KcpOutput. The reads and writes of the crate data_rw are a
-- parameter too, DataRw, and so is tokio's ReadBuf. The lock and the executor are the environment: a
-- poll of the reader is given the number of times that the lock is granted to it (`grants`), a poll
-- of the writer whether its future is ready (`ready`), and a wait whether it gets the lock
-- (`granted`). The waker's slot is a flag of the peer, which `register` sets and `wake` clears. The
-- log of what `send` was given and of what got a number is no part of the state: it stands beside it
-- in the theorems.
--
-- The loop of `input` runs on fuel, one more than the datagram's length, which is enough since each
-- round takes at least a header of 24 bytes; to run out of it counts as a panic. The loop of
-- `poll_recv` is by structure on the grants. The other loops are by structure on lists.
--
-- Not modelled: the capacity of byte buffers, logging, formatting, and plain getters of one field;
-- the user's handler, the repetition of the round of KcpListener::start and
-- its sleep, the system clock, the timeout of the UDP server and the runtime, which are calls into
-- tokio and udp_server.
pub mod Base
pub mod Error
pub mod Segment
pub mod Cipher
pub mod Outcome
pub mod Control
pub mod Receive
pub mod Transmit
pub mod Ack
pub mod Input
pub mod Flush
pub mod Timer
pub mod Setup
pub mod Listener
pub mod Peer
pub mod Poll
pub mod Reader
pub mod Writer
pub mod Safety
pub mod Tests
