-- ===== src/Listener/Handshake.antt =====
-- The task that KcpListener::new starts for each client: the loop that greets it.
use kcp_server.Base.{
  ℕ, true, false, not, Option, none, some, ◌⊎◌, inl, inr, List, [], ◌∷◌, ◌++◌, length, is_empty,
  take, drop, leb, ◌==◌, if◌then◌else◌,
}
use kcp_server.Error.{Error, IoError}
use kcp_server.Segment.{Bytes}
use kcp_server.Cipher.{xor_from}
use kcp_server.Control.{Kcp, UdpSend}
use kcp_server.Outcome.{Outcome, ok, err, panic, ◌>>=◌}
use kcp_server.Setup.{KcpConfig}
use kcp_server.Peer.{KcpPeer, new_peer, peer_input, set_broken_pipe}
use kcp_server.Listener.{make_conv, create_kcp_peer}

-- What the crate data_rw does for the task: a u32 read and skipped bytes, each with the bytes that
-- follow or an error, and the bytes of a u32 that it writes.
pub record DataRw : Type 0 where
  pub read_fixed : Bytes → IoError ⊎ (ℕ × Bytes)
  pub advance : ℕ → Bytes → IoError ⊎ Bytes
  pub write_fixed : ℕ → Bytes

-- What a task has: the listener's counter, the key, and what the UDP peer took from it.
pub record Task : Type 0 where
  pub conv_make : ℕ
  pub key : Option Bytes
  pub sent : List Bytes

-- The loop goes on, or it breaks with a conversation and its peer.
pub data Greeting : Type 0 where
  waits : Task → Greeting
  opens : ℕ → KcpPeer → Task → Greeting

-- The `decode` of the task, for a datagram behind its first four bytes.
unfoldable pub decode_greeting : Option Bytes → Bytes → Bytes
unfolding xor_from
decode_greeting none bytes = bytes
decode_greeting (some key) bytes = if not (is_empty key) then xor_from key 0 bytes else bytes

-- `?` on an answer of data_rw.
abbrev pub attempt {ℓ} : {A : Type ℓ} → Task → IoError ⊎ A → Outcome Task A
attempt t (inl e) = err (Error.io_error e) t
attempt t (inr a) = ok a

-- `udp_peer.send(&buff).await?`.
unfoldable pub after_reply : Task → Bytes → Option IoError → Outcome Task Greeting
after_reply t reply none = ok (Greeting.waits (record t { sent = t.sent ++ reply ∷ [] }))
after_reply t reply (some e) = err (Error.io_error e) t

unfoldable pub reply : UdpSend → Task → Bytes → Outcome Task Greeting
unfolding after_reply
reply udp t bytes = after_reply t bytes (udp t.sent bytes)

-- send_kcp_conv: the client's four bytes, then a new conversation.
unfoldable pub send_kcp_conv : DataRw → UdpSend → Task → Bytes → Outcome Task Greeting
unfolding reply make_conv
send_kcp_conv reads udp t bytes =
    let (conv, next) = make_conv t.conv_make in
    reply udp (record t { conv_make = next }) (bytes ++ reads.write_fixed conv)

-- A datagram of any other length below a header's is the key, which goes back behind a conversation.
unfoldable pub take_key : DataRw → UdpSend → Task → Bytes → Outcome Task Greeting
unfolding reply make_conv
take_key reads udp t bytes =
    let (conv, next) = make_conv t.conv_make in
    reply udp (record t { conv_make = next; key = some bytes }) (reads.write_fixed conv ++ bytes)

-- `peer.input(&mut data, false).await?`, then the break.
unfoldable pub after_first : ℕ → Task → Outcome KcpPeer (ℕ × KcpPeer) → Outcome Task Greeting
after_first conv t (ok (n, p)) = ok (Greeting.opens conv p t)
after_first conv t (err e p) = err e t
after_first conv t panic = panic

unfoldable pub first_input : ℕ → Task → Bytes → Outcome Kcp Kcp → Outcome Task Greeting
unfolding after_first new_peer peer_input
first_input conv t plain (ok k) = after_first conv t (peer_input (new_peer k) plain false)
first_input conv t plain (err e k) = err e t
first_input conv t plain panic = panic

-- A first segment of number 0 makes a peer; any other is passed over.
unfoldable pub open_peer : KcpConfig → ℕ → Task → Bytes → ℕ → ℕ → Outcome Task Greeting
unfolding first_input create_kcp_peer
open_peer config timestamp t plain conv sn =
    if sn == 0
    then first_input conv t plain (create_kcp_peer config timestamp conv t.key)
    else ok (Greeting.waits t)

-- A datagram as long as a header, decoded: its conversation and its number.
unfoldable pub greet_segment : KcpConfig → DataRw → ℕ → Task → Bytes → Outcome Task Greeting
unfolding open_peer
greet_segment config reads timestamp t plain =
    attempt t (reads.read_fixed plain) >>= λ (conv, rest).
    attempt t (reads.advance 8 rest) >>= λ rest'.
    attempt t (reads.read_fixed rest') >>= λ (sn, rest'').
    open_peer config timestamp t plain conv sn

-- One round of the loop, on a datagram that arrived.
unfoldable pub greet : KcpConfig → DataRw → UdpSend → ℕ → Task → Bytes → Outcome Task Greeting
unfolding decode_greeting greet_segment send_kcp_conv take_key
greet config reads udp timestamp t bytes =
    if leb 24 (length bytes)
    then greet_segment config reads timestamp t
        (take 4 bytes ++ decode_greeting t.key (drop 4 bytes))
    else if length bytes == 4
    then send_kcp_conv reads udp t bytes
    else take_key reads udp t bytes

-- The loop behind the greeting, on the datagrams that arrive until the channel closes: one that
-- `input` refuses ends it too. It leaves a broken pipe.
unfoldable pub after_served :
    Outcome KcpPeer (ℕ × KcpPeer) → (KcpPeer → Outcome KcpPeer KcpPeer) → Outcome KcpPeer KcpPeer
unfolding set_broken_pipe
after_served (ok (n, p)) next = next p
after_served (err e p) next = ok (set_broken_pipe p)
after_served panic next = panic

unfoldable pub serve : KcpPeer → List Bytes → Outcome KcpPeer KcpPeer
unfolding peer_input set_broken_pipe after_served
serve p [] = ok (set_broken_pipe p)
serve p (bytes ∷ more) = after_served (peer_input p bytes true) (λ p'. serve p' more)
