-- ===== src/Reader.antt =====
-- KcpReader of src/kcp/kcp_server/kcp_peer/reader.rs: reads of any size over whole messages.
pub mod Stream
pub mod Tokio
pub mod Rounds
pub mod Conservation
pub mod Answers
pub mod Refills
pub mod Session
use kcp_server.Base.{
  ℕ, zero, suc, ◌+◌, ◌-◌, Bool, List, [], ◌∷◌, ◌++◌, ◌⊎◌, inl, inr, length, take, drop, min, ltb,
  if◌then◌else◌,
}
use kcp_server.Error.{Error, ErrorKind, IoError, to_io_error}
use kcp_server.Segment.{Bytes}
use kcp_server.Control.{Kcp}
use kcp_server.Outcome.{Outcome, ok, err, panic}
use kcp_server.Receive.{peek_size, recv}
use kcp_server.Peer.{KcpPeer, register}
use kcp_server.Poll.{Poll, done, failed, pending, panicked}

-- KcpReaderState; the future of the lock that `read_buff` holds is the environment's.
pub data ReaderState : Type 0 where
  begin read_buff : ReaderState

pub record KcpReader : Type 0 where
  pub cache : Bytes
  pub cache_siz : ℕ
  pub cache_pos : ℕ
  pub state : ReaderState

-- `KcpReader::from`.
abbrev pub new_reader : KcpReader
new_reader = record { cache = []; cache_siz = 0; cache_pos = 0; state = ReaderState.begin }

-- What a call of `poll_recv` works on: the reader, its peer and the caller's buffer.
pub record Call : Type 0 where
  pub reader : KcpReader
  pub peer : KcpPeer
  pub buf : Bytes

-- A round of the loop returns or goes on.
pub data Round : Type 0 where
  returns : Poll ℕ → Call → Round
  loops : Call → Round

-- Writes bytes over the front of a buffer.
abbrev pub overwrite : Bytes → Bytes → Bytes
overwrite bytes buf = bytes ++ drop (length bytes) buf

-- `self.cache[self.cache_pos..self.cache_pos + n]`.
abbrev pub cached : KcpReader → ℕ → Bytes
cached r n = take n (drop r.cache_pos r.cache)

-- The state `Begin`: the cache first; the slice panics out of range.
unfoldable pub begin_round : Call → Round
begin_round c =
    let r = c.reader in
    let copy_size = min (r.cache_siz - r.cache_pos) (length c.buf) in
    if ltb r.cache_pos r.cache_siz
    then (if ltb (length r.cache) (r.cache_pos + copy_size)
        then returns panicked c
        else returns (done copy_size) (record c {
          buf = overwrite (cached r copy_size) c.buf;
          reader = record r { cache_pos = r.cache_pos + copy_size };
        }))
    else loops (record c { reader = record r { state = ReaderState.read_buff } })

-- `peek_size`, where a closed UDP layer turns any error into BrokenPipe.
unfoldable pub broken_or : Bool → Error ⊎ ℕ → Error ⊎ ℕ
broken_or broken (inr size) = inr size
broken_or broken (inl e) = inl (if broken then Error.broken_pipe else e)

abbrev pub zeros : ℕ → Bytes
zeros zero = []
zeros (suc n) = 0 ∷ zeros n

-- `if self.cache.len() < size { self.cache.resize(size, 0) }`.
unfoldable pub grown : Bytes → ℕ → Bytes
grown cache size = if ltb (length cache) size then cache ++ zeros (size - length cache) else cache

-- What is done with the answer of `recv` into the cache.
unfoldable pub after_cached : Call → Outcome Kcp (ℕ × Bytes × Kcp) → Round
after_cached c (ok (zero, cache, k)) =
    returns (done 0) (record c {
      reader = record (c.reader) { cache = cache };
      peer = record (c.peer) { kcp = k };
    })
after_cached c (ok (suc n, cache, k)) = loops (record c {
  reader = record { cache = cache; cache_siz = suc n; cache_pos = 0; state = ReaderState.begin };
  peer = record (c.peer) { kcp = k };
})
after_cached c (err e k) =
    returns (failed (to_io_error e)) (record c { peer = record (c.peer) { kcp = k } })
after_cached c panic = returns panicked c

-- `recv` into a cache of `size` bytes at least.
unfoldable pub cache_message : ℕ → Call → Round
unfolding after_cached grown recv
cache_message size c =
    let cache = grown c.reader.cache size in
    after_cached (record c { reader = record (c.reader) { cache = cache } }) (recv c.peer.kcp cache)

-- What is done with the answer of `recv` into the caller's buffer.
unfoldable pub after_direct : Call → Outcome Kcp (ℕ × Bytes × Kcp) → Round
unfolding cache_message
after_direct c (ok (n, out, k)) =
    returns (done n) (record c { buf = out; peer = record (c.peer) { kcp = k } })
after_direct c (err Error.recv_queue_empty k) = loops (record c {
  reader = record (c.reader) { state = ReaderState.begin };
  peer = record (c.peer) { kcp = k };
})
after_direct c (err (Error.user_buf_too_small size) k) =
    cache_message size (record c { peer = record (c.peer) { kcp = k } })
after_direct c (err e k) =
    returns (failed (to_io_error e)) (record c { peer = record (c.peer) { kcp = k } })
after_direct c panic = returns panicked c

-- What is done with the size; an error that is not BrokenPipe waits for the waker.
unfoldable pub sized_round : Call → Error ⊎ ℕ → Round
unfolding cache_message after_direct recv
sized_round c (inr size) =
    if ltb (length c.buf) size then cache_message size c else after_direct c (recv c.peer.kcp c.buf)
sized_round c (inl Error.broken_pipe) =
    returns (failed (IoError.message ErrorKind.broken_pipe_kind "kcp peer is broken pipe")) c
sized_round c (inl e) =
    returns pending (record c {
      peer = register c.peer;
      reader = record (c.reader) { state = ReaderState.begin };
    })

-- The state `ReadBuff`, once the lock is held.
unfoldable pub locked_round : Call → Round
unfolding sized_round broken_or peek_size
locked_round c = sized_round c (broken_or c.peer.is_broken_pipe (peek_size c.peer.kcp))

-- A round, and what follows it where it goes on.
abbrev pub follows : Round → (Call → Poll ℕ × Call) → Poll ℕ × Call
follows (returns a c) f = (a, c)
follows (loops c) f = f c

-- The loop from `ReadBuff` on. Each poll of the lock's future that succeeds takes one of the
-- `grants` that the environment gives during this call; without one it is pending.
unfoldable pub read_locked : ℕ → Call → Poll ℕ × Call
unfolding locked_round begin_round
read_locked zero c = (pending, c)
read_locked (suc grants) c =
    follows (locked_round c) (λ c'. follows (begin_round c') (read_locked grants))

unfoldable pub poll_from : ℕ → Call → ReaderState → Poll ℕ × Call
unfolding read_locked begin_round
poll_from grants c ReaderState.read_buff = read_locked grants c
poll_from grants c ReaderState.begin = follows (begin_round c) (read_locked grants)

unfoldable pub poll_recv : ℕ → Call → Poll ℕ × Call
unfolding poll_from
poll_recv grants c = poll_from grants c c.reader.state

-- The state goes back to `Begin` behind every call that is not pending.
unfoldable pub settle : Poll ℕ × Call → Poll ℕ × Call
settle (pending, c) = (pending, c)
settle (a, c) = (a, record c { reader = record (c.reader) { state = ReaderState.begin } })

-- futures::AsyncRead::poll_read.
unfoldable pub poll_read : ℕ → Call → Poll ℕ × Call
unfolding settle poll_recv
poll_read grants c = settle (poll_recv grants c)
