-- ===== src/Reader/Tokio.antt =====
-- KcpReader as tokio's AsyncRead, of src/kcp/kcp_server/kcp_peer/reader.rs.
use kcp_server.Base.{ap, arith, ℕ, ◌≤◌, ◌≡◌, refl, ◌∙◌, ◌++◌, length, take}
use kcp_server.Segment.{Bytes}
use kcp_server.Peer.{KcpPeer}
use kcp_server.Poll.{Poll, done, failed, pending, panicked}
use kcp_server.Reader.{KcpReader, Call, poll_recv, settle, poll_read}
use kcp_server.Reader.Rounds.{IsSound, Gave, stream}
use kcp_server.Reader.Conservation.{poll_read-Gave}

-- What tokio's ReadBuf does: the bytes that it has, the slice behind them, the same buffer with other
-- bytes in that slice, and the mark moved on.
pub record ReadBuf (B : Type 0) : Type 0 where
  pub filled : B → Bytes
  pub initialize_unfilled : B → Bytes
  pub written : Bytes → B → B
  pub advance : ℕ → B → B

-- It keeps its bytes, and the mark takes in the first of those behind them.
pub record IsReadBuf {B : Type 0} (ops : ReadBuf B) : Type 0 where
  pub keeps : (b : B) (bytes : Bytes) → ops.filled (ops.written bytes b) ≡ ops.filled b
  pub takes_in :
      (b : B) (bytes : Bytes) (n : ℕ)
      → length bytes ≡ length (ops.initialize_unfilled b)
      → n ≤ length bytes
      → ops.filled (ops.advance n (ops.written bytes b)) ≡ ops.filled b ++ take n bytes

module _ {B : Type 0} (ops : ReadBuf B) where
  -- A poll beside what it leaves of the reader, and of the buffer.
  abbrev pub Answer : Type 0
  Answer = Poll (Unit {0}) × Call × B

  unfoldable pub fill : B → Poll ℕ × Call → Answer
  fill b (done n, c) = (done tt, c, ops.advance n (ops.written c.buf b))
  fill b (failed e, c) = (failed e, c, ops.written c.buf b)
  fill b (pending, c) = (pending, c, ops.written c.buf b)
  fill b (panicked, c) = (panicked, c, ops.written c.buf b)

  -- tokio::io::AsyncRead::poll_read.
  unfoldable pub poll_read_buf : ℕ → KcpReader → KcpPeer → B → Answer
  unfolding fill settle poll_recv
  poll_read_buf grants r p b =
      fill b (
        settle
          (poll_recv grants (record { reader = r; peer = p; buf = ops.initialize_unfilled b })))

  -- What a poll comes to: the next bytes of the stream, behind those that the buffer had, or none.
  abbrev pub Filled : Call → B → Answer → Type 0
  Filled c b (done x, c', b') =
      IsSound c'.reader
      × ((bytes : Bytes) × (ops.filled b' ≡ ops.filled b ++ bytes)
          × (stream c ≡ bytes ++ stream c'))
  Filled c b (failed e, c', b') =
      IsSound c'.reader × (ops.filled b' ≡ ops.filled b) × (stream c' ≡ stream c)
  Filled c b (pending, c', b') =
      IsSound c'.reader × (ops.filled b' ≡ ops.filled b) × (stream c' ≡ stream c)
  Filled c b (panicked, c', b') = ⊥

  fill-Filled :
      (keep : IsReadBuf ops) (c : Call) (b : B) (a : Poll ℕ) (c' : Call)
      → c.buf ≡ ops.initialize_unfilled b
      → Gave c a c'
      → Filled c b (fill b (a, c'))
  unfolding fill
  fill-Filled keep c b (done n) c' e (sound, fits, size, gave) = (
    sound,
    (
      take n c'.buf,
      keep.takes_in b c'.buf n (size ∙ ap length e) (omega (arith, fits, size)),
      gave,
    ),
  )
  fill-Filled keep c b (failed x) c' e (sound, same, gave) = (sound, keep.keeps b c'.buf, gave)
  fill-Filled keep c b pending c' e (sound, same, gave) = (sound, keep.keeps b c'.buf, gave)
  fill-Filled keep c b panicked c' e g = g

  -- tokio's read of a sound reader puts the next bytes of the stream, which is the cache, the queue
  -- and the buffer of the control block, behind those that its buffer has, and leaves the rest of the
  -- stream; where it fails or is pending it moves nothing. It does not panic, and leaves the reader
  -- sound.
  pub poll_read_buf-Filled :
      IsReadBuf ops
      → (grants : ℕ) (r : KcpReader) (p : KcpPeer) (b : B) → IsSound r
      → Filled
          (record { reader = r; peer = p; buf = ops.initialize_unfilled b })
          b
          (poll_read_buf grants r p b)
  unfolding poll_read_buf poll_read
  poll_read_buf-Filled keep grants r p b v =
      let c : Call = record { reader = r; peer = p; buf = ops.initialize_unfilled b } in
      fill-Filled keep c b (poll_read grants c).0 (poll_read grants c).1 refl
        (poll_read-Gave grants c v)
