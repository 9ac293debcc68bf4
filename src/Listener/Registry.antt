-- ===== src/Listener/Registry.antt =====
-- The table of peers that the tasks of KcpListener share with the loop of `start`.
pub mod Tasks
use kcp_server.Base.{
  ℕ, ◌≡◌, ◌≢◌, ◌∙◌, Option, none, some, List, [], ◌∷◌, arith, ◌==◌, if◌then◌else◌,
}
use kcp_server.Peer.{KcpPeer, close, need_update}

-- `peers`, a HashMap from conversations to peers. A peer is shared, so the table holds a handle,
-- and `peer_at` is what the handle stands for.
pub record Registry : Type 0 where
  pub peers : List (ℕ × ℕ)
  pub peer_at : ℕ → KcpPeer

-- HashMap::get, remove and insert.
unfoldable pub get : ℕ → List (ℕ × ℕ) → Option ℕ
get conv [] = none
get conv ((c, id) ∷ m) = if c == conv then some id else get conv m

unfoldable pub remove : ℕ → List (ℕ × ℕ) → List (ℕ × ℕ)
remove conv [] = []
remove conv ((c, id) ∷ m) = let rest = remove conv m in if c == conv then rest else (c, id) ∷ rest

unfoldable pub insert : ℕ → ℕ → List (ℕ × ℕ) → List (ℕ × ℕ)
unfolding remove
insert conv id m = (conv, id) ∷ remove conv m

-- `kcp_listener.peers.write().await.insert(conv, peer.clone())`.
unfoldable pub enter : ℕ → ℕ → Registry → Registry
unfolding insert
enter conv id r = record r { peers = insert conv id r.peers }

-- The end of a task's main logic: the peer that is removed, if there is one, is closed.
unfoldable pub close_removed : Option ℕ → (ℕ → KcpPeer) → ℕ → KcpPeer
unfolding close
close_removed none peer_at id = peer_at id
close_removed (some removed) peer_at id = if id == removed then close (peer_at id) else peer_at id

unfoldable pub leave : ℕ → Registry → Registry
unfolding get remove close_removed
leave conv r = record r {
  peers = remove conv r.peers;
  peer_at = close_removed (get conv r.peers) r.peer_at;
}

-- The handles that a round of `start` updates.
unfoldable pub due : ℕ → (ℕ → KcpPeer) → List (ℕ × ℕ) → List ℕ
unfolding need_update
due timestamp peer_at [] = []
due timestamp peer_at ((c, id) ∷ m) =
    let rest = due timestamp peer_at m in
    if need_update (peer_at id) timestamp then id ∷ rest else rest

pub get-remove :
    (c conv : ℕ) (m : List (ℕ × ℕ)) → get c (remove conv m) ≡ (if c == conv then none else get c m)
unfolding get remove
get-remove c conv [] = ground arith
get-remove c conv ((d, id) ∷ m) = ground (arith, get-remove c conv m)

-- A task that enters its peer and leaves again, with no other task between: the conversation is free
-- again, every other conversation has the peer that it had, the task's own peer is closed, and no
-- other peer is touched.
pub leave-enter :
    (conv id : ℕ) (r : Registry) (c other : ℕ)
    → other ≢ id
    → let r' = leave conv (enter conv id r) in
      (get c r'.peers ≡ (if c == conv then none else get c r.peers))
      × (r'.peer_at id ≡ close (r.peer_at id))
      × (r'.peer_at other ≡ r.peer_at other)
unfolding leave enter get insert remove close_removed
leave-enter conv id r c other ne = (
  ground (arith, get-remove c conv (remove conv r.peers), get-remove c conv r.peers),
  ground arith,
  ground (arith, ne),
)

-- Two clients with the same conversation: where the first one's task ends before the second one's,
-- it is the second one's peer that is closed, the first one's stays open, and the table has no peer
-- under the conversation any more.
pub leave-enter-enter :
    (conv first second : ℕ) (r : Registry)
    → first ≢ second
    → let r' = leave conv (enter conv second (enter conv first r)) in
      (r'.peer_at second ≡ close (r.peer_at second))
      × (r'.peer_at first ≡ r.peer_at first)
      × (get conv r'.peers ≡ none)
unfolding enter
leave-enter-enter conv first second r ne =
    let (gone, closed, kept) = leave-enter conv second (enter conv first r) conv first ne in
    (closed, kept, gone ∙ ground arith)
