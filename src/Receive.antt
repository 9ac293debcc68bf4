-- ===== src/Receive.antt =====
-- The receiving half of Kcp: peek_size, recv, parse_data, and the window that they leave.
pub mod Buffer
pub mod Order
pub mod Messages
pub mod Delivery
pub mod Plain
pub mod Whole
use kcp_server.Base.{
  ℕ, suc, ◌+◌, ◌-◌, Bool, true, false, ◌&&◌, ◌⊎◌, inl, inr, Option, none, some, List, [], ◌∷◌, ◌++◌,
  reverse, length, is_empty, drop, insert_at, ltb, leb, ◌==◌, if◌then◌else◌, bit_or, ltb_ℤ, leb_ℤ,
  pos, add_u32, as_u8, as_u16, ◌||◌,
}
use kcp_server.Error.{Error, IoError, ErrorKind}
use kcp_server.Segment.{Bytes, KcpSegment}
use kcp_server.Control.{Kcp, timediff, ask_tell}
use kcp_server.Outcome.{Outcome, ok, err, panic}

-- The loop of `peek_size` over the queue.
unfoldable pub message_size : List KcpSegment → ℕ → ℕ
message_size [] len = len
message_size (s ∷ q) len =
    if s.frg == 0 then len + length s.payload else message_size q (len + length s.payload)

unfoldable pub peek_queue : List KcpSegment → Error ⊎ ℕ
unfolding message_size
peek_queue [] = inl Error.recv_queue_empty
peek_queue (s ∷ q) =
    if s.frg == 0
    then inr (length s.payload)
    else if ltb (length (s ∷ q)) (as_u8 (s.frg + 1))
    then inl Error.expecting_fragment
    else inr (message_size (s ∷ q) 0)

unfoldable pub peek_size : Kcp → Error ⊎ ℕ
unfolding peek_queue
peek_size k = peek_queue k.rcv_queue

-- The loop that moves available segments from `rcv_buf` to `rcv_queue`; it gives `rcv_nxt` and
-- the two queues.
unfoldable pub move_ready :
    ℕ → ℕ → List KcpSegment → List KcpSegment → ℕ × List KcpSegment × List KcpSegment
move_ready wnd nxt [] q = (nxt, [], q)
move_ready wnd nxt (s ∷ b) q =
    let rest = move_ready wnd (add_u32 nxt 1) b (q ++ s ∷ []) in
    if (s.sn == nxt) && ltb (length q) wnd then rest else (nxt, s ∷ b, q)

unfoldable pub move_available : Kcp → Kcp
unfolding move_ready
move_available k =
    let (nxt, b, q) = move_ready k.rcv_wnd k.rcv_nxt k.rcv_buf k.rcv_queue in
    record k { rcv_nxt = nxt; rcv_buf = b; rcv_queue = q }

-- The loop of `recv` that writes fragments into a buffer of `cap` bytes. It gives what is written
-- and the queue left; `none` is the failure of `write_all`, with its fragment taken.
unfoldable pub merge : ℕ → Bytes → List KcpSegment → Option Bytes × List KcpSegment
merge cap written [] = (some written, [])
merge cap written (s ∷ q) =
    let written' = written ++ s.payload in
    let rest = merge cap written' q in
    if ltb cap (length written') then (none, q) else if s.frg == 0 then (some written', q) else rest

-- Fast recover: a window that was full and has room is told to the peer.
unfoldable pub fast_recover : Bool → Kcp → Kcp
fast_recover recover k =
    if ltb (length k.rcv_queue) k.rcv_wnd && recover
    then record k { probe = bit_or k.probe ask_tell }
    else k

-- `recv` behind the merge: the length, the caller's buffer and the state.
unfoldable pub finish_recv :
    Kcp → Bytes → ℕ → Option Bytes × List KcpSegment → Outcome Kcp (ℕ × Bytes × Kcp)
finish_recv k buf peeksize (none, q) =
    err (Error.io_error (IoError.raw ErrorKind.write_zero)) (record k { rcv_queue = q })
finish_recv k buf peeksize (some bytes, q) =
    if length bytes == peeksize
    then ok (
      length bytes,
      bytes ++ drop (length bytes) buf,
      fast_recover (leb k.rcv_wnd (length k.rcv_queue))
          (move_available (record k { rcv_queue = q })),
    )
    else panic

-- `recv` after its checks.
unfoldable pub recv_message : Kcp → Bytes → ℕ → Outcome Kcp (ℕ × Bytes × Kcp)
unfolding finish_recv
recv_message k buf peeksize = finish_recv k buf peeksize (merge (length buf) [] k.rcv_queue)

unfoldable pub recv : Kcp → Bytes → Outcome Kcp (ℕ × Bytes × Kcp)
unfolding peek_size recv_message
recv k buf = if is_empty k.rcv_queue then err Error.recv_queue_empty k else elim (peek_size k) [
  | inl e ↦ err e k
  | inr peeksize ↦
      if ltb (length buf) peeksize
      then err (Error.user_buf_too_small peeksize) k
      else recv_message k buf peeksize
]

-- The search of `parse_data` from the back: is the number there, and if not, where it belongs.
unfoldable pub find_slot : ℕ → List KcpSegment → ℕ → Bool × ℕ
find_slot sn [] i = (false, i)
find_slot sn (s ∷ r) i =
    if s.sn == sn
    then (true, i)
    else if ltb_ℤ (pos 0) (timediff sn s.sn)
    then (false, i)
    else find_slot sn r (i - 1)

unfoldable pub insert_segment : KcpSegment → List KcpSegment → List KcpSegment
unfolding find_slot timediff
insert_segment new b =
    let (repeat, new_index) = find_slot new.sn (reverse b) (length b) in
    if repeat then b else insert_at new_index new b

unfoldable pub parse_data : Kcp → KcpSegment → Kcp
unfolding insert_segment move_available timediff
parse_data k new =
    if leb_ℤ (pos 0) (timediff new.sn (add_u32 k.rcv_nxt k.rcv_wnd))
      || ltb_ℤ (timediff new.sn k.rcv_nxt) (pos 0)
    then k
    else move_available (record k { rcv_buf = insert_segment new k.rcv_buf })

unfoldable pub wnd_unused : Kcp → ℕ
wnd_unused k =
    if ltb (length k.rcv_queue) k.rcv_wnd then k.rcv_wnd - as_u16 (length k.rcv_queue) else 0
