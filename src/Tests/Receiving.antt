-- ===== src/Tests/Receiving.antt =====
-- The receiver's theorems at concrete inputs.
use kcp_server.Base.{
  ltb, leb, ltb_ℤ, leb_ℤ, pos, ◌-◌, ◌^◌, ℕ, ◌≡◌, refl, List, [], ◌∷◌, arith, as_u32, inr,
}
use kcp_server.Segment.{KcpSegment}
use kcp_server.Control.{timediff}
use kcp_server.Receive.{
  parse_data, recv, move_available, move_ready, insert_segment, find_slot, peek_size, peek_queue,
  message_size, recv_message, merge, fast_recover,
}
use kcp_server.Receive.Buffer.{Numbered}
use kcp_server.Receive.Order.{IsReceiver, Recent, Accepts, parse_data-Accepts}
use kcp_server.Receive.Whole.{Fetched, recv-Fetched}
use kcp_server.Control.Serial.{timediff_order}
use kcp_server.Receive.Delivery.{
  Session, Event, run, step, after_read, Timely, InOrder, run-InOrder,
}
use kcp_server.Tests.{fresh, push}

-- A sequence of one-byte messages.
abbrev pub bytes_from : ℕ → KcpSegment
bytes_from n = push (as_u32 n) (n ∷ [])

pub bytes_from-Numbered : Numbered bytes_from
bytes_from-Numbered = record { number = λ n. refl }

pub fresh-IsReceiver : IsReceiver bytes_from 0 fresh
unfolding fresh
fresh-IsReceiver = record {
  tracks = record { next = refl; window = omega arith; buffered = tt };
  settled = inr tt;
}

parse_data-Accepts_example :
    Accepts bytes_from bytes_from-Numbered 0 1 fresh (parse_data fresh (bytes_from 1))
unfolding fresh
parse_data-Accepts_example =
    parse_data-Accepts bytes_from bytes_from-Numbered 0 1 fresh fresh-IsReceiver
      (record { not_early = omega arith; not_late = omega arith })

-- The second segment comes first, and once more behind a read.
abbrev history : List Event
history = Event.arrives 1 ∷ Event.arrives 0 ∷ Event.reads (9 ∷ 9 ∷ []) ∷ Event.arrives 1 ∷ []

abbrev session : Session
session = record { kcp = fresh; received = []; progress = 0 }

history-Timely : Timely bytes_from session history
unfolding fresh step after_read parse_data recv move_available move_ready insert_segment find_slot
    timediff peek_size peek_queue message_size recv_message merge fast_recover
history-Timely =
    let one : Recent 1 0 = record { not_early = omega arith; not_late = omega arith } in
    let two : Recent 0 0 = record { not_early = omega arith; not_late = omega arith } in
    let again : Recent 1 2 = record { not_early = omega arith; not_late = omega arith } in
    (one, (two, (again, tt)))

run-InOrder_example : InOrder bytes_from (run bytes_from session history)
unfolding fresh
run-InOrder_example =
    run-InOrder bytes_from bytes_from-Numbered history session
      (record { receiver = fresh-IsReceiver; bytes = refl }) history-Timely

-- The bytes that the history reads and leaves.
history_reads : (run bytes_from session history).received ≡ 0 ∷ []
unfolding fresh run step after_read parse_data recv move_available move_ready insert_segment
    find_slot timediff peek_size peek_queue message_size recv_message merge fast_recover
history_reads = refl

recv-Fetched_example : Fetched fresh (0 ∷ []) (recv fresh (0 ∷ []))
unfolding fresh
recv-Fetched_example = recv-Fetched fresh (0 ∷ [])

timediff_order_example :
    (ltb_ℤ (timediff (as_u32 (2 ^ 32)) (as_u32 (2 ^ 32 - 1))) (pos 0) ≡ ltb (2 ^ 32) (2 ^ 32 - 1))
    × (leb_ℤ (pos 0) (timediff (as_u32 (2 ^ 32)) (as_u32 (2 ^ 32 - 1))) ≡ leb (2 ^ 32 - 1) (2 ^ 32))
    × (ltb_ℤ (pos 0) (timediff (as_u32 (2 ^ 32)) (as_u32 (2 ^ 32 - 1))) ≡ ltb (2 ^ 32 - 1) (2 ^ 32))
unfolding fresh
timediff_order_example =
    timediff_order (2 ^ 32) (2 ^ 32 - 1) (record { ahead = omega arith; behind = omega arith })
