-- ===== src/Tests/Streaming.antt =====
-- The theorems on the reader, the writer and the waiting peer at concrete inputs.
use kcp_server.Base.{
  ℕ, ◌≡◌, refl, ◌⊎◌, inl, inr, true, false, ltb, List, [], ◌∷◌, ◌++◌, drop, arith,
}
use kcp_server.Error.{Error}
use kcp_server.Segment.{KcpSegment, new_with_data}
use kcp_server.Outcome.{ok}
use kcp_server.Control.{timediff}
use kcp_server.Receive.{
  peek_size, peek_queue, parse_data, move_available, move_ready, insert_segment, find_slot,
}
use kcp_server.Receive.Order.{Recent}
use kcp_server.Reader.Session.{
  ReadSession, Turn, turn, Timely, IsFaithful, take_turns, take_turns-IsFaithful,
}
use kcp_server.Tests.Receiving.{bytes_from, bytes_from-Numbered, fresh-IsReceiver}
use kcp_server.Receive.Messages.{payloads, first_message, refilled}
use kcp_server.Peer.{KcpPeer, new_peer, register}
use kcp_server.Peer.Waiting.{ready, wait_input, wait_round, wait_size, recv_waited}
use kcp_server.Peer.Waiting.Answers.{Told, wait_input-Told}
use kcp_server.Peer.Waiting.Messages.{Reaches, input_all, recv_waited-whole}
use kcp_server.Peer.Wakeup.{World, Place, Closing, Step, Steps, begins, ◌then◌}
use kcp_server.Peer.Wakeup.Sound.{NothingMissed, wakeup-IsSound, set_broken_pipe-missed}
use kcp_server.Poll.{panicked}
use kcp_server.Reader.{Call, new_reader, poll_read}
use kcp_server.Reader.Rounds.{IsSound, Gave}
use kcp_server.Reader.Conservation.{poll_read-Gave}
use kcp_server.Reader.Answers.{Replied, poll_read-Replied}
use kcp_server.Safety.Operations.{perform_all}
use kcp_server.Writer.Requests.{
  Request, calls, control_of, idle, run_writer, run_writer-perform_all, poll_request,
  poll_request-interrupted,
}
use kcp_server.Tests.{fresh, takes_all}

-- A peer with two messages, of two bytes and of one.
abbrev messages : List KcpSegment
messages = new_with_data (1 ∷ 2 ∷ []) ∷ new_with_data (3 ∷ []) ∷ []

abbrev stocked : KcpPeer
unfolding new_peer
stocked = new_peer (record (fresh) { rcv_queue = messages })

abbrev call : Call
call = record { reader = new_reader; peer = stocked; buf = 9 ∷ [] }

new_reader-IsSound : IsSound new_reader
new_reader-IsSound = record {
  within = omega arith;
  behind = omega arith;
  used_up = λ e. omega arith;
}

poll_read-Gave_example : Gave call (poll_read 1 call).0 (poll_read 1 call).1
poll_read-Gave_example = poll_read-Gave 1 call new_reader-IsSound

poll_read-Replied_example :
    let (a, d) = poll_read 1 call in Replied (ltb 0 0) call a d × Gave call a d
poll_read-Replied_example = poll_read-Replied 0 call new_reader-IsSound refl

wait_input-Told_example : Told stocked (wait_input true stocked)
wait_input-Told_example = wait_input-Told stocked

stocked-ready : wait_input true stocked ≡ (ready 2, stocked)
unfolding fresh stocked wait_input wait_round wait_size peek_size peek_queue
stocked-ready = refl

-- A datagram that is too short comes in before the read.
recv_waited-whole_example :
    Reaches
      (λ p'.
        recv_waited 2 p' (8 ∷ 9 ∷ [])
        ≡ ok (
          2,
          payloads (first_message stocked.kcp.rcv_queue) ++ drop 2 (8 ∷ 9 ∷ []),
          record p' { kcp = refilled p'.kcp },
        ))
      (input_all ((1 ∷ 2 ∷ 3 ∷ 4 ∷ []) ∷ []) true stocked)
unfolding fresh stocked
recv_waited-whole_example =
    recv_waited-whole stocked 2 ((1 ∷ 2 ∷ 3 ∷ 4 ∷ []) ∷ []) true (8 ∷ 9 ∷ []) (omega arith)
      (inr (omega arith, tt)) (inl refl) stocked-ready (omega arith)

abbrev empty : World
empty = begins fresh

abbrev holding : World
holding = record empty { place = Place.locked }

abbrev missing : World
missing = record holding { place = Place.missed Error.recv_queue_empty }

abbrev looking : World
looking = record missing { place = Place.looked Error.recv_queue_empty false }

abbrev sleeping : World
sleeping = record looking { peer = register looking.peer; place = Place.asleep }

falls_asleep : Steps (begins fresh) sleeping
unfolding fresh new_peer peek_size peek_queue
falls_asleep =
    Step.locks empty refl
    then Step.misses holding Error.recv_queue_empty refl refl
    then Step.looks missing Error.recv_queue_empty refl
    then Step.registers looking Error.recv_queue_empty refl
    then Steps.rests sleeping

wakeup-IsSound_example :
    (sleeping.notified ≡ true) ⊎ ((sleeping.peer.registered ≡ true) × NothingMissed sleeping)
wakeup-IsSound_example = wakeup-IsSound fresh sleeping falls_asleep refl

set_broken_pipe-missed_example :
    (w' : World) × Steps looking w'
    × (w'.place ≡ Place.asleep)
    × (w'.peer.is_broken_pipe ≡ true)
    × (w'.closing ≡ Closing.woken)
    × (w'.notified ≡ false)
unfolding new_peer
set_broken_pipe-missed_example =
    set_broken_pipe-missed looking Error.recv_queue_empty refl refl refl refl

-- Two writes and a flush, each polled in vain at first.
abbrev requests : List (Request × ℕ)
requests =
    (Request.writes (1 ∷ 2 ∷ []), 1)
    ∷ (Request.writes (3 ∷ []), 0)
    ∷ (Request.flushes, 2)
    ∷ (Request.closes, 1)
    ∷ []

run_writer-perform_all_example :
    control_of (run_writer takes_all requests (idle stocked))
    ≡ perform_all takes_all (calls requests) stocked.kcp
run_writer-perform_all_example = run_writer-perform_all takes_all requests stocked

poll_request-interrupted_example :
    (poll_request takes_all true
      (Request.writes (1 ∷ []))
      (poll_request takes_all false Request.flushes (idle stocked)).1).0
    ≡ panicked
unfolding stocked
poll_request-interrupted_example =
    poll_request-interrupted takes_all Request.flushes (Request.writes (1 ∷ [])) true stocked
      (λ e. cc (e)) refl

-- The second segment comes first, and the layer closes between two reads of one byte.
abbrev turns : List Turn
turns =
    Turn.arrives 1
    ∷ Turn.arrives 0
    ∷ Turn.polls 1 (9 ∷ [])
    ∷ Turn.breaks
    ∷ Turn.polls 2 (9 ∷ [])
    ∷ []

abbrev opening : ReadSession
unfolding new_peer
opening = record { reader = new_reader; peer = new_peer fresh; received = []; progress = 0 }

opening-IsFaithful : IsFaithful bytes_from opening
unfolding fresh opening
opening-IsFaithful = record {
  sound = new_reader-IsSound;
  in_order = record { receiver = fresh-IsReceiver; bytes = refl };
}

turns-Timely : Timely bytes_from opening turns
unfolding fresh opening turn parse_data move_available move_ready insert_segment find_slot timediff
turns-Timely =
    let one : Recent 1 0 = record { not_early = omega arith; not_late = omega arith } in
    let two : Recent 0 0 = record { not_early = omega arith; not_late = omega arith } in
    (one, (two, tt))

take_turns-IsFaithful_example : IsFaithful bytes_from (take_turns bytes_from opening turns)
take_turns-IsFaithful_example =
    take_turns-IsFaithful bytes_from bytes_from-Numbered turns opening opening-IsFaithful
      turns-Timely
