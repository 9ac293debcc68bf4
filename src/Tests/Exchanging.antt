-- ===== src/Tests/Exchanging.antt =====
-- Two ends of a connection at a concrete history of calls.
use kcp_server.Base.{refl, inr, true, false, Option, some, List, [], ◌∷◌, arith}
use kcp_server.Segment.{Bytes}
use kcp_server.Control.{new_stream, mtu_def}
use kcp_server.Safety.Operations.{Operation, empty_log}
use kcp_server.Safety.Calls.{new_stream-Tidy}
use kcp_server.Safety.Exchange.{terms_of}
use kcp_server.Safety.History.{Link, Event, happen_all, Outlives}
use kcp_server.Safety.Network.{Exchanged, happen_all-IsTaken}
use kcp_server.Safety.Delivered.{Conveyed, happen_all-IsDelivered, new_stream-Receives}
use kcp_server.Tests.{takes_all}

abbrev key : Option Bytes
key = some (17 ∷ 5 ∷ 200 ∷ [])

-- Both ends are new.
abbrev ends : Link
ends = record { left = new_stream 7 0 false key; right = new_stream 7 0 true key }

-- A message is sent and, on the second flush, goes out, arrives, arrives again, and is
-- acknowledged; a forged datagram and a lost one come in between.
abbrev history : List Event
history =
    Event.left_calls (Operation.sends (1 ∷ 2 ∷ 3 ∷ []))
    ∷ Event.left_calls Operation.flushes_async
    ∷ Event.left_calls Operation.flushes_async
    ∷ Event.reaches_right 0
    ∷ Event.right_calls (Operation.inputs (1 ∷ 2 ∷ 3 ∷ 4 ∷ 5 ∷ []) true)
    ∷ Event.reaches_right 0
    ∷ Event.right_calls Operation.flushes_async
    ∷ Event.reaches_left 1
    ∷ Event.reaches_left 0
    ∷ []

happen_all-IsTaken_example :
    Outlives
      (Exchanged takes_all takes_all history ends empty_log empty_log)
      (happen_all takes_all takes_all history ends)
happen_all-IsTaken_example =
    happen_all-IsTaken takes_all takes_all mtu_def mtu_def 7 (omega arith) key history empty_log
      empty_log ends (tt, (tt, (tt, (tt, (inr (omega arith), (tt, (tt, (tt, (tt, tt)))))))))
      (new_stream-Tidy (terms_of 7 (omega arith) key) 7 0 false refl)
      (new_stream-Tidy (terms_of 7 (omega arith) key) 7 0 true refl)

-- Two messages are sent and go out in one datagram, which arrives twice; one of them is read, to a
-- buffer that is too small and to one that is not, and an answer comes back.
abbrev conversation : List Event
conversation =
    Event.left_calls (Operation.sends (1 ∷ 2 ∷ 3 ∷ []))
    ∷ Event.left_calls (Operation.sends (4 ∷ 5 ∷ []))
    ∷ Event.left_calls Operation.flushes_async
    ∷ Event.left_calls Operation.flushes_async
    ∷ Event.reaches_right 0
    ∷ Event.reaches_right 0
    ∷ Event.right_calls (Operation.receives (0 ∷ []))
    ∷ Event.right_calls (Operation.receives (0 ∷ 0 ∷ 0 ∷ 0 ∷ []))
    ∷ Event.right_calls (Operation.sends (6 ∷ []))
    ∷ Event.right_calls Operation.flushes_async
    ∷ Event.right_calls Operation.flushes_async
    ∷ Event.reaches_left 1
    ∷ Event.reaches_left 0
    ∷ Event.left_calls Operation.flushes_async
    ∷ Event.left_calls (Operation.receives (0 ∷ 0 ∷ []))
    ∷ []

happen_all-IsDelivered_example :
    Outlives
      (Conveyed takes_all takes_all conversation ends empty_log empty_log [] [])
      (happen_all takes_all takes_all conversation ends)
happen_all-IsDelivered_example =
    happen_all-IsDelivered takes_all takes_all mtu_def mtu_def 7 (omega arith) key conversation
      empty_log empty_log ends [] []
      (tt, (tt, (tt, (tt, (tt, (tt, (tt, (tt, (tt, (tt, (tt, (tt, (tt, (tt, (tt, tt)))))))))))))))
      (new_stream-Tidy (terms_of 7 (omega arith) key) 7 0 false refl)
      (new_stream-Tidy (terms_of 7 (omega arith) key) 7 0 true refl)
      (new_stream-Receives 7 0 true key) (new_stream-Receives 7 0 false key)
