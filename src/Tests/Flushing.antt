-- ===== src/Tests/Flushing.antt =====
-- The theorems on flush at concrete inputs.
use kcp_server.Base.{◌≡◌, refl, ap, ◌∙◌, as_u32, inl, inr, true, none, List, [], ◌∷◌, arith}
use kcp_server.Segment.{KcpSegment, new_with_data}
use kcp_server.Control.{Kcp}
use kcp_server.Outcome.{Ends}
use kcp_server.Flush.{fill_window, flush}
use kcp_server.Flush.Frames.{Log, Terms}
use kcp_server.Flush.Datagrams.{Tidy}
use kcp_server.Flush.Window.{Filled, fill_window-Filled}
use kcp_server.Flush.Numbers.{Renewed}
use kcp_server.Flush.Whole.{flush-Tidy}
use kcp_server.Flush.Planned.{Flushed, flush-Planned}
use kcp_server.Safety.Operations.{Operation, Survives, perform_all}
use kcp_server.Safety.Calls.{AllLeave, perform_all-Tidy}
use kcp_server.Tests.{fresh, running, takes_all}

abbrev queue : List KcpSegment
queue = new_with_data (1 ∷ []) ∷ new_with_data (2 ∷ []) ∷ []

abbrev waiting : Kcp
waiting = record (running) { snd_queue = queue; acklist = (1, 2) ∷ [] }

-- The conversation of both ends.
abbrev ours : Terms
ours = record { admits = λ c. c ≡ 7; admits_cut = λ c e. ap as_u32 e ∙ refl; key = none }

-- Its log: two bytes wait for their numbers.
abbrev begun : Log
begun = record { numbered = []; waiting = (0, 1 ∷ []) ∷ (0, 2 ∷ []) ∷ []; given = 1 ∷ 2 ∷ [] }

waiting-Tidy : Tidy 1400 ours begun waiting
unfolding fresh
waiting-Tidy = record {
  same_mtu = refl;
  mss_bounds = (omega arith, omega arith);
  mtu_bounds = (omega arith, omega arith);
  buf_fits = omega arith;
  buf_whole = inl refl;
  sent_fit = tt;
  framed = (refl, (λ e c. absurd (ground (arith, e))), ([], refl, tt), tt, refl);
  queue_fits = (omega arith, (omega arith, tt));
  buffer_fits = tt;
  logged = (refl, refl, refl);
}

flush-Tidy_example :
    Ends (Renewed 1400 ours begun) (Renewed 1400 ours begun) (flush takes_all waiting)
flush-Tidy_example = flush-Tidy takes_all 1400 ours begun waiting waiting-Tidy

flush-Planned_example : Flushed waiting (flush takes_all waiting)
unfolding fresh
flush-Planned_example = flush-Planned takes_all 1400 ours begun waiting waiting-Tidy refl

fill_window-Filled_example : Filled 0 0 1 queue waiting (fill_window 128 1 queue waiting)
unfolding fresh
fill_window-Filled_example =
    fill_window-Filled 0 0 128 1 queue waiting refl refl refl (omega arith) (omega arith)
      (omega arith)

-- A message, a datagram cut short, a flush and a read from an empty queue.
abbrev calls : List Operation
calls =
    Operation.sends (1 ∷ 2 ∷ 3 ∷ [])
    ∷ Operation.inputs (1 ∷ 2 ∷ 3 ∷ 4 ∷ 5 ∷ []) true
    ∷ Operation.updates 40
    ∷ Operation.receives []
    ∷ Operation.flushes_ack
    ∷ []

perform_all-Tidy_example :
    Survives
      (AllLeave takes_all 1400 ours calls begun waiting)
      (perform_all takes_all calls waiting)
perform_all-Tidy_example =
    perform_all-Tidy takes_all 1400 ours calls begun waiting
      (tt, (inr (omega arith), (tt, (tt, (tt, tt))))) waiting-Tidy
