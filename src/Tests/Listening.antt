-- ===== src/Tests/Listening.antt =====
-- The theorems on the listener's tasks at concrete inputs.
use kcp_server.Base.{
  false, ℕ, List, ◌≡◌, refl, ap, Option, none, some, inl, inr, ◌⊎◌, true, [], ◌∷◌, ◌++◌, drop,
  arith,
}
use kcp_server.Error.{IoError, ErrorKind}
use kcp_server.Segment.{Bytes, put_u32_le, get_u32_le}
use kcp_server.Segment.RoundTrip.{get-put_u32_le}
use kcp_server.Control.{Kcp, wire_bytes}
use kcp_server.Outcome.{ok}
use kcp_server.Input.{input, input_plain, known_cmd}
use kcp_server.Input.Wire.{input-wire_bytes, masked}
use kcp_server.Input.Loop.{IsValid, datagram, handle_all, start}
use kcp_server.Setup.{default_config, apply_config, apply_settings}
use kcp_server.Peer.{KcpPeer, new_peer, close}
use kcp_server.Listener.{create_kcp_peer}
use kcp_server.Listener.Handshake.{DataRw, Task, greet}
use kcp_server.Listener.Accepting.{Greeted, greet-Greeted}
use kcp_server.Listener.Opening.{IsLittleEndian, BreaksPipe, serve-broken}
use kcp_server.Listener.Registry.{Registry, get, remove, enter, leave, leave-enter-enter}
use kcp_server.Listener.Registry.Tasks.{
  TaskStep, Agrees, live_tasks, take_steps, closed_by, take_steps-closed_by,
}
use kcp_server.Listener.Registry.{due}
use kcp_server.Listener.Rounds.{AreDue, Each, run_updates, run_updates-AreDue}
use kcp_server.Peer.{need_update}
use kcp_server.Control.{mtu_def, new_stream}
use kcp_server.Flush.Datagrams.{Tidy}
use kcp_server.Safety.Operations.{empty_log}
use kcp_server.Safety.Calls.{new_stream-Tidy}
use kcp_server.Safety.Exchange.{terms_of}
use kcp_server.Tests.{fresh, push, takes_all}

abbrev key : Bytes
key = 17 ∷ 250 ∷ []

abbrev keyed : Kcp
unfolding fresh
keyed = record (fresh) { output = record { sent = []; key = some key } }

input-wire_bytes_example :
    (wire : Bytes) × (wire_bytes (some key) (1 ∷ 2 ∷ 3 ∷ 4 ∷ 5 ∷ []) ≡ some wire)
    × (input keyed wire true ≡ input_plain keyed (1 ∷ 2 ∷ 3 ∷ 4 ∷ 5 ∷ []))
unfolding keyed
input-wire_bytes_example = input-wire_bytes keyed (1 ∷ 2 ∷ 3 ∷ 4 ∷ 5 ∷ []) (omega arith)

-- A reader of little-endian numbers.
abbrev answer {ℓ} : {A : Type ℓ} → Option A → IoError ⊎ A
answer none = inl (IoError.raw ErrorKind.write_zero)
answer (some a) = inr a

abbrev data_rw : DataRw
data_rw = record {
  read_fixed = λ bytes. answer (get_u32_le bytes);
  advance = λ n bytes. inr (drop n bytes);
  write_fixed = put_u32_le;
}

data_rw-IsLittleEndian : IsLittleEndian data_rw
data_rw-IsLittleEndian = record {
  read_le = λ v rest h. ap answer (get-put_u32_le v rest h);
  advance_le = λ n bytes h. refl;
}

abbrev task : Task
task = record { conv_make = 8; key = some key; sent = [] }

abbrev opened : Kcp
opened = apply_settings default_config keyed

opened-created : create_kcp_peer default_config 0 7 (some key) ≡ ok opened
unfolding fresh create_kcp_peer apply_config
opened-created = refl

first-IsValid : IsValid opened.conv (push 0 (5 ∷ []))
unfolding fresh known_cmd apply_settings
first-IsValid = record {
  fits = record {
    conv_fits = omega arith;
    cmd_fits = omega arith;
    frg_fits = omega arith;
    wnd_fits = omega arith;
    ts_fits = omega arith;
    sn_fits = omega arith;
    una_fits = omega arith;
    len_fits = omega arith;
  };
  same_conv = refl;
  command = refl;
}

greet-Greeted_example :
    Greeted 7 task opened
      (handle_all (push 0 (5 ∷ []) ∷ []) [] (start opened (datagram (push 0 (5 ∷ []) ∷ []) ++ [])))
      true
      (greet default_config data_rw takes_all 0 task
        (masked (some key) (datagram (push 0 (5 ∷ []) ∷ []) ++ [])))
unfolding fresh apply_settings
greet-Greeted_example =
    greet-Greeted default_config data_rw takes_all 0 task opened (push 0 (5 ∷ [])) [] []
      data_rw-IsLittleEndian (first-IsValid, tt) (omega arith) opened-created (omega arith)

abbrev peer : KcpPeer
unfolding new_peer
peer = new_peer fresh

serve-broken_example : BreaksPipe peer ((1 ∷ 2 ∷ 3 ∷ 4 ∷ 5 ∷ []) ∷ [])
unfolding fresh peer
serve-broken_example =
    serve-broken peer ((1 ∷ 2 ∷ 3 ∷ 4 ∷ 5 ∷ []) ∷ []) (omega arith) (omega arith, tt)

abbrev registry : Registry
registry = record { peers = (4, 0) ∷ []; peer_at = λ id. peer }

leave-enter-enter_example :
    let r' = leave 7 (enter 7 2 (enter 7 1 registry)) in
    (r'.peer_at 2 ≡ close peer) × (r'.peer_at 1 ≡ peer) × (get 7 r'.peers ≡ none)
leave-enter-enter_example = leave-enter-enter 7 1 2 registry (λ e. omega (arith, e))

-- Two tasks that overlap, besides the one that is there.
abbrev steps : List TaskStep
steps = TaskStep.enters 7 1 ∷ TaskStep.enters 8 2 ∷ TaskStep.leaves 7 1 ∷ TaskStep.leaves 4 0 ∷ []

take_steps-closed_by_example :
    Agrees (live_tasks steps registry.peers) (take_steps steps registry).peers
    × ((id : ℕ) → (take_steps steps registry).peer_at id ≡ closed_by steps id (registry.peer_at id))
unfolding get remove
take_steps-closed_by_example =
    take_steps-closed_by steps registry.peers registry (λ c. refl)
      (refl, (refl, (refl, (refl, tt))))

-- Two peers that are due; the task of the second one runs first.
abbrev pair_of_peers : Registry
pair_of_peers = record { peers = (4, 0) ∷ (5, 1) ∷ []; peer_at = λ id. peer }

pair-due : due 1 pair_of_peers.peer_at pair_of_peers.peers ≡ 0 ∷ 1 ∷ []
unfolding due need_update peer fresh
pair-due = refl

pair-AreDue : AreDue 1 pair_of_peers (1 ∷ 0 ∷ [])
pair-AreDue = record { once = (refl, (refl, tt)); same = λ id. rw pair-due (ground arith) }

fresh-Tidy : Tidy mtu_def (terms_of 7 (omega arith) none) empty_log fresh
unfolding fresh new_stream
fresh-Tidy = new_stream-Tidy (terms_of 7 (omega arith) none) 7 0 false refl

run_updates-AreDue_example :
    (after : ℕ → KcpPeer) × (run_updates (λ id. takes_all) 1 (1 ∷ 0 ∷ []) pair_of_peers.peer_at
      ≡ some after)
    × ((id : ℕ)
        → Each
            (λ id. takes_all)
            (λ id. mtu_def)
            (λ id. terms_of 7 (omega arith) none)
            (λ id. empty_log)
            1
            pair_of_peers
            after
            id)
unfolding peer fresh
run_updates-AreDue_example =
    run_updates-AreDue (λ id. takes_all) (λ id. mtu_def) (λ id. terms_of 7 (omega arith) none)
      (λ id. empty_log) 1 pair_of_peers (1 ∷ 0 ∷ []) pair-AreDue (λ id e. fresh-Tidy)
