-- ===== src/Listener/Rounds.antt =====
-- A round of the loop of KcpListener::start in src/kcp/kcp_server/kcp_listener.rs: the tasks that it
-- spawns, one for each peer that is due, in whatever order they run.
use kcp_server.Base.{
  ℕ, ◌≡◌, ◌⊎◌, refl, sym, ◌∙◌, ap, subst, inl, inr, Bool, true, false, ◌&&◌, ◌||◌, Option, none,
  some, List, [], ◌∷◌, arith, ◌==◌, leb, if◌then◌else◌, Bool-cases,
}
use kcp_server.Control.{Kcp, UdpSend}
use kcp_server.Outcome.{Outcome, ok, err, panic}
use kcp_server.Timer.{update}
use kcp_server.Peer.{KcpPeer, need_update, peer_update, after_update}
use kcp_server.Flush.Frames.{Log, Terms}
use kcp_server.Flush.Datagrams.{Tidy}
use kcp_server.Safety.Operations.{Operation, Survives, perform, left}
use kcp_server.Safety.Calls.{perform-Tidy}
use kcp_server.Listener.Registry.{Registry, due}

-- The end of a task: an error is logged, and what the peer is then stays. A panic is `none`.
unfoldable pub task_end : Outcome KcpPeer KcpPeer → Option KcpPeer
task_end (ok p) = some p
task_end (err e p) = some p
task_end panic = none

abbrev pub with_peer : ℕ → (ℕ → KcpPeer) → Option KcpPeer → Option (ℕ → KcpPeer)
with_peer id peer_at none = none
with_peer id peer_at (some p) = some (λ i. if i == id then p else peer_at i)

abbrev pub then_tasks :
    Option (ℕ → KcpPeer) → ((ℕ → KcpPeer) → Option (ℕ → KcpPeer)) → Option (ℕ → KcpPeer)
then_tasks none next = none
then_tasks (some peer_at) next = next peer_at

-- The spawned tasks, one after another: each updates its own peer, behind that peer's lock.
unfoldable pub run_updates : (ℕ → UdpSend) → ℕ → List ℕ → (ℕ → KcpPeer) → Option (ℕ → KcpPeer)
unfolding task_end peer_update
run_updates udp timestamp [] peer_at = some peer_at
run_updates udp timestamp (id ∷ ids) peer_at =
    then_tasks (with_peer id peer_at (task_end (peer_update (udp id) (peer_at id) timestamp)))
      (run_updates udp timestamp ids)

-- Whether a handle is among these.
abbrev pub listed : ℕ → List ℕ → Bool
listed id [] = false
listed id (i ∷ ids) = id == i || listed id ids

abbrev pub in_table : ℕ → List (ℕ × ℕ) → Bool
in_table id [] = false
in_table id ((c, i) ∷ m) = id == i || in_table id m

-- No handle twice.
abbrev pub Distinct : List ℕ → Type 0
Distinct [] = Unit {0}
Distinct (i ∷ ids) = (listed i ids ≡ false) × Distinct ids

-- The tasks are those of the peers that are due, in some order.
pub record AreDue (timestamp : ℕ) (r : Registry) (tasks : List ℕ) : Type 0 where
  pub once : Distinct tasks
  pub same : (id : ℕ) → listed id tasks ≡ listed id (due timestamp r.peer_at r.peers)

listed-due :
    (timestamp : ℕ) (peer_at : ℕ → KcpPeer) (m : List (ℕ × ℕ)) (id : ℕ)
    → listed id (due timestamp peer_at m) ≡ (in_table id m && need_update (peer_at id) timestamp)
unfolding due
listed-due timestamp peer_at [] id = refl
listed-due timestamp peer_at ((c, i) ∷ m) id = ground (arith, listed-due timestamp peer_at m id)

-- What an update of the peer answered.
abbrev Settled : UdpSend → ℕ → KcpPeer → KcpPeer → Type 0
Settled udp timestamp p p' = task_end (peer_update udp p timestamp) ≡ some p'

module _ (udp : UdpSend) (mtu : ℕ) (C : Terms) where
  peer_update-Settled :
      (timestamp : ℕ) (p : KcpPeer) (L : Log)
      → Tidy mtu C L p.kcp
      → (p' : KcpPeer) × Settled udp timestamp p p'
  unfolding peer_update after_update task_end perform
  peer_update-Settled timestamp p L t = elim (Bool-cases (leb p.next_update_time timestamp)) [
    | inl now ↦ rw now (
        go _ (update udp p.kcp timestamp)
          (perform-Tidy udp mtu C L (Operation.updates timestamp) p.kcp tt t))
    | inr later ↦ rw later (p, refl)
  ]
    where
      go :
          (P : Kcp → Type 0) (o : Outcome Kcp Kcp)
          → Survives P (left (λ k'. k') o)
          → (p' : KcpPeer) × (task_end (after_update p timestamp o) ≡ some p')
      go P (ok k) s = (_, refl)
      go P (err e k) s = (_, refl)
      go P panic s = absurd s

-- After the tasks: those listed have answered, the others are as they were.
abbrev Updated : (ℕ → UdpSend) → ℕ → List ℕ → (ℕ → KcpPeer) → (ℕ → KcpPeer) → ℕ → Type 0
Updated udp timestamp ids before after id =
    (listed id ids ≡ true → Settled (udp id) timestamp (before id) (after id))
    × (listed id ids ≡ false → after id ≡ before id)

module _ (udp : ℕ → UdpSend) (mtu : ℕ → ℕ) (C : ℕ → Terms) (log : ℕ → Log) (timestamp : ℕ) where
  run_updates-Updated :
      (ids : List ℕ) (before : ℕ → KcpPeer)
      → Distinct ids
      → ((id : ℕ) → listed id ids ≡ true → Tidy (mtu id) (C id) (log id) (before id).kcp)
      → (after : ℕ → KcpPeer) × (run_updates udp timestamp ids before ≡ some after)
        × ((id : ℕ) → Updated udp timestamp ids before after id)
  unfolding run_updates
  run_updates-Updated [] before d t =
      (before, refl, λ id. ((λ e. absurd (ground (arith, e))), λ e. refl))
  run_updates-Updated (i ∷ ids) before (new, d) t =
      let here : listed i (i ∷ ids) ≡ true = ground arith in
      first (peer_update-Settled (udp i) (mtu i) (C i) timestamp (before i) (log i) (t i here))
        (λ p.
          run_updates-Updated ids (λ j. if j == i then p else before j) d
            λ id e.
              let kept = later p id e in
              subst (λ q. Tidy (mtu id) (C id) (log id) q.kcp) (sym kept)
                (t id (ground (arith, e))))
    where
      apart : (id : ℕ) → listed id ids ≡ true → (id == i) ≡ false
      apart id e = elim (Bool-cases (id == i)) [
        | inl same ↦
            let q : id ≡ i = ground (arith, same) in
            absurd (ground (arith, e, new, ap (λ x. listed x ids) q))
        | inr diff ↦ diff
      ]

      later :
          (p : KcpPeer) (id : ℕ)
          → listed id ids ≡ true
          → (if id == i then p else before id) ≡ before id
      later p id e = rw (apart id e) refl

      answers :
          (p : KcpPeer)
          → Settled (udp i) timestamp (before i) p
          → (after : ℕ → KcpPeer)
          → ((id : ℕ) → Updated udp timestamp ids (λ j. if j == i then p else before j) after id)
          → (id : ℕ) → listed id (i ∷ ids) ≡ true
          → Settled (udp id) timestamp (before id) (after id)
      answers p e after all id h = elim (Bool-cases (id == i)) [
        | inl same ↦
            let q : i ≡ id = ground (arith, same) in
            let own : (i == i) ≡ true = ground arith in
            let got : after i ≡ p = rw own at (all i).1 new in
            subst (λ x. Settled (udp x) timestamp (before x) (after x)) q (e ∙ ap some (sym got))
        | inr diff ↦ rw diff at (all id).0 (ground (arith, h, diff))
      ]

      others :
          (p : KcpPeer) (after : ℕ → KcpPeer)
          → ((id : ℕ) → Updated udp timestamp ids (λ j. if j == i then p else before j) after id)
          → (id : ℕ) → listed id (i ∷ ids) ≡ false
          → after id ≡ before id
      others p after all id h =
          let diff : (id == i) ≡ false = ground (arith, h) in
          rw diff at (all id).1 (ground (arith, h))

      first :
          ((p : KcpPeer) × Settled (udp i) timestamp (before i) p)
          → ((p : KcpPeer)
              → (after : ℕ → KcpPeer) × (run_updates udp timestamp ids
                    (λ j. if j == i then p else before j)
                  ≡ some after)
                × ((id : ℕ)
                    → Updated udp timestamp ids (λ j. if j == i then p else before j) after id))
          → (after : ℕ → KcpPeer) × (then_tasks
                (with_peer i before (task_end (peer_update (udp i) (before i) timestamp)))
                (run_updates udp timestamp ids)
              ≡ some after)
            × ((id : ℕ) → Updated udp timestamp (i ∷ ids) before after id)
      first (p, e) rest =
          let (after, run, all) = rest p in
          (after, rw e run, λ id. (answers p e after all id, others p after all id))

  -- What one update of its own makes of each peer that was in the table and due; the others stay.
  abbrev pub Each : Registry → (ℕ → KcpPeer) → ℕ → Type 0
  Each r after id =
      (if in_table id r.peers && need_update (r.peer_at id) timestamp
        then task_end (peer_update (udp id) (r.peer_at id) timestamp)
        else some (r.peer_at id))
      ≡ some (after id)

  -- A round of `start` over peers that are tidy where they are due: in whatever order its tasks run,
  -- none panics, and behind them each peer of the table that asked for an update has had exactly
  -- one, as it was at the start of the round, an error included, and no other peer is touched.
  pub run_updates-AreDue :
      (r : Registry) (tasks : List ℕ)
      → AreDue timestamp r tasks
      → ((id : ℕ)
          → (in_table id r.peers && need_update (r.peer_at id) timestamp) ≡ true
          → Tidy (mtu id) (C id) (log id) (r.peer_at id).kcp)
      → (after : ℕ → KcpPeer) × (run_updates udp timestamp tasks r.peer_at ≡ some after)
        × ((id : ℕ) → Each r after id)
  run_updates-AreDue r tasks a t =
      let (after, run, all) =
        run_updates-Updated tasks r.peer_at a.once (λ id e. t id (sym (is_due id) ∙ e)) in
      (after, run, λ id. each after id (all id) (Bool-cases (is_due_now id)))
    where
      is_due_now : ℕ → Bool
      is_due_now id = in_table id r.peers && need_update (r.peer_at id) timestamp

      is_due : (id : ℕ) → listed id tasks ≡ is_due_now id
      is_due id = a.same id ∙ listed-due timestamp r.peer_at r.peers id

      each :
          (after : ℕ → KcpPeer) (id : ℕ)
          → Updated udp timestamp tasks r.peer_at after id
          → (is_due_now id ≡ true) ⊎ (is_due_now id ≡ false)
          → Each r after id
      each after id (answered, alone) (inl e) = rw e (answered (is_due id ∙ e))
      each after id (answered, alone) (inr e) = rw e (ap some (sym (alone (is_due id ∙ e))))
