-- ===== src/Listener/Registry/Tasks.antt =====
-- Any row of tasks that enter the table of KcpListener and leave it, between each other's steps.
use kcp_server.Base.{
  ℕ, ◌≡◌, refl, sym, ap, ◌∙◌, none, some, List, [], ◌∷◌, arith, ◌==◌, if◌then◌else◌,
}
use kcp_server.Peer.{KcpPeer, close}
use kcp_server.Listener.Registry.{
  Registry, get, remove, insert, enter, close_removed, leave, get-remove,
}

-- A task enters its peer under a conversation, or its main logic has ended.
pub data TaskStep : Type 0 where
  enters : ℕ → ℕ → TaskStep
  leaves : ℕ → ℕ → TaskStep

unfoldable pub take_step : TaskStep → Registry → Registry
unfolding enter leave
take_step (TaskStep.enters conv id) r = enter conv id r
take_step (TaskStep.leaves conv id) r = leave conv r

unfoldable pub take_steps : List TaskStep → Registry → Registry
unfolding take_step
take_steps [] r = r
take_steps (s ∷ steps) r = take_steps steps (take_step s r)

-- The tasks that have entered and not left, the last one first.
abbrev pub live_after : TaskStep → List (ℕ × ℕ) → List (ℕ × ℕ)
live_after (TaskStep.enters conv id) live = (conv, id) ∷ live
live_after (TaskStep.leaves conv id) live = remove conv live

-- No task enters a conversation that another one has, and only such a task leaves as has entered.
abbrev pub AreApart : List TaskStep → List (ℕ × ℕ) → Type 0
AreApart [] live = Unit {0}
AreApart (TaskStep.enters conv id ∷ steps) live =
    (get conv live ≡ none) × AreApart steps ((conv, id) ∷ live)
AreApart (TaskStep.leaves conv id ∷ steps) live =
    (get conv live ≡ some id) × AreApart steps (remove conv live)

abbrev pub live_tasks : List TaskStep → List (ℕ × ℕ) → List (ℕ × ℕ)
live_tasks [] live = live
live_tasks (s ∷ steps) live = live_tasks steps (live_after s live)

-- What its own task does to a peer: it closes it when it leaves.
abbrev pub closed_by : List TaskStep → ℕ → KcpPeer → KcpPeer
closed_by [] id p = p
closed_by (TaskStep.enters conv other ∷ steps) id p = closed_by steps id p
closed_by (TaskStep.leaves conv other ∷ steps) id p =
    closed_by steps id (if id == other then close p else p)

-- The table has for each conversation the peer of the task that is live under it.
abbrev pub Agrees : List (ℕ × ℕ) → List (ℕ × ℕ) → Type 0
Agrees live table = (c : ℕ) → get c table ≡ get c live

Agrees-step :
    (s : TaskStep) (live : List (ℕ × ℕ)) (r : Registry)
    → Agrees live r.peers
    → Agrees (live_after s live) (take_step s r).peers
unfolding take_step enter leave insert get
Agrees-step (TaskStep.enters conv id) live r a c = ground (arith, get-remove c conv r.peers, a c)
Agrees-step (TaskStep.leaves conv id) live r a c =
    get-remove c conv r.peers
    ∙ (ap (λ o. if c == conv then none else o) (a c) ∙ sym (get-remove c conv live))

-- From a table that has the live tasks' peers, however the tasks of a listener take their steps, as
-- long as no task enters a conversation that a live one has, and only live tasks leave: the table
-- has the live tasks' peers, each under its own conversation, and a peer is closed when its own
-- task leaves and by no other.
pub take_steps-closed_by :
    (steps : List TaskStep) (live : List (ℕ × ℕ)) (r : Registry)
    → Agrees live r.peers
    → AreApart steps live
    → Agrees (live_tasks steps live) (take_steps steps r).peers
      × ((id : ℕ) → (take_steps steps r).peer_at id ≡ closed_by steps id (r.peer_at id))
unfolding take_steps
take_steps-closed_by [] live r a apart = (a, λ id. refl)
take_steps-closed_by (TaskStep.enters conv task ∷ steps) live r a (free, apart) =
    let s = TaskStep.enters conv task in
    let (b, closed) =
      take_steps-closed_by steps (live_after s live) (take_step s r) (Agrees-step s live r a)
        apart in
    (b, λ id. unfold take_step enter in closed id)
take_steps-closed_by (TaskStep.leaves conv task ∷ steps) live r a (own, apart) =
    let s = TaskStep.leaves conv task in
    let (b, closed) =
      take_steps-closed_by steps (live_after s live) (take_step s r) (Agrees-step s live r a)
        apart in
    (b, λ id. closed id ∙ ap (closed_by steps id) (left id))
  where
    left :
        (id : ℕ)
        → (take_step (TaskStep.leaves conv task) r).peer_at id
          ≡ (if id == task then close (r.peer_at id) else r.peer_at id)
    left id = unfold take_step leave close_removed in rw (a conv, own) refl
