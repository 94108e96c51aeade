-- ===== src/Adapter/Settle.antt =====
-- adapter.py: `_settle_turn`, which waits until a turn falls quiet, and `_keepalive`.
pub mod Ends
use hermes_stagewhisper_plug.Prelude.{
  ℕ, zero, suc, ◌+◌, ◌-◌, max, String, Bool, true, false, not, ◌&&◌, ◌||◌, Option, none, some, List,
  [], ◌∷◌, leb, ltb, eqb, if◌then◌else◌,
}
use hermes_stagewhisper_plug.Json.{Members}
use hermes_stagewhisper_plug.Callbacks.{CallbackHandle, Marks}
use hermes_stagewhisper_plug.Models.Payloads.{build_status_payload}
use hermes_stagewhisper_plug.Adapter.{Adapter, Host, World, Exec, marks_of}
use hermes_stagewhisper_plug.Adapter.Turns.{terminate}
use hermes_stagewhisper_plug.Adapter.Dispatch.{emit_typing}

-- the times of a turn, in milliseconds
abbrev pub turn_keepalive : ℕ
turn_keepalive = 15000

abbrev pub turn_quiet_period : ℕ
turn_quiet_period = 2000

abbrev pub turn_idle_grace : ℕ
turn_idle_grace = 15000

abbrev pub turn_settle_deadline : ℕ
turn_settle_deadline = 290000

-- What a round of the loop does: it leaves the loop, or it sleeps.
pub data Round : Type 0 where
  leaves : Round
  sleeps : ℕ → Round

-- the body of the loop, where `handle.last_send_at` is not 0
unfoldable pub quiet_round : ℕ → Marks → Round
quiet_round now m =
    let quiet_since = max m.last_send_at m.last_activity_at in
    if leb (quiet_since + turn_quiet_period) now
    then leaves
    else sleeps (quiet_since + turn_quiet_period - now)

-- the body of the loop, where nothing was sent
unfoldable pub idle_round : ℕ → Marks → Round
idle_round now m = if leb (m.last_activity_at + turn_idle_grace) now then leaves else sleeps 250

-- one round, with the test of the loop
unfoldable pub settle_round : ℕ → ℕ → Marks → Round
unfolding quiet_round idle_round
settle_round deadline now m =
    if m.terminated || leb deadline now
    then leaves
    else if eqb m.last_send_at 0
    then idle_round now m
    else quiet_round now m

-- The k-th sleep of a loop, of so many milliseconds: what the other tasks do to the adapter, its
-- clock included, before the loop goes on.
abbrev pub Sleeping : Type 0
Sleeping = ℕ → ℕ → Adapter → Adapter

-- The loop from its k-th sleep on; `none` where the fuel runs out.
unfoldable pub settle_from : Sleeping → CallbackHandle → ℕ → ℕ → ℕ → Adapter → Option Adapter
settle_from asleep handle deadline zero k a = none
settle_from asleep handle deadline (suc fuel) k a =
    elim (settle_round deadline a.clock (marks_of handle a)) [
      | leaves ↦ some a
      | sleeps time ↦ settle_from asleep handle deadline fuel (suc k) (asleep k time a)
    ]

-- The fuel is one round for each millisecond up to the deadline.
abbrev pub settle_loop : Sleeping → CallbackHandle → Adapter → Option Adapter
settle_loop asleep handle a =
    settle_from asleep handle (a.clock + turn_settle_deadline) (turn_settle_deadline + 1) 0 a

-- the status of a turn that falls quiet
abbrev pub settled_status : Marks → String
settled_status m = if m.delivered then "completed" else "silent"

-- `_settle_turn` after its loop
unfoldable pub conclude_turn : Host → CallbackHandle → World → World
conclude_turn host handle w =
    let m = marks_of handle w.adapter in
    let payload =
      build_status_payload handle.task_id handle.session_id (settled_status m)
        handle.user_message_id w.adapter.iso_now in
    if m.terminated then w else (terminate host handle payload w).1

-- `_settle_turn`; where the fuel runs out, it has not ended
unfoldable pub settle_turn : Sleeping → Host → CallbackHandle → World → Option World
unfolding conclude_turn
settle_turn asleep host handle w = elim (settle_loop asleep handle w.adapter) [
  | none ↦ none
  | some a ↦ some (conclude_turn host handle (record w { adapter = a }))
]

-- `_keepalive`, until it is cancelled: one nap for each sleep that it lives to see the end of
unfoldable pub keepalive : Host → CallbackHandle → List (Adapter → Adapter) → World → World
keepalive host handle [] w = w
keepalive host handle (nap ∷ naps) w =
    let woken : World = record w { adapter = nap w.adapter } in
    let more = keepalive host handle naps (emit_typing host handle woken).1 in
    if (marks_of handle w.adapter).terminated
    then w
    else if (marks_of handle woken.adapter).terminated
    then woken
    else more
