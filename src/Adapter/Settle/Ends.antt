-- ===== src/Adapter/Settle/Ends.antt =====
-- `_settle_turn` of adapter.py ends, and when.
use hermes_stagewhisper_plug.Prelude.{
  ℕ, zero, suc, ◌+◌, ◌≤◌, ◌<◌, max, ◌≡◌, refl, ◌⊎◌, inl, inr, true, some, arith,
}
use hermes_stagewhisper_plug.Callbacks.{CallbackHandle, Marks}
use hermes_stagewhisper_plug.Adapter.{Adapter, marks_of}
use hermes_stagewhisper_plug.Adapter.Settle.{
  Round, leaves, sleeps, settle_round, Sleeping, settle_from, settle_loop, turn_quiet_period,
  turn_idle_grace, turn_settle_deadline,
}

-- A sleep lasts at least as long as it was asked to.
abbrev pub Sleeps : Sleeping → Type 0
Sleeps asleep = (k time : ℕ) (a : Adapter) → a.clock + time ≤ (asleep k time a).clock

-- Why the loop was left: the turn is over, or the time is up, or nothing was sent and nothing
-- happened for the idle grace, or something was sent and nothing happened for the quiet period.
pub data IsQuiet (deadline now : ℕ) (m : Marks) : Type 0 where
  over : m.terminated ≡ true → IsQuiet deadline now m
  late : deadline ≤ now → IsQuiet deadline now m
  idle : m.last_send_at ≡ 0 → m.last_activity_at + turn_idle_grace ≤ now → IsQuiet deadline now m
  quiet :
      0 < m.last_send_at
      → max m.last_send_at m.last_activity_at + turn_quiet_period ≤ now
      → IsQuiet deadline now m

round_leaves :
    (deadline now : ℕ) (m : Marks) → settle_round deadline now m ≡ leaves → IsQuiet deadline now m
unfolding settle_round
round_leaves deadline now m h = grind (arith, over, late, idle, quiet)

round_sleeps :
    (deadline now time : ℕ) (m : Marks)
    → settle_round deadline now m ≡ sleeps time
    → (now < deadline) × (0 < time)
unfolding settle_round
round_sleeps deadline now time m h = ground arith

Round-cases : (r : Round) → (r ≡ leaves) ⊎ ((time : ℕ) × (r ≡ sleeps time))
Round-cases leaves = inl refl
Round-cases (sleeps time) = inr (time, refl)

-- What the loop of a turn is left with, for any property that the sleeps keep.
module _ (asleep : Sleeping) (handle : CallbackHandle) (deadline : ℕ) (P : Adapter → Type 0)
    (long : Sleeps asleep) (keeps : (k time : ℕ) (a : Adapter) → P a → P (asleep k time a)) where
  from_ends :
      (fuel k : ℕ) (a : Adapter)
      → P a
      → 0 < fuel
      → deadline < a.clock + fuel
      → (b : Adapter) × (settle_from asleep handle deadline fuel k a ≡ some b)
        × IsQuiet deadline b.clock (marks_of handle b)
        × P b
  unfolding settle_from
  from_ends zero k a p pos h = absurd (omega arith)
  from_ends (suc fuel) k a p pos h =
      elim (Round-cases (settle_round deadline a.clock (marks_of handle a))) [
        | inl e ↦ (a, rw (e, settle_from), round_leaves deadline a.clock (marks_of handle a) e, p)
        | inr (time, e) ↦
            (let (early, some_time) = round_sleeps deadline a.clock time (marks_of handle a) e in
              rw (e, settle_from)
                (from_ends fuel (suc k) (asleep k time a) (keeps k time a p) (omega arith)
                  (omega (arith, long k time a))))
      ]

-- `_settle_turn` ends: its loop is left within its deadline's rounds, whatever the other tasks do
-- while it sleeps, if each sleep takes the time that it was asked to take. Then the turn is over,
-- or the deadline has passed, or nothing was sent and nothing happened for the idle grace, or a
-- message was sent and nothing happened for the quiet period. What each sleep keeps holds then.
pub settle_loop-ends :
    (asleep : Sleeping) (handle : CallbackHandle) (P : Adapter → Type 0) (a : Adapter)
    → Sleeps asleep
    → ((k time : ℕ) (b : Adapter) → P b → P (asleep k time b))
    → P a
    → (b : Adapter) × (settle_loop asleep handle a ≡ some b)
      × IsQuiet (a.clock + turn_settle_deadline) b.clock (marks_of handle b)
      × P b
settle_loop-ends asleep handle P a long keeps p =
    from_ends asleep handle (a.clock + turn_settle_deadline) P long keeps (turn_settle_deadline + 1)
      0 a p (omega arith) (omega arith)
