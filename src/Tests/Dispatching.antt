-- ===== src/Tests/Dispatching.antt =====
-- Tests of adapter.py: a whole `_dispatch`.
use hermes_stagewhisper_plug.Prelude.{none, ℕ, ◌+◌, ◌≡◌, refl, true, some, arith}
use hermes_stagewhisper_plug.Adapter.{Adapter, World, Delivery, response, marks_of}
use hermes_stagewhisper_plug.Adapter.Settle.{Sleeping, settle_loop, turn_settle_deadline}
use hermes_stagewhisper_plug.Adapter.Settle.Ends.{Sleeps, IsQuiet, settle_loop-ends}
use hermes_stagewhisper_plug.Adapter.Run.{answered, Gateway, dispatch}
use hermes_stagewhisper_plug.Adapter.Run.Fair.{IsKnown, IsFair, same-IsFair}
use hermes_stagewhisper_plug.Adapter.Run.Dispatched.{Ends, dispatch-Ends}
use hermes_stagewhisper_plug.Tests.Turns.{
  chat, busy, handle, host, world, busy-known, busy-remembers,
}

abbrev after : ℕ → Adapter → Adapter
after time a = record a { clock = a.clock + time }

-- Nothing but the clock moves while a turn sleeps.
abbrev dozing : Sleeping
dozing k time a = after time a

-- The agent answers after a second, and a delivery takes 5 milliseconds.
abbrev gateway : Gateway
gateway = record {
  available = true;
  has_metadata = true;
  build_raises = none;
  handle_message = λ m w. (record w { adapter = after 1000 w.adapter }, answered);
}

abbrev slow : Delivery
slow = record { attempts = λ k. response 200; meanwhile = after 5 }

abbrev quiet_world : World
quiet_world = record world { ahead = λ k. slow }

after-Fair : (time : ℕ) (a : Adapter) → IsKnown handle a → IsFair handle a (after time a)
after-Fair time a k = same-IsFair handle a (after time a) k refl refl refl

dozing-Sleeps : Sleeps dozing
dozing-Sleeps k time a = omega arith

busy-IsKnown : IsKnown handle busy
busy-IsKnown = record { known = busy-known; remembers = busy-remembers }

settle_loop-ends_example :
    (b : Adapter) × (settle_loop dozing handle busy ≡ some b)
    × IsQuiet (busy.clock + turn_settle_deadline) b.clock (marks_of handle b)
    × IsKnown handle b
settle_loop-ends_example =
    settle_loop-ends dozing handle (IsKnown handle) busy dozing-Sleeps
      (λ k time b kb. (after-Fair time b kb).known) busy-IsKnown

dispatch-Ends_example :
    Ends gateway handle
      (dispatch gateway dozing host (chat "t" (some "http://localhost/")) handle quiet_world)
dispatch-Ends_example =
    dispatch-Ends gateway dozing host (chat "t" (some "http://localhost/")) handle quiet_world
      busy-IsKnown (λ k a ka. after-Fair 5 a ka)
      (λ m w kw ahead. record { adapter = after-Fair 1000 w.adapter kw; ahead = ahead })
      (λ k time a ka. after-Fair time a ka) dozing-Sleeps
