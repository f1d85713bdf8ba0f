-- ===== src/Client/Streams/Replay.antt =====
-- How a live stream carries the replay state from event to event.
use haiai.Prelude.{Option}
use haiai.Text.{Text}
use haiai.Client.Live.{Jacs, Scope, LiveEventContext}
use haiai.Client.Feed.{Feed}
use haiai.Client.Feed.Replay.{IsSteady, IsThreaded}

module _ (jacs : Jacs) (store : Option Scope) (expected : LiveEventContext) (seen : jacs.Seen) where
  abbrev IsSteadyHere : Feed jacs → Type 0
  IsSteadyHere = IsSteady jacs store expected seen

  abbrev IsThreadedHere : Feed jacs → Type 0
  IsThreadedHere = IsThreaded jacs store expected seen
