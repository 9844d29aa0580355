-- ===== src/Storage/File/Preserver.antt =====
-- The goroutine that `Start` launches when the store interval is positive, among the requests that
-- the server answers meanwhile. The goroutines take turns at the mutex: a schedule is the list of
-- what happens between the start and the cancellation of the context.
pub mod Stores
pub mod Restart
use go_advanced.Base.{Bool, true, false, List, [], ◌∷◌, if◌then◌else◌}
use go_advanced.Base.Exec.{Call, returned, ◌>>=◌, ◌>>◌}
use go_advanced.Entities.{Metric}
use go_advanced.Storage.File.Devices.{Codec}
use go_advanced.Storage.File.{FileStorage, store_metrics, update_metric, update_metrics}

pub data Event : Type 0 where
  tick : Event
  update : Metric → Event
  update_batch : List Metric → Event

module _ (json : Codec) where
  -- The ticker's case stores; a request's answer goes to its client.
  pub happen : Event → Call FileStorage (Unit {0})
  happen tick = store_metrics json
  happen (update m) = update_metric json m >> λ g. returned tt g
  happen (update_batch ms) = update_metrics json ms >> λ g. returned tt g

  -- the `for` loop, until the context is cancelled
  pub loop : List Event → Call FileStorage (Unit {0})
  loop [] = λ g. returned tt g
  loop (e ∷ es) = happen e >> loop es

  -- The first `select` finds the context cancelled, or stores and enters the loop; the deferred
  -- function stores on exit.
  unfoldable pub preserver : Bool → List Event → Call FileStorage (Unit {0})
  unfolding loop happen
  preserver cancelled es =
      if cancelled
      then store_metrics json
      else (store_metrics json >> loop es >> store_metrics json)
