-- ===== src/Ingestion/Examples/Serving.antt =====
-- The theorems on the service as a whole, at concrete states.
use reconx.Base.{Memᴰ, ℕ, true, ◌≡◌, refl, [], ◌∷◌, All, arith}
use reconx.Base.Table.{find}
use reconx.Ingestion.Examples.{libs, env, empty, rec}
use reconx.Ingestion.Server.Grows.{IsBacked}
use reconx.Ingestion.Server.Drained.{IsDrained}
use reconx.Ingestion.Delivered.{received}
use reconx.Ingestion.Lifecycle.{
  serving, Service, Startup, start_up, accept, acknowledge, consume, Reach, here, next, accepting,
  acknowledging, consumed,
}
use reconx.Ingestion.Lifecycle.Accounted.{IsAccounted, start_up-IsAccounted}
use reconx.Ingestion.Lifecycle.Lost.{late, shutdown_loses, drained, Reach-drained}

abbrev ready : Startup
ready = record {
  configured = true;
  opened = true;
  storage_ready = true;
  idempotency_ready = true;
  dlq_ready = true;
  listening = true;
}

abbrev started : Service ℕ
started = record {
  phase = serving;
  consuming = true;
  queue = [];
  tables = empty;
  queued = [];
  acknowledged = [];
  submitted = [];
}

abbrev one_queued : Service ℕ
one_queued = accepting libs 10 rec started

no_reply : IsBacked empty
unfolding find
no_reply k a e = absurd cc

-- The record is queued, acknowledged and taken off the queue.
abbrev handled : Service ℕ
handled = consumed libs 10 env rec [] (acknowledging libs 10 (rec ∷ []) one_queued)

start_up-IsAccounted_example : IsAccounted handled
unfolding start_up
start_up-IsAccounted_example =
    start_up-IsAccounted libs 10 ready empty started handled
      (next
        (next (next here (accept rec refl (omega arith) refl))
          (acknowledge (rec ∷ []) refl (Memᴰ.head refl, tt) refl))
        (consume env rec [] refl refl refl))
      refl no_reply (((tt, tt), tt), (refl, refl))

shutdown_loses_example :
    Reach libs 10 one_queued (late libs 10 rec one_queued)
    × ((late libs 10 rec one_queued).submitted ≡ one_queued.submitted)
shutdown_loses_example =
    shutdown_loses libs 10 one_queued (late libs 10 rec one_queued) rec refl (omega arith) here

Reach-drained_example :
    Reach libs 10 one_queued (drained libs 10 (env ∷ []) one_queued)
    × All
        (IsDrained (drained libs 10 (env ∷ []) one_queued).tables)
        (received (env ∷ []) one_queued.queue)
Reach-drained_example =
    Reach-drained libs 10 (env ∷ []) one_queued refl refl ((refl, refl), tt) no_reply
