-- ===== src/Tests/Deliveries.antt =====
-- The theorems of the delivery worker on a queue of one mail that the server turns away for now.
use status_dashboard_backend.Common.{◌+◌, false, arith}
use status_dashboard_backend.Outbox.Invariant.{AllSound}
use status_dashboard_backend.Notification.Publish.{build_row}
use status_dashboard_backend.Notification.Worker.{Worker, unsent, drain}
use status_dashboard_backend.Notification.Worker.Ends.{Ends, drain-Ends}
use status_dashboard_backend.Tests.Queues.{queue}

-- every retry is due at once
abbrev worker : Worker
worker = record {
  lease_owner = "pod-1";
  lease_timeout = 60;
  max_attempts = 3;
  backoff = λ now attempts. now;
  started = 200;
  recover_fails = false;
  clock = λ n. 200 + n;
  cancelled = λ n. false;
  cancelled_row = λ n. false;
  claim_fails = λ n. false;
  update_fails = λ n. false;
  sending = λ n row. unsent "421 try again later";
}

queue_sound : AllSound 3 queue
unfolding build_row
queue_sound = (ground arith, tt)

drain_example : Ends worker (omega arith) (drain worker 8 queue)
drain_example = drain-Ends worker (omega arith) 8 queue queue_sound (tt, tt) (omega arith)
