-- ===== src/Examples/Bridges.antt =====
-- Access lists, and the handlers that move data through a channel, at concrete inputs.
use snitun.Prelude.{◌≡◌, ◌↔◌, true, false, List, [], ◌∷◌, ℕ, some}
use snitun.Exceptions.{ok, err, os_error}
use snitun.IpAddress.{v4}
use snitun.Queue.Multi.State
use snitun.Channel
use snitun.Channel.{Link}
use snitun.AccessList.{allow, block, check_policy}
use snitun.AccessList.Listed.{Change, apply, new, Admits, check_policy-apply}
use snitun.Connector.Endpoint.Steps
use snitun.SniListener.Proxy
use snitun.SniListener.Proxy.Outward.{Forwards}

-- 10.0.0.0/8 with a host, without 10.1.2.3, and without the host.
abbrev changes : List Change
changes =
    record { adds = true; address = v4 167838211; prefix = 8 }
    ∷ record { adds = true; address = v4 167838211; prefix = 32 }
    ∷ record { adds = false; address = v4 167838211; prefix = 32 }
    ∷ []

check_policy-apply_example :
    ((check_policy (apply changes (new allow)) (v4 167772161) ≡ true)
      ↔ Admits changes (v4 167772161))
    × ((check_policy (apply changes (new block)) (v4 167772161) ≡ true)
        ↔ (¬ Admits changes (v4 167772161)))
check_policy-apply_example = check_policy-apply changes (v4 167772161)

-- A channel that has its queue, with a message to be read.
abbrev link : Link
link = record {
  channel = record (Channel.new (v4 1) 1 true 7) {
    input = record (Channel.new (v4 1) 1 true 7).input {
      queue = some (record { id = 7; flow_type = 2; payload = 1 ∷ 2 ∷ []; extra = [] }) ∷ [];
      total_bytes = 34;
    };
  };
  output = (State.add_channel (State.new 1000 10 100) 7);
  calls = [];
}

abbrev turns : List Steps.Event
turns =
    Steps.peer_task
    ∷ Steps.wakes
    ∷ Steps.drained (ok tt)
    ∷ Steps.endpoint_task (ok (3 ∷ 4 ∷ []))
    ∷ Steps.wakes
    ∷ Steps.endpoint_task (ok [])
    ∷ Steps.wakes
    ∷ []

abbrev moves : List (ℕ × Proxy.Event)
moves =
    (1, Proxy.peer_task)
    ∷ (2, Proxy.drained (ok tt))
    ∷ (3, Proxy.client_sends (ok (5 ∷ 6 ∷ [])))
    ∷ (4, Proxy.client_sends (err os_error))
    ∷ (5, Proxy.start_ends)
    ∷ []
