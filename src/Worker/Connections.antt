-- ===== src/Worker/Connections.antt =====
-- snitun/server/worker.py: the connections that the server's thread hands over to a worker, and the
-- handlers that get them.
use snitun.Prelude.{
  refl, sym, append-nil, append_assoc, ℕ, ◌≡◌, Option, none, some, List, [], ◌∷◌, ◌++◌, map,
  if◌then◌else◌, ◌∙◌,
}
use snitun.Exceptions.{Exception, Result, ok, err}
use snitun.Bytes.{Bytes, Text}
use snitun.IpAddress.{IpAddress}
use snitun.Connector.Endpoint.{catches_os}

-- A connection as it is handed over: `con` stands for its socket, `pre_read` is its `data`.
pub record Connection : Type 0 where
  pub con : ℕ
  pub pre_read : Bytes
  pub sni : Option Text
  pub peer_address : Option IpAddress

-- `_new`: the connections, and None for the end.
abbrev pub Queue : Type 0
Queue = List (Option Connection)

-- `handover_connection`
unfoldable pub handover_connection : Connection → Queue → Queue
handover_connection c queue = queue ++ some c ∷ []

-- `shutdown`, but for its wait.
unfoldable pub shutdown : Queue → Queue
shutdown queue = queue ++ none ∷ []

-- What becomes of a connection: its socket is closed, or a task of a listener's handler is made for it.
pub data Task : Type 0 where
  closed : (con : ℕ) → Task
  sni_task : (con : ℕ) → Bytes → Text → Option IpAddress → Task
  peer_task : (con : ℕ) → Bytes → Task
  failed : (con : ℕ) → Exception → Task

-- An empty name counts as none.
abbrev is_set : Option Text → Option Text
is_set none = none
is_set (some []) = none
is_set (some (c ∷ cs)) = some (c ∷ cs)

-- `_async_new_connection`: `opened` is what `open_connection` comes to.
unfoldable pub async_new_connection : Result (Unit {0}) → Connection → Task
async_new_connection (ok _) c = elim (is_set c.sni) [
  | none ↦ peer_task c.con c.pre_read
  | some sni ↦ sni_task c.con c.pre_read sni c.peer_address
]
async_new_connection (err e) c = if catches_os e then closed c.con else failed c.con e

-- The loop of `run`, until the queue has None: the tasks, in the order of their start, and what is left of
-- the queue.
unfoldable pub run : (ℕ → Result (Unit {0})) → Queue → List Task × Queue
unfolding async_new_connection
run open_connection [] = ([], [])
run open_connection (none ∷ queue) = ([], queue)
run open_connection (some c ∷ queue) =
    let (tasks, left) = run open_connection queue in
    (async_new_connection (open_connection c.con) c ∷ tasks, left)

abbrev handed : List Connection → Queue → Queue
handed [] queue = queue
handed (c ∷ cs) queue = handed cs (handover_connection c queue)

handed-append : (cs : List Connection) (queue : Queue) → handed cs queue ≡ queue ++ map some cs
unfolding handover_connection
handed-append [] queue = sym (append-nil queue)
handed-append (c ∷ cs) queue =
    handed-append cs (queue ++ some c ∷ []) ∙ append_assoc queue (some c ∷ []) (map some cs)

module _ (open_connection : ℕ → Result (Unit {0})) where
  abbrev task_of : Connection → Task
  task_of c = async_new_connection (open_connection c.con) c

  run-map :
      (cs : List Connection) → run open_connection (map some cs ++ none ∷ []) ≡ (map task_of cs, [])
  unfolding run
  run-map [] = refl
  run-map (c ∷ cs) = rw (run-map cs) refl

  -- Every connection that is handed over before the worker is shut down gets its task, in the order in
  -- which they are handed over, and the loop ends.
  run-handed :
      (cs : List Connection) → run open_connection (shutdown (handed cs [])) ≡ (map task_of cs, [])
  unfolding shutdown
  run-handed cs = rw (handed-append cs []) (run-map cs)
