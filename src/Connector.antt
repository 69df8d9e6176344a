-- ===== src/Connector.antt =====
-- snitun/client/connector.py: the connectors of a client.
pub mod Endpoint
pub mod Tls
use snitun.Prelude.{Bool, true, Option, none, some, if◌then◌else◌}
use snitun.IpAddress.{IpAddress}
use snitun.Channel.{Channel}
use snitun.Multiplexer.State.{Multiplexer, Turn, delete_channel}
use snitun.AccessList.{AccessList, check_policy}

-- `_access_policy`
unfoldable pub access_policy : Option AccessList → IpAddress → Bool
access_policy none ip = true
access_policy (some list) ip = check_policy list ip

-- `handler`; `handle_connection` is the one of the subclass.
unfoldable pub handler :
    (Multiplexer → Channel → Turn) → Option AccessList → Multiplexer → Channel → Turn
unfolding access_policy
handler handle_connection list mux c =
    if access_policy list c.ip_address then handle_connection mux c else delete_channel mux c
