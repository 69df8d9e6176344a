-- ===== src/Connector/Endpoint/Forwards.antt =====
-- What `EndpointConnectorHandler` (snitun/client/connector.py) reads is what it writes.
use snitun.Queue.Multi.Tasks
use snitun.Bytes.{Bytes}
