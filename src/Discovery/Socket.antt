-- ===== src/Discovery/Socket.antt =====
-- `DockerServiceDiscoverer::new` of pingoo/service_discovery/docker.rs.
use pingoo.Prelude.{String, Option, none, some, Result, ok, err}
use pingoo.Disk.{Disk, Access, content, not_found, failed, read}
use pingoo.Config.{ServiceDiscoveryConfig}
use pingoo.DockerClient.{Client}
use pingoo.DockerClient

-- "error reading docker socket"
pub data SocketError : Type 0 where
  socket_unreadable : String → SocketError

abbrev pub client_for :
    {Sender : Type 0} → String → Access → Result (Option (Client Sender)) SocketError
client_for socket (content text) = ok (some (DockerClient.new (some socket)))
client_for socket not_found = ok none
client_for socket failed = err (socket_unreadable socket)

-- the client, which is not there without a socket
unfoldable pub new :
    {Sender : Type 0} → Disk → ServiceDiscoveryConfig → Result (Option (Client Sender)) SocketError
new disk config = client_for config.docker.socket (read disk config.docker.socket)
