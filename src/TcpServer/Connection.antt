-- ===== src/TcpServer/Connection.antt =====
-- The state of a client's connection, rust/crates/utopia-proxy/src/server/tcp/connection.rs.
use protocol_proxy.Adapter.Tcp.{TcpClient}
use protocol_proxy.Prelude.{Option, none, Bool, false, ℕ, ◌≡◌, refl}

pub record Connection : Type 0 where
  backend : Option TcpClient
  port : ℕ
  pending_tls : Bool
  inbound : ℕ
  outbound : ℕ

unfoldable pub new : ℕ → Connection
new port = record { backend = none; port = port; pending_tls = false; inbound = 0; outbound = 0 }

unfoldable pub reset : Connection → Connection
reset c = record c { backend = none; port = 0; pending_tls = false; inbound = 0; outbound = 0 }

unfoldable pub default : Connection
unfolding new
default = new 0

-- A connection that is reset has nothing left of what it was.
reset-default : (c : Connection) → reset c ≡ default
unfolding reset default new
reset-default c = refl
