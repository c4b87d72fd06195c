-- ===== src/TcpServer/Sockopts.antt =====
-- rust/crates/utopia-proxy/src/server/tcp/sockopts.rs on Linux: the options that listeners and accepted streams get, in
-- order. What the system makes of them is not looked at, but for `TCP_NODELAY`.
use protocol_proxy.Adapter.Tcp.{
  tcp_user_timeout, tcp_quickack_option, tcp_notsent_lowat_option, CInt, non_negative, as_c_int,
}
use protocol_proxy.TcpServer.Config.{TcpConfig, new}
use protocol_proxy.Prelude.{
  ◌>>=◌, [], ◌∷◌, true, ok, refl, if◌then◌else◌, Bytes, ℕ, Result, List, ◌≡◌, Bool, max, ltb,
}

pub data Setting : Type 0 where
  reuse_port : Bool → Setting
  recv_buffer_size send_buffer_size : ℕ → Setting
  keepalive : (time interval retries : ℕ) → Setting
  -- An option of the TCP level: its number and its value.
  option : (name : ℕ) (value : CInt) → Setting

abbrev tcp_fastopen : ℕ
tcp_fastopen = 23

abbrev tcp_defer_accept : ℕ
tcp_defer_accept = 9

abbrev when : Bool → Setting → List Setting → List Setting
when b s rest = if b then s ∷ rest else rest

unfoldable pub apply_listener : TcpConfig → List Setting
apply_listener config = when config.enable_reuse_port (reuse_port true) (
    option tcp_fastopen (non_negative (max config.backlog 1024))
    ∷ option tcp_defer_accept (non_negative 5)
    ∷ [])

tuning : TcpConfig → List Setting
tuning config =
    when (ltb 0 config.tcp_user_timeout_ms)
      (option tcp_user_timeout (as_c_int config.tcp_user_timeout_ms))
      (when config.tcp_quickack (option tcp_quickack_option (non_negative 1)) (
        when (ltb 0 config.tcp_notsent_lowat)
          (option tcp_notsent_lowat_option (as_c_int config.tcp_notsent_lowat)) []))

-- `nodelay` is what setting `TCP_NODELAY` gives.
unfoldable pub apply_stream : Result Bytes (Unit {0}) → TcpConfig → Result Bytes (List Setting)
unfolding tuning
apply_stream nodelay config = do
  _ ← nodelay
  ok (
      when (ltb 0 config.socket_buffer_size) (recv_buffer_size config.socket_buffer_size) (
        when (ltb 0 config.buffer_output_size) (send_buffer_size config.buffer_output_size) (
          keepalive config.tcp_keepidle config.tcp_keepinterval config.tcp_keepcount
          ∷ tuning config)))

apply_stream_example :
    apply_stream (ok tt) (new 4 (5432 ∷ []))
    ≡ ok (
        recv_buffer_size 32768
        ∷ send_buffer_size 32768
        ∷ keepalive 30 10 3
        ∷ option 18 (non_negative 10000)
        ∷ option 12 (non_negative 1)
        ∷ option 25 (non_negative 16384)
        ∷ [])
unfolding apply_stream new
apply_stream_example = refl
