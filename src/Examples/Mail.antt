-- ===== src/Examples/Mail.antt =====
-- A session with an SMTP client.
use protocol_proxy.Smtp.Sessions.Guarded.{AreGuarded, Reach-AreGuarded}
use protocol_proxy.Smtp.Sessions.{Server, Link, taken, joined, started, accepts, rounds}
use protocol_proxy.External.{finished}
use protocol_proxy.Smtp.Config.{SmtpConfig, default}
use protocol_proxy.Smtp.Modes.{handle_line-left, handle_line-IsEntered}
use protocol_proxy.Smtp.Turns.{IsEntered}
use protocol_proxy.Smtp.Lines.{command_token, is_terminator, is_data_only_line}
use protocol_proxy.Smtp.Message.{sends, ended, message-IsRelayed}
use protocol_proxy.Dns.{initial_dns}
use protocol_proxy.Protocol.{smtp}
use protocol_proxy.Adapter.Route.Safety.{IsCacheSafe}
use protocol_proxy.Examples.Data.{env, routes_cache, resolver, hosts_cache, routes_laws}
use protocol_proxy.Adapter.Route.{Adapter}
use protocol_proxy.Smtp.Server.{
  Round, handle_client, run_rounds, continues, handle_line, verb, handle_round,
}
use protocol_proxy.Smtp.Session.{
  RoundEnv, Backend, Client, done, data_mode, command, is_data, forward_data, forward_command,
  build_adapter, new_connection,
}
use protocol_proxy.Smtp.Sessions.{later, started, accepts, rounds}
use protocol_proxy.Prelude.{
  [], ◌∷◌, none, some, false, ok, refl, arith, codes, Bytes, List, ◌≡◌, lookup, map, true, ℕ,
}
use protocol_proxy.Adapter.Route

abbrev smtp_config : SmtpConfig
smtp_config = default 4

abbrev round_env : RoundEnv
round_env = record {
  route = env;
  connect = λ host port limit. finished done;
  read_greeting = finished (codes "220 mx\r\n");
  write_backend = finished done;
  flush_backend = finished done;
  read_backend = finished (codes "354 go\r\n");
  write_client = ok done;
  flush_client = ok done;
  write_unavailable = ok done;
}

abbrev line_round : Bytes → Round
line_round line = record { read = ok line; env = round_env }

abbrev mail_rounds : List Round
mail_rounds = line_round (codes "EHLO a.example\r\n") ∷ line_round (codes "data\r\n") ∷ []

abbrev mail_adapter : Adapter routes_cache.Store
mail_adapter = record {
  resolver = some resolver;
  protocol = smtp;
  cache = [];
  cache_ttl = 60;
  skip_validation = false;
  on_resolve = none;
}

abbrev backend : Backend
backend = record { host = codes "8.8.8.8"; port = 80; sent = [] }

abbrev reading : Client routes_cache hosts_cache
reading = record {
  connection = record { state = data_mode; domain = none; backend = some backend };
  to_client = [];
  adapter = mail_adapter;
  dns = initial_dns;
}

nothing_cached : IsCacheSafe routes_cache hosts_cache routes_laws mail_adapter.cache
unfolding lookup
nothing_cached now k entry e = cc

-- The session does begin to read a message, from the routed backend.
mail_test :
    (handle_client routes_cache hosts_cache smtp_config round_env mail_rounds mail_adapter
      initial_dns).1.connection.state
    ≡ data_mode
unfolding handle_client protocol_proxy.Smtp.Session.is_data
    protocol_proxy.Smtp.Session.new_connection protocol_proxy.Smtp.Server.verb
    protocol_proxy.Smtp.Lines.command_token protocol_proxy.Text.Utf8.from_utf8
    protocol_proxy.Text.Words.trim protocol_proxy.Text.Words.trim_end
    protocol_proxy.Text.Words.trim_start protocol_proxy.Text.Ascii.to_upper
    protocol_proxy.Smtp.Session.handle_helo protocol_proxy.Smtp.Lines.parse_helo_domain
    protocol_proxy.Text.Words.after_blank protocol_proxy.Text.Utf8.is_whitespace
    protocol_proxy.Text.Words.first_word protocol_proxy.Text.Words.take_word
    mathlib.Core.List.flatten protocol_proxy.Smtp.Session.connect_to_backend
    protocol_proxy.Smtp.Session.forward_command protocol_proxy.Smtp.Lines.is_data_only_line
    protocol_proxy.Text.Ascii.eq_ignore_ascii_case protocol_proxy.Text.Ascii.to_lower
    protocol_proxy.Text.Split.starts_with Route.route Route.cached Route.ask Route.validate
    protocol_proxy.Adapter.Endpoint.endpoint_parts protocol_proxy.Text.Split.splitn
    protocol_proxy.Text.Split.split_once protocol_proxy.Text.Decimal.parse_uint
    protocol_proxy.Net.parse_ip protocol_proxy.Dns.resolve
    protocol_proxy.Adapter.Blocked.is_blocked_ip protocol_proxy.Prelude.insert
    protocol_proxy.Prelude.bytes_beq protocol_proxy.Prelude.lookup
    protocol_proxy.Resolver.new_connection_result protocol_proxy.Adapter.Endpoint.endpoint_text
    protocol_proxy.Net.print_ip protocol_proxy.Adapter.Endpoint.parse_endpoint
    protocol_proxy.Text.Decimal.print_decimal
mail_test = refl

message-IsRelayed_example :
    run_rounds routes_cache hosts_cache smtp_config
      (map
        (sends round_env (codes "250 ok\r\n"))
        (codes "hello\r\n" ∷ codes "..\r\n" ∷ codes ".\r\n" ∷ []))
      reading
    ≡ (
      continues,
      ended routes_cache hosts_cache reading backend
          (codes "hello\r\n..\r\n.\r\n")
          (codes "250 ok\r\n"),
    )
unfolding protocol_proxy.Smtp.Lines.is_terminator protocol_proxy.Prelude.bytes_beq
    protocol_proxy.Text.Words.trim protocol_proxy.Text.Words.trim_end
    protocol_proxy.Text.Words.trim_start
message-IsRelayed_example =
    message-IsRelayed routes_cache hosts_cache smtp_config round_env (codes "250 ok\r\n")
      (codes ".\r\n") (codes "hello\r\n" ∷ codes "..\r\n" ∷ []) reading backend refl refl refl refl
      (omega arith) refl

abbrev idle : Client routes_cache hosts_cache
idle = record reading {
  connection = record { state = command; domain = none; backend = some backend };
}

handle_line-IsEntered_example : IsEntered round_env (codes " data \r\n")
unfolding handle_line is_data verb command_token protocol_proxy.Text.Utf8.from_utf8
    protocol_proxy.Text.Words.trim protocol_proxy.Text.Words.trim_end
    protocol_proxy.Text.Words.trim_start protocol_proxy.Text.Ascii.to_upper forward_command
    is_data_only_line protocol_proxy.Text.Ascii.eq_ignore_ascii_case
    protocol_proxy.Text.Ascii.to_lower protocol_proxy.Text.Split.starts_with
handle_line-IsEntered_example =
    handle_line-IsEntered routes_cache hosts_cache round_env smtp_config (codes " data \r\n") idle
      refl refl

handle_line-left_example : is_terminator (codes ".\r\n") ≡ true
unfolding handle_line is_data forward_data is_terminator protocol_proxy.Text.Words.trim
    protocol_proxy.Text.Words.trim_end protocol_proxy.Text.Words.trim_start
    protocol_proxy.Prelude.bytes_beq
handle_line-left_example =
    handle_line-left routes_cache hosts_cache round_env smtp_config (codes ".\r\n") reading refl
      (omega arith) refl

abbrev mail_server : Server routes_cache hosts_cache
mail_server = record {
  adapter = build_adapter routes_cache hosts_cache resolver smtp_config;
  dns = initial_dns;
  sessions = λ i. none;
}

-- Two clients are greeted, and the first says where its mail goes.
abbrev greeted : Link
greeted = record {
  connection = new_connection;
  to_client = codes "220 utopia-php.io ESMTP Proxy\r\n";
}

abbrev mail_step : Server routes_cache hosts_cache → ℕ → Server routes_cache hosts_cache
mail_step s i =
    taken routes_cache hosts_cache s i
      (handle_client routes_cache hosts_cache smtp_config round_env [] s.adapter s.dns)

abbrev two_greeted : Server routes_cache hosts_cache
two_greeted = mail_step (mail_step mail_server 0) 1

abbrev ehlo : Round
ehlo = line_round (codes "EHLO a.example\r\n")

abbrev after_ehlo : Server routes_cache hosts_cache
after_ehlo = taken routes_cache hosts_cache two_greeted 0 (
    handle_round routes_cache hosts_cache smtp_config ehlo
      (joined routes_cache hosts_cache two_greeted greeted))

Reach-AreGuarded_example : AreGuarded routes_cache hosts_cache routes_laws after_ehlo
unfolding default protocol_proxy.Smtp.Sessions.start handle_client
Reach-AreGuarded_example =
    Reach-AreGuarded routes_cache hosts_cache routes_laws smtp_config resolver initial_dns (ok tt)
      (ok tt) {first = mail_server} refl refl
      (later (later (later started (accepts 0 round_env refl)) (accepts 1 round_env refl))
        (rounds 0 greeted ehlo refl))
