-- ===== src/Protocol/Names.antt =====
-- The name of a protocol and back.
use Prim.Native.String.{String}
use text.Mathlib.Text.{◌==◌ as str_eq}
use text.Mathlib.TextEquality.{eq_iff}
use protocol_proxy.Prelude.{
  ◌≡◌, refl, sym, ap, ◌∙◌, inl, inr, Result, ok, err, ◌↔◌, subst, if◌then◌else◌, Bool-cases,
}
use protocol_proxy.Protocol.{
  Protocol, http, smtp, tcp, postgresql, mysql, mongodb, redis, memcached, kafka, amqp, clickhouse,
  cassandra, nats, mssql, oracle, elasticsearch, mqtt, grpc, zookeeper, etcd, neo4j, couchbase,
  cockroachdb, tidb, pulsar, ftp, ldap, rethinkdb, ProtocolParseError, as_str, display, from_str,
}

-- Each protocol's printed name parses to the protocol.
pub from_str-display : (p : Protocol) → from_str (display p) ≡ ok p
unfolding from_str display as_str
from_str-display http = refl
from_str-display smtp = refl
from_str-display tcp = refl
from_str-display postgresql = refl
from_str-display mysql = refl
from_str-display mongodb = refl
from_str-display redis = refl
from_str-display memcached = refl
from_str-display kafka = refl
from_str-display amqp = refl
from_str-display clickhouse = refl
from_str-display cassandra = refl
from_str-display nats = refl
from_str-display mssql = refl
from_str-display oracle = refl
from_str-display elasticsearch = refl
from_str-display mqtt = refl
from_str-display grpc = refl
from_str-display zookeeper = refl
from_str-display etcd = refl
from_str-display neo4j = refl
from_str-display couchbase = refl
from_str-display cockroachdb = refl
from_str-display tidb = refl
from_str-display pulsar = refl
from_str-display ftp = refl
from_str-display ldap = refl
from_str-display rethinkdb = refl

-- One line of the parser: either the text is this name, or a later line answers.
named :
    (s name : String) (q p : Protocol) (rest : Result ProtocolParseError Protocol)
    → as_str q ≡ name
    → (rest ≡ ok p → as_str p ≡ s)
    → (if str_eq s name then ok q else rest) ≡ ok p
    → as_str p ≡ s
named s name q p rest n later e = elim (Bool-cases (str_eq s name)) [
  | inl same ↦
      let found : q ≡ p = cc (rw same at e) in
      ap as_str (sym found) ∙ n ∙ sym ((eq_iff s name).0 same)
  | inr other ↦ later (rw other at e)
]

-- A text that parses is the protocol's name.
as_str_of_ok : (s : String) (p : Protocol) → from_str s ≡ ok p → as_str p ≡ s
unfolding from_str as_str
as_str_of_ok s p = named s "http" http p _ refl (
    named s "smtp" smtp p _ refl (
      named s "tcp" tcp p _ refl (
        named s "postgresql" postgresql p _ refl (
          named s "mysql" mysql p _ refl (
            named s "mongodb" mongodb p _ refl (
              named s "redis" redis p _ refl (
                named s "memcached" memcached p _ refl (
                  named s "kafka" kafka p _ refl (
                    named s "amqp" amqp p _ refl (
                      named s "clickhouse" clickhouse p _ refl (
                        named s "cassandra" cassandra p _ refl (
                          named s "nats" nats p _ refl (
                            named s "mssql" mssql p _ refl (
                              named s "oracle" oracle p _ refl (
                                named s "elasticsearch" elasticsearch p _ refl (
                                  named s "mqtt" mqtt p _ refl (
                                    named s "grpc" grpc p _ refl (
                                      named s "zookeeper" zookeeper p _ refl (
                                        named s "etcd" etcd p _ refl (
                                          named s "neo4j" neo4j p _ refl (
                                            named s "couchbase" couchbase p _ refl (
                                              named s "cockroachdb" cockroachdb p _ refl (
                                                named s "tidb" tidb p _ refl (
                                                  named s "pulsar" pulsar p _ refl (
                                                    named s "ftp" ftp p _ refl (
                                                      named s "ldap" ldap p _ refl (
                                                        named s "rethinkdb" rethinkdb p _ refl
                                                          (λ e. cc))))))))))))))))))))))))))))

-- A text parses to a protocol exactly when it is that protocol's printed name.
from_str-ok_iff : (s : String) (p : Protocol) → (from_str s ≡ ok p) ↔ (display p ≡ s)
unfolding display
from_str-ok_iff s p = (as_str_of_ok s p, λ e. subst (λ t. from_str t ≡ ok p) e (from_str-display p))

reported :
    (s name : String) (q : Protocol) (rest : Result ProtocolParseError Protocol)
    (e : ProtocolParseError)
    → (rest ≡ err e → e.text ≡ s)
    → (if str_eq s name then ok q else rest) ≡ err e
    → e.text ≡ s
reported s name q rest e later h = elim (Bool-cases (str_eq s name)) [
  | inl same ↦ cc (rw same at h)
  | inr other ↦ later (rw other at h)
]

-- A failure reports the text that it was given.
pub from_str-err : (s : String) (e : ProtocolParseError) → from_str s ≡ err e → e.text ≡ s
unfolding from_str
from_str-err s e = reported s "http" http _ e (
    reported s "smtp" smtp _ e (
      reported s "tcp" tcp _ e (
        reported s "postgresql" postgresql _ e (
          reported s "mysql" mysql _ e (
            reported s "mongodb" mongodb _ e (
              reported s "redis" redis _ e (
                reported s "memcached" memcached _ e (
                  reported s "kafka" kafka _ e (
                    reported s "amqp" amqp _ e (
                      reported s "clickhouse" clickhouse _ e (
                        reported s "cassandra" cassandra _ e (
                          reported s "nats" nats _ e (
                            reported s "mssql" mssql _ e (
                              reported s "oracle" oracle _ e (
                                reported s "elasticsearch" elasticsearch _ e (
                                  reported s "mqtt" mqtt _ e (
                                    reported s "grpc" grpc _ e (
                                      reported s "zookeeper" zookeeper _ e (
                                        reported s "etcd" etcd _ e (
                                          reported s "neo4j" neo4j _ e (
                                            reported s "couchbase" couchbase _ e (
                                              reported s "cockroachdb" cockroachdb _ e (
                                                reported s "tidb" tidb _ e (
                                                  reported s "pulsar" pulsar _ e (
                                                    reported s "ftp" ftp _ e (
                                                      reported s "ldap" ldap _ e (
                                                        reported s "rethinkdb" rethinkdb _ e
                                                          (λ h. cc (h)))))))))))))))))))))))))))))
