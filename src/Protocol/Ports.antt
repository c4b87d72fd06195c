-- ===== src/Protocol/Ports.antt =====
-- The port table.
use mathlib.Core.Option.{some-injective}
use protocol_proxy.Prelude.{
  ℕ, ◌≡◌, refl, sym, ap, subst, ◌∙◌, ◌≢◌, ◌↔◌, inl, inr, Bool-cases, ==_iff, Option, none, some,
  if◌then◌else◌, ◌==◌,
}
use protocol_proxy.Protocol.{
  Protocol, http, smtp, tcp, postgresql, mysql, mongodb, redis, memcached, kafka, amqp, clickhouse,
  cassandra, nats, mssql, oracle, elasticsearch, mqtt, grpc, zookeeper, etcd, neo4j, couchbase,
  cockroachdb, tidb, pulsar, ftp, ldap, rethinkdb, from_port,
}

-- The port that a protocol's servers listen on; HTTP, SMTP and plain TCP have none in the table.
abbrev pub default_port : Protocol → Option ℕ
default_port http = none
default_port smtp = none
default_port tcp = none
default_port postgresql = some 5432
default_port mysql = some 3306
default_port mongodb = some 27017
default_port redis = some 6379
default_port memcached = some 11211
default_port kafka = some 9092
default_port amqp = some 5672
default_port clickhouse = some 9000
default_port cassandra = some 9042
default_port nats = some 4222
default_port mssql = some 1433
default_port oracle = some 1521
default_port elasticsearch = some 9200
default_port mqtt = some 1883
default_port grpc = some 50051
default_port zookeeper = some 2181
default_port etcd = some 2379
default_port neo4j = some 7687
default_port couchbase = some 11210
default_port cockroachdb = some 26257
default_port tidb = some 4000
default_port pulsar = some 6650
default_port ftp = some 21
default_port ldap = some 389
default_port rethinkdb = some 28015

from_port_of_default :
    (p : Protocol) (port : ℕ) → default_port p ≡ some port → (from_port port ≡ p) × (p ≢ tcp)
unfolding from_port
from_port_of_default http port e = cc
from_port_of_default smtp port e = cc
from_port_of_default tcp port e = cc
from_port_of_default postgresql port e =
    (subst (λ n. from_port n ≡ postgresql) (some-injective 5432 port e) refl, λ h. cc)
from_port_of_default mysql port e =
    (subst (λ n. from_port n ≡ mysql) (some-injective 3306 port e) refl, λ h. cc)
from_port_of_default mongodb port e =
    (subst (λ n. from_port n ≡ mongodb) (some-injective 27017 port e) refl, λ h. cc)
from_port_of_default redis port e =
    (subst (λ n. from_port n ≡ redis) (some-injective 6379 port e) refl, λ h. cc)
from_port_of_default memcached port e =
    (subst (λ n. from_port n ≡ memcached) (some-injective 11211 port e) refl, λ h. cc)
from_port_of_default kafka port e =
    (subst (λ n. from_port n ≡ kafka) (some-injective 9092 port e) refl, λ h. cc)
from_port_of_default amqp port e =
    (subst (λ n. from_port n ≡ amqp) (some-injective 5672 port e) refl, λ h. cc)
from_port_of_default clickhouse port e =
    (subst (λ n. from_port n ≡ clickhouse) (some-injective 9000 port e) refl, λ h. cc)
from_port_of_default cassandra port e =
    (subst (λ n. from_port n ≡ cassandra) (some-injective 9042 port e) refl, λ h. cc)
from_port_of_default nats port e =
    (subst (λ n. from_port n ≡ nats) (some-injective 4222 port e) refl, λ h. cc)
from_port_of_default mssql port e =
    (subst (λ n. from_port n ≡ mssql) (some-injective 1433 port e) refl, λ h. cc)
from_port_of_default oracle port e =
    (subst (λ n. from_port n ≡ oracle) (some-injective 1521 port e) refl, λ h. cc)
from_port_of_default elasticsearch port e =
    (subst (λ n. from_port n ≡ elasticsearch) (some-injective 9200 port e) refl, λ h. cc)
from_port_of_default mqtt port e =
    (subst (λ n. from_port n ≡ mqtt) (some-injective 1883 port e) refl, λ h. cc)
from_port_of_default grpc port e =
    (subst (λ n. from_port n ≡ grpc) (some-injective 50051 port e) refl, λ h. cc)
from_port_of_default zookeeper port e =
    (subst (λ n. from_port n ≡ zookeeper) (some-injective 2181 port e) refl, λ h. cc)
from_port_of_default etcd port e =
    (subst (λ n. from_port n ≡ etcd) (some-injective 2379 port e) refl, λ h. cc)
from_port_of_default neo4j port e =
    (subst (λ n. from_port n ≡ neo4j) (some-injective 7687 port e) refl, λ h. cc)
from_port_of_default couchbase port e =
    (subst (λ n. from_port n ≡ couchbase) (some-injective 11210 port e) refl, λ h. cc)
from_port_of_default cockroachdb port e =
    (subst (λ n. from_port n ≡ cockroachdb) (some-injective 26257 port e) refl, λ h. cc)
from_port_of_default tidb port e =
    (subst (λ n. from_port n ≡ tidb) (some-injective 4000 port e) refl, λ h. cc)
from_port_of_default pulsar port e =
    (subst (λ n. from_port n ≡ pulsar) (some-injective 6650 port e) refl, λ h. cc)
from_port_of_default ftp port e =
    (subst (λ n. from_port n ≡ ftp) (some-injective 21 port e) refl, λ h. cc)
from_port_of_default ldap port e =
    (subst (λ n. from_port n ≡ ldap) (some-injective 389 port e) refl, λ h. cc)
from_port_of_default rethinkdb port e =
    (subst (λ n. from_port n ≡ rethinkdb) (some-injective 28015 port e) refl, λ h. cc)

-- One line of the table: either the port is this one, or a later line answers.
listed :
    (port n : ℕ) (q p rest : Protocol)
    → default_port q ≡ some n
    → (rest ≡ p → default_port p ≡ some port)
    → (if port == n then q else rest) ≡ p
    → default_port p ≡ some port
listed port n q p rest known later e = elim (Bool-cases (port == n)) [
  | inl same ↦
      let found : q ≡ p = rw same at e in
      ap default_port (sym found) ∙ known ∙ ap some (sym ((==_iff port n).0 same))
  | inr other ↦ later (rw other at e)
]

default_of_from_port :
    (p : Protocol) (port : ℕ) → p ≢ tcp → from_port port ≡ p → default_port p ≡ some port
unfolding from_port
default_of_from_port p port named = listed port 5432 postgresql p _ refl (
    listed port 3306 mysql p _ refl (
      listed port 27017 mongodb p _ refl (
        listed port 6379 redis p _ refl (
          listed port 11211 memcached p _ refl (
            listed port 9092 kafka p _ refl (
              listed port 5672 amqp p _ refl (
                listed port 9000 clickhouse p _ refl (
                  listed port 9042 cassandra p _ refl (
                    listed port 4222 nats p _ refl (
                      listed port 1433 mssql p _ refl (
                        listed port 1521 oracle p _ refl (
                          listed port 9200 elasticsearch p _ refl (
                            listed port 1883 mqtt p _ refl (
                              listed port 50051 grpc p _ refl (
                                listed port 2181 zookeeper p _ refl (
                                  listed port 2379 etcd p _ refl (
                                    listed port 7687 neo4j p _ refl (
                                      listed port 11210 couchbase p _ refl (
                                        listed port 26257 cockroachdb p _ refl (
                                          listed port 4000 tidb p _ refl (
                                            listed port 6650 pulsar p _ refl (
                                              listed port 21 ftp p _ refl (
                                                listed port 389 ldap p _ refl (
                                                  listed port 28015 rethinkdb p _ refl (λ e.
                                                    absurd (named (sym e)))))))))))))))))))))))))))

-- A port is mapped to a protocol other than plain TCP exactly when it is that protocol's port.
from_port-default_port :
    (p : Protocol) (port : ℕ) → ((from_port port ≡ p) × (p ≢ tcp)) ↔ (default_port p ≡ some port)
from_port-default_port p port =
    (λ h. default_of_from_port p port h.1 h.0, from_port_of_default p port)
