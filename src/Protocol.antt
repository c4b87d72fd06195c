-- ===== src/Protocol.antt =====
-- rust/crates/utopia-proxy/src/protocol.rs: the protocols, their names and their ports.
pub mod Names
pub mod Ports
use Prim.Native.String.{String}
use text.Mathlib.Text.{◌==◌ as str_eq}
use protocol_proxy.Prelude.{ℕ, ◌==◌, if◌then◌else◌, Result, ok, err}

pub data Protocol : Type 0 where
  http smtp tcp postgresql mysql mongodb redis memcached kafka amqp clickhouse cassandra nats mssql
        oracle elasticsearch mqtt grpc zookeeper etcd neo4j couchbase cockroachdb tidb pulsar ftp
        ldap rethinkdb :
      Protocol

-- `ProtocolParseError`, with the text that is no protocol's name.
pub record ProtocolParseError : Type 0 where
  pub text : String

pub as_str : Protocol → String
as_str http = "http"
as_str smtp = "smtp"
as_str tcp = "tcp"
as_str postgresql = "postgresql"
as_str mysql = "mysql"
as_str mongodb = "mongodb"
as_str redis = "redis"
as_str memcached = "memcached"
as_str kafka = "kafka"
as_str amqp = "amqp"
as_str clickhouse = "clickhouse"
as_str cassandra = "cassandra"
as_str nats = "nats"
as_str mssql = "mssql"
as_str oracle = "oracle"
as_str elasticsearch = "elasticsearch"
as_str mqtt = "mqtt"
as_str grpc = "grpc"
as_str zookeeper = "zookeeper"
as_str etcd = "etcd"
as_str neo4j = "neo4j"
as_str couchbase = "couchbase"
as_str cockroachdb = "cockroachdb"
as_str tidb = "tidb"
as_str pulsar = "pulsar"
as_str ftp = "ftp"
as_str ldap = "ldap"
as_str rethinkdb = "rethinkdb"

unfoldable pub from_port : ℕ → Protocol
from_port port =
    if port == 5432
    then postgresql
    else if port == 3306
    then mysql
    else if port == 27017
    then mongodb
    else if port == 6379
    then redis
    else if port == 11211
    then memcached
    else if port == 9092
    then kafka
    else if port == 5672
    then amqp
    else if port == 9000
    then clickhouse
    else if port == 9042
    then cassandra
    else if port == 4222
    then nats
    else if port == 1433
    then mssql
    else if port == 1521
    then oracle
    else if port == 9200
    then elasticsearch
    else if port == 1883
    then mqtt
    else if port == 50051
    then grpc
    else if port == 2181
    then zookeeper
    else if port == 2379
    then etcd
    else if port == 7687
    then neo4j
    else if port == 11210
    then couchbase
    else if port == 26257
    then cockroachdb
    else if port == 4000
    then tidb
    else if port == 6650
    then pulsar
    else if port == 21
    then ftp
    else if port == 389
    then ldap
    else if port == 28015
    then rethinkdb
    else tcp

-- `fmt::Display` writes `as_str`.
pub display : Protocol → String
unfolding as_str
display p = as_str p

pub from_str : String → Result ProtocolParseError Protocol
from_str s =
    if str_eq s "http"
    then ok http
    else if str_eq s "smtp"
    then ok smtp
    else if str_eq s "tcp"
    then ok tcp
    else if str_eq s "postgresql"
    then ok postgresql
    else if str_eq s "mysql"
    then ok mysql
    else if str_eq s "mongodb"
    then ok mongodb
    else if str_eq s "redis"
    then ok redis
    else if str_eq s "memcached"
    then ok memcached
    else if str_eq s "kafka"
    then ok kafka
    else if str_eq s "amqp"
    then ok amqp
    else if str_eq s "clickhouse"
    then ok clickhouse
    else if str_eq s "cassandra"
    then ok cassandra
    else if str_eq s "nats"
    then ok nats
    else if str_eq s "mssql"
    then ok mssql
    else if str_eq s "oracle"
    then ok oracle
    else if str_eq s "elasticsearch"
    then ok elasticsearch
    else if str_eq s "mqtt"
    then ok mqtt
    else if str_eq s "grpc"
    then ok grpc
    else if str_eq s "zookeeper"
    then ok zookeeper
    else if str_eq s "etcd"
    then ok etcd
    else if str_eq s "neo4j"
    then ok neo4j
    else if str_eq s "couchbase"
    then ok couchbase
    else if str_eq s "cockroachdb"
    then ok cockroachdb
    else if str_eq s "tidb"
    then ok tidb
    else if str_eq s "pulsar"
    then ok pulsar
    else if str_eq s "ftp"
    then ok ftp
    else if str_eq s "ldap"
    then ok ldap
    else if str_eq s "rethinkdb"
    then ok rethinkdb
    else err (record { text = s })
