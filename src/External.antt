-- ===== src/External.antt =====
-- What the program takes from other packages, as records of operations and of the documented laws
-- that it relies on: the `moka` cache behind the routing table of rust/crates/utopia-proxy/src/adapter/mod.rs
-- and the host table of dns.rs, and the `DashMap` behind the tables of adapter/tcp.rs.
use protocol_proxy.Prelude.{
  ℕ, ◌≡◌, refl, ◌≢◌, ◌⊎◌, Option, none, some, List, [], Eq, if◌then◌else◌, lookup, insert, remove,
  lookup-insert, lookup-remove, arith, Bytes,
}

-- What an operation under `tokio::time::timeout` gives.
pub data Timed (A : Type 0) : Type 0 where
  elapsed : Timed A
  failed : (message : Bytes) → Timed A
  finished : A → Timed A

module _ (K V : Type 0) where
  -- `Cache::builder().max_capacity(c).time_to_live(t).build()`, `get`, `insert` and `invalidate_all`.
  -- The first argument of `get` and `insert` is the time of the call.
  pub record CacheApi : Type 1 where
    pub Store : Type 0
    pub build : (capacity ttl : ℕ) → Store
    pub get : ℕ → K → Store → Option V
    pub insert : ℕ → K → V → Store → Store
    pub invalidate_all : Store → Store

  -- A read gives the last value written for the key, or nothing: entries expire and are evicted.
  pub record IsCache (c : CacheApi) : Type 0 where
    pub get-build : (now capacity ttl : ℕ) (k : K) → c.get now k (c.build capacity ttl) ≡ none
    pub get-insert :
        (now then' : ℕ) (k j : K) (v w : V) (s : c.Store)
        → c.get now j (c.insert then' k v s) ≡ some w
        → ((k ≡ j) × (w ≡ v)) ⊎ ((k ≢ j) × (c.get now j s ≡ some w))
    pub get-invalidate_all :
        (now : ℕ) (k : K) (s : c.Store) → c.get now k (c.invalidate_all s) ≡ none

  -- A concurrent map: `new`, `get`, `insert` and `remove`.
  pub record MapApi : Type 1 where
    pub Map : Type 0
    pub new : Map
    pub get : K → Map → Option V
    pub insert : K → V → Map → Map
    pub remove : K → Map → Map

  pub record IsMap ⦃e : Eq K⦄ (m : MapApi) : Type 0 where
    pub get-new : (k : K) → m.get k m.new ≡ none
    pub get-insert :
        (k j : K) (v : V) (s : m.Map)
        → m.get j (m.insert k v s) ≡ (if e.beq k j then some v else m.get j s)
    pub get-remove :
        (k j : K) (s : m.Map) → m.get j (m.remove k s) ≡ (if e.beq k j then none else m.get j s)

module _ {K V : Type 0} ⦃e : Eq K⦄ where
  -- An association list meets the laws of both; as a cache it never forgets.
  abbrev pub list_map : MapApi K V
  list_map = record { Map = List (K × V); new = []; get = lookup; insert = insert; remove = remove }

  get-new : (k : K) → lookup {V = V} k [] ≡ none
  unfolding lookup
  get-new k = refl

  pub list_map-IsMap : IsMap K V list_map
  list_map-IsMap = record {
    get-new = get-new;
    get-insert = lookup-insert;
    get-remove = lookup-remove;
  }

  abbrev pub list_cache : CacheApi K V
  list_cache = record {
    Store = List (K × V);
    build = λ capacity ttl. [];
    get = λ now k s. lookup k s;
    insert = λ now k v s. insert k v s;
    invalidate_all = λ s. [];
  }

  get-insert :
      (now then' : ℕ) (k j : K) (v w : V) (s : List (K × V))
      → lookup j (insert k v s) ≡ some w
      → ((k ≡ j) × (w ≡ v)) ⊎ ((k ≢ j) × (lookup j s ≡ some w))
  get-insert now then' k j v w s h = ground (arith, lookup-insert k j v s, e.beq_iff k j)

  pub list_cache-IsCache : IsCache K V list_cache
  list_cache-IsCache = record {
    get-build = λ now capacity ttl k. get-new k;
    get-insert = get-insert;
    get-invalidate_all = λ now k s. get-new k;
  }
