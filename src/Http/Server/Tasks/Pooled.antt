-- ===== src/Http/Server/Tasks/Pooled.antt =====
-- Each pool of a worker, with the requests that use it, as a shared pool (Http.Pool.Shared).
use protocol_proxy.Http.Pool.Shared.Bound.{IsBounded, Reach-IsBounded}
use protocol_proxy.Http.Choice.Confined.{choose_endpoint-pools}
use protocol_proxy.Http.Forward.{Request}
use protocol_proxy.Http.Pool.Shared as Shared
use protocol_proxy.Http.Pool.Shared.{waiting}
use protocol_proxy.Http.Forward.Permits.{pool_key}
use protocol_proxy.Http.Pool.{Pool, get_or_create, new_pool}
use protocol_proxy.Http.Config.{HttpConfig}
use protocol_proxy.Net.{IpAddr}
use protocol_proxy.Adapter.Route.{CacheEntry}
use protocol_proxy.Http.Choice.{Handler}
use protocol_proxy.External.{CacheApi, MapApi, IsMap}
use protocol_proxy.Http.Server.Tasks.{
  Job, arrived, forwarding, pooled, Move, System, handles, responds, refuses, abandons, chooses,
  leaves, joins, works, Step, Reach, arrives, starts, moves, later,
}
use protocol_proxy.Prelude.{
  bytes_eq, [], ◌∷◌, none, some, false, true, ◌++◌, map, Bytes, List, ◌≡◌, ◌⊎◌, inl, inr, refl, sym,
  ◌∙◌, ap, subst, if◌then◌else◌, bytes_beq, bytes_beq_iff, Bool-cases, arith, Option,
}

-- A job's task, where it works with the pool of the key.
abbrev pub used : Bytes → Job → List Shared.Task
used key (arrived request) = []
used key (forwarding request endpoint) = []
used key (pooled k task) = if bytes_beq k key then task ∷ [] else []

abbrev pub users : Bytes → List Job → List Shared.Task
users key [] = []
users key (job ∷ jobs) = used key job ++ users key jobs

append_assoc {ℓ} : {A : Type ℓ} (xs ys zs : List A) → (xs ++ ys) ++ zs ≡ xs ++ (ys ++ zs)
append_assoc [] ys zs = refl
append_assoc (x ∷ xs) ys zs = ap (λ l. x ∷ l) (append_assoc xs ys zs)

users-append :
    (key : Bytes) (xs ys : List Job) → users key (xs ++ ys) ≡ users key xs ++ users key ys
users-append key [] ys = refl
users-append key (job ∷ jobs) ys =
    ap (λ l. used key job ++ l) (users-append key jobs ys)
    ∙ sym (append_assoc (used key job) (users key jobs) (users key ys))

users-pooled-same :
    (key k : Bytes) (ts : List Shared.Task)
    → bytes_beq k key ≡ true
    → users key (map (pooled k) ts) ≡ ts
users-pooled-same key k [] same = refl
users-pooled-same key k (t ∷ ts) same = rw same (ap (λ l. t ∷ l) (users-pooled-same key k ts same))

users-pooled-other :
    (key k : Bytes) (ts : List Shared.Task)
    → bytes_beq k key ≡ false
    → users key (map (pooled k) ts) ≡ []
users-pooled-other key k [] other = refl
users-pooled-other key k (t ∷ ts) other = rw other (users-pooled-other key k ts other)

module _ (C : CacheApi Bytes CacheEntry) (D : CacheApi Bytes IpAddr) (M : MapApi Bytes Pool)
    (map_laws : IsMap Bytes Pool M) (config : HttpConfig) where
  -- What a step of a job is for the pool of a key: nothing, the arrival of a task, or a step of one.
  data View (key : Bytes) (h : Handler C D M) (job : Job) (h' : Handler C D M) (rest : List Job)
      : Type 0 where
    apart :
        M.get key h'.pools ≡ M.get key h.pools
        → used key job ≡ []
        → users key rest ≡ []
        → View key h job h' rest
    enters :
        (p : Pool)
        → (M.get key h.pools ≡ some p)
          ⊎ ((M.get key h.pools ≡ none) × (p ≡ new_pool key config.pool_size))
        → M.get key h'.pools ≡ some p
        → used key job ≡ []
        → users key rest ≡ waiting ∷ []
        → View key h job h' rest
    takes :
        (p q : Pool) (t : Shared.Task) (ts : List Shared.Task)
        → Shared.Move p t q ts
        → M.get key h.pools ≡ some p
        → M.get key h'.pools ≡ some q
        → used key job ≡ t ∷ []
        → users key rest ≡ ts
        → View key h job h' rest

  get-get_or_create :
      (k j : Bytes) (m : M.Map)
      → let out = get_or_create M k config.pool_size m in
        M.get j out.1 ≡ (if bytes_beq k j then some out.0 else M.get j m)
  unfolding get_or_create
  get-get_or_create k j m =
      let fresh = new_pool k config.pool_size in
      ground (arith, map_laws.get-insert k j fresh m, bytes_beq_iff k j)

  get_or_create-cases :
      (k : Bytes) (m : M.Map)
      → let p = (get_or_create M k config.pool_size m).0 in
        (M.get k m ≡ some p) ⊎ ((M.get k m ≡ none) × (p ≡ new_pool k config.pool_size))
  unfolding get_or_create
  get_or_create-cases k m = ground arith

  joins-View :
      (key k : Bytes) (h : Handler C D M) (request : Request) (endpoint : Bytes)
      → View key h
          (forwarding request endpoint)
          (record h { pools = (get_or_create M k config.pool_size h.pools).1 })
          (pooled k waiting ∷ [])
  joins-View key k h request endpoint =
      let out = get_or_create M k config.pool_size h.pools in
      let got = get-get_or_create k key h.pools in
      elim (Bool-cases (bytes_beq k key)) [
        | inr other ↦
            apart (ground (arith, got, other)) refl (users-pooled-other key k (waiting ∷ []) other)
        | inl same ↦
            enters out.0
              (subst
                (λ j.
                  (M.get j h.pools ≡ some out.0)
                  ⊎ ((M.get j h.pools ≡ none) × (out.0 ≡ new_pool j config.pool_size)))
                ((bytes_beq_iff k key).0 same) (get_or_create-cases k h.pools))
              (ground (arith, got, same)) refl (users-pooled-same key k (waiting ∷ []) same)
      ]

  works-View :
      (key k : Bytes) (h : Handler C D M) (p q : Pool) (t : Shared.Task) (ts : List Shared.Task)
      → M.get k h.pools ≡ some p
      → Shared.Move p t q ts
      → View key h (pooled k t) (record h { pools = M.insert k q h.pools }) (map (pooled k) ts)
  works-View key k h p q t ts found move =
      let written = map_laws.get-insert k key q h.pools in
      elim (Bool-cases (bytes_beq k key)) [
        | inr other ↦
            apart (ground (arith, written, other)) (rw other refl)
              (users-pooled-other key k ts other)
        | inl same ↦
            let e : k ≡ key = (bytes_beq_iff k key).0 same in
            takes p q t ts move (rw (sym e) found) (ground (arith, written, same)) (rw same refl)
              (users-pooled-same key k ts same)
      ]

  Move-View :
      (key : Bytes) (h h' : Handler C D M) (job : Job) (rest : List Job)
      → Move C D M config h job h' rest
      → View key h job h' rest
  Move-View key h h' job rest (handles handler e) = apart refl refl refl
  Move-View key h h' job rest (responds body free e) = apart refl refl refl
  Move-View key h h' job rest (abandons dns) = apart refl refl refl
  Move-View key h h' job rest (refuses {request} env response free none_given e) =
      apart (ap (M.get key) (choose_endpoint-pools C D M config env request h)) refl refl
  Move-View key h h' job rest (chooses {request} env endpoint free none_given e) =
      apart (ap (M.get key) (choose_endpoint-pools C D M config env request h)) refl refl
  Move-View key h h' job rest (leaves raw) = apart refl refl refl
  Move-View key h h' job rest (joins {request} {endpoint} kept) =
      joins-View key (pool_key endpoint) h request endpoint
  Move-View key h h' job rest (works {key = k} {p} {q} {t} {rest = ts} found move) =
      works-View key k h p q t ts found move

  -- A pool that is not there has no tasks, and one that is there is what its tasks reach as a shared pool.
  abbrev pub IsSharedAt : Bytes → Option Pool → List Shared.Task → Type 0
  IsSharedAt key o ts =
      ((o ≡ none) × (ts ≡ []))
      ⊎ ((p : Pool) × (o ≡ some p)
          × Shared.Reach key config.pool_size (record { pool = p; tasks = ts }))

  abbrev pub IsShared : Bytes → System C D M config → Type 0
  IsShared key s = IsSharedAt key (M.get key s.handler.pools) (users key s.jobs)

  entered :
      (key : Bytes) (o : Option Pool) (before after : List Shared.Task) (p : Pool)
      → (o ≡ some p) ⊎ ((o ≡ none) × (p ≡ new_pool key config.pool_size))
      → IsSharedAt key o (before ++ after)
      → Shared.Reach key config.pool_size (record { pool = p; tasks = before ++ waiting ∷ after })
  entered key o before after p (inr (missing, fresh)) (inl (none_there, empty)) =
      subst
        (λ q.
          Shared.Reach key config.pool_size
            (record { pool = q; tasks = before ++ waiting ∷ after }))
        (sym fresh) (Shared.later Shared.starts (Shared.arrives before after (sym empty)))
  entered key o before after p (inl found) (inl (none_there, empty)) = absurd (ground arith)
  entered key o before after p (inr (missing, fresh)) (inr (q, found, r)) = absurd (ground arith)
  entered key o before after p (inl found) (inr (q, found', r)) =
      let same : q ≡ p = ground arith in
      subst
        (λ q.
          Shared.Reach key config.pool_size
            (record { pool = q; tasks = before ++ waiting ∷ after }))
        same (Shared.later r (Shared.arrives before after refl))

  taken :
      (key : Bytes) (o : Option Pool) (before after ts : List Shared.Task) (t : Shared.Task)
      (p q : Pool)
      → Shared.Move p t q ts
      → o ≡ some p
      → IsSharedAt key o (before ++ t ∷ after)
      → Shared.Reach key config.pool_size (record { pool = q; tasks = before ++ (ts ++ after) })
  taken key o before after ts t p q move found (inl (missing, empty)) = absurd (ground arith)
  taken key o before after ts t p q move found (inr (p', found', r)) =
      let same : p' ≡ p = ground arith in
      let r' : Shared.Reach key config.pool_size
          (record { pool = p; tasks = before ++ t ∷ after }) =
        subst
          (λ p'.
            Shared.Reach key config.pool_size (record { pool = p'; tasks = before ++ t ∷ after }))
          same r in
      Shared.later r' (Shared.moves before after ts refl move)

  viewed :
      (key : Bytes) (before after : List Shared.Task) (h h' : Handler C D M) (job : Job)
      (rest : List Job)
      → View key h job h' rest
      → IsSharedAt key (M.get key h.pools) (before ++ (used key job ++ after))
      → IsSharedAt key (M.get key h'.pools) (before ++ (users key rest ++ after))
  viewed key before after h h' job rest (apart same off left) c =
      let c' : IsSharedAt key (M.get key h.pools) (before ++ after) = rw off at c in
      rw (left, same) c'
  viewed key before after h h' job rest (enters p from found off left) c =
      let c' : IsSharedAt key (M.get key h.pools) (before ++ after) = rw off at c in
      inr (p, found, rw left (entered key (M.get key h.pools) before after p from c'))
  viewed key before after h h' job rest (takes p q t ts move from found on left) c =
      let c' : IsSharedAt key (M.get key h.pools) (before ++ t ∷ after) = rw on at c in
      inr (q, found, rw left (taken key (M.get key h.pools) before after ts t p q move from c'))

  Step-IsShared :
      (key : Bytes) {s t : System C D M config}
      → Step C D M config s t
      → IsShared key s
      → IsShared key t
  Step-IsShared key (arrives request) c = c
  Step-IsShared key {s} (moves before after rest {job} {h} at move) c =
      let b = users key before in
      let a = users key after in
      let was : users key s.jobs ≡ b ++ (used key job ++ a) =
        ap (users key) at ∙ users-append key before (job ∷ after) in
      let is : users key (before ++ (rest ++ after)) ≡ b ++ (users key rest ++ a) =
        users-append key before (rest ++ after) ∙ ap (λ l. b ++ l) (users-append key rest after) in
      subst (IsSharedAt key (M.get key h.pools)) (sym is) (
        viewed key b a s.handler h job rest (Move-View key s.handler h job rest move)
          (subst (IsSharedAt key (M.get key s.handler.pools)) was c))

  -- However the requests of a worker interleave: a pool that is in the registry is, with the requests that use it, in a state
  -- that a shared pool of its key and of the size of the settings reaches, and one that is not there is used by none.
  pub Reach-IsShared :
      (key : Bytes) {start : Handler C D M} {s : System C D M config}
      → Reach C D M config start s
      → IsShared key s
  Reach-IsShared key {start} (starts fresh) =
      inl (ap (M.get key) fresh ∙ map_laws.get-new key, refl)
  Reach-IsShared key (later r step) = Step-IsShared key step (Reach-IsShared key r)

  -- However the requests of a worker interleave, and whatever else it does: the free permits of a pool and those of the
  -- requests that use it are the size of the settings together, and its idle clients and those that requests with
  -- a permit have or dial are at most so many.
  pub Reach-pool_size :
      (key : Bytes) {start : Handler C D M} {s : System C D M config} (p : Pool)
      → Reach C D M config start s
      → M.get key s.handler.pools ≡ some p
      → IsBounded config.pool_size (record { pool = p; tasks = users key s.jobs })
  Reach-pool_size key {start} {s} p r found = elim (Reach-IsShared key r) [
    | inl (missing, empty) ↦ absurd (ground arith)
    | inr (q, found', shared) ↦
        let same : q ≡ p = ground arith in
        subst (λ q. IsBounded config.pool_size (record { pool = q; tasks = users key s.jobs })) same
          (Reach-IsBounded shared)
  ]
