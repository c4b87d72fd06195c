-- ===== src/Sockmap/Loader.antt =====
-- `Sockmap` of rust/crates/utopia-proxy/src/sockmap/mod.rs on Linux: the loader that the adapters share.
use protocol_proxy.Prelude.{
  [], none, some, true, false, ok, err, if◌then◌else◌, Bytes, ℕ, Option, Result, Bool, not,
}
use protocol_proxy.Sockmap.Pairs.{BpfApi, Names, Inner}
use protocol_proxy.Sockmap.Pairs
use mathlib.Core.Option

pub record Loader (M : Type 0) : Type 0 where
  pub available : Bool
  pub last_error : Bytes
  pub inner : Option (Inner M)

module _ (B : BpfApi) where
  unfoldable pub new : Loader B.Map
  new = record { available = false; last_error = []; inner = none }

  -- `loaded` is what loading the object gives.
  unfoldable pub load : Result Bytes (Inner B.Map) → Loader B.Map → Bool × Loader B.Map
  load (ok inner) l = (true, record { available = true; last_error = []; inner = some inner })
  load (err e) l = (false, record l { available = false; last_error = e })

  unfoldable pub insert_pair : Names → ℕ → ℕ → Loader B.Map → Bool × Loader B.Map
  insert_pair names accept_fd backend_fd l = if not l.available then (false, l) else elim l.inner [
    | none ↦ (false, l)
    | some inner ↦
        let (done, inner') = Pairs.insert_pair B names accept_fd backend_fd inner in
        (done, record l { inner = some inner' })
  ]

  unfoldable pub remove_pair : ℕ → Loader B.Map → Loader B.Map
  remove_pair accept_fd l = elim l.inner [
    | none ↦ l
    | some inner ↦ record l { inner = some (Pairs.remove_pair B accept_fd inner) }
  ]

  -- The dropped `Inner` leaves the kernel's table as `drop_inner` makes it.
  unfoldable pub close : Loader B.Map → Loader B.Map × Option (Inner B.Map)
  close l = (record l { available = false; inner = none }, Option.map (Pairs.drop_inner B) l.inner)
