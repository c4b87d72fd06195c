-- ===== src/TcpServer/Forwarding.antt =====
-- The relaying of a client's bytes, rust/crates/utopia-proxy/src/server/tcp/server.rs: `forward_serialised`, which
-- relays under the lock of a backend that the adapter keeps.
use mathlib.Core.List.{append_assoc, append-nil}
use protocol_proxy.Prelude.{
  [], ◌∷◌, true, false, ok, err, Bytes, ℕ, Result, Bool, refl, arith, ◌++◌, List, ◌≡◌, take, drop,
  inl, inr, Bool-cases, ◌&&◌, sym, take-append_drop,
}

-- What came of a write: all of it was taken, or an error came after so many bytes.
pub data Write : Type 0 where
  whole : Write
  broken : ℕ → Write

-- What `select!` chose: what reading the one side gives into a buffer of a size, and what came of the write of
-- that to the other. No bytes stand for a closed side.
pub data Turn : Type 0 where
  from_client from_backend : (ℕ → Result Bytes Bytes) → Write → Turn

-- The bytes that each side has taken.
pub record Sides : Type 0 where
  pub to_backend : Bytes
  pub to_client : Bytes

abbrev taken : Write → Bytes → Bytes
taken whole text = text
taken (broken n) text = take n text

abbrev is_whole : Write → Bool
is_whole whole = true
is_whole (broken n) = false

-- Whether the loop goes on, and what the other side takes: nothing where the read fails or its side is closed.
abbrev passed : Result Bytes Bytes → Write → Bool × Bytes
passed (err e) w = (false, [])
passed (ok []) w = (false, [])
passed (ok (c ∷ cs)) w = (is_whole w, taken w (c ∷ cs))

unfoldable pub turn : ℕ → Turn → Sides → Bool × Sides
turn size (from_client read w) s =
    let out = passed (read size) w in (out.0, record s { to_backend = s.to_backend ++ out.1 })
turn size (from_backend read w) s =
    let out = passed (read size) w in (out.0, record s { to_client = s.to_client ++ out.1 })

-- The loop over the turns that happen; it waits where they end.
unfoldable pub forward_serialised : ℕ → List Turn → Sides → Sides
unfolding turn
forward_serialised size [] s = s
forward_serialised size (t ∷ ts) s =
    let out = turn size t s in
    elim out.0 [ true ↦ forward_serialised size ts out.1 | false ↦ out.1 ]

-- The bytes that a read gives, if any.
abbrev given : Result Bytes Bytes → Bytes
given (err e) = []
given (ok text) = text

-- All that the client, and all that the backend, gives in the turns.
abbrev from_clients : ℕ → List Turn → Bytes
from_clients size [] = []
from_clients size (from_client read w ∷ ts) = given (read size) ++ from_clients size ts
from_clients size (from_backend read w ∷ ts) = from_clients size ts

abbrev from_backends : ℕ → List Turn → Bytes
from_backends size [] = []
from_backends size (from_client read w ∷ ts) = from_backends size ts
from_backends size (from_backend read w ∷ ts) = given (read size) ++ from_backends size ts

abbrev IsPrefix : Bytes → Bytes → Type 0
IsPrefix xs ys = (rest : Bytes) × (xs ++ rest ≡ ys)

passed-part : (r : Result Bytes Bytes) (w : Write) → IsPrefix (passed r w).1 (given r)
passed-part (err e) w = ([], refl)
passed-part (ok []) w = ([], refl)
passed-part (ok (c ∷ cs)) whole = ([], append-nil (c ∷ cs))
passed-part (ok (c ∷ cs)) (broken n) = (drop n (c ∷ cs), take-append_drop n (c ∷ cs))

passed-all : (r : Result Bytes Bytes) (w : Write) → (passed r w).0 ≡ true → (passed r w).1 ≡ given r
passed-all (err e) w h = absurd (ground arith)
passed-all (ok []) w h = refl
passed-all (ok (c ∷ cs)) whole h = refl
passed-all (ok (c ∷ cs)) (broken n) h = absurd (ground arith)

appended :
    (a m g rest x : Bytes) → m ≡ g → IsPrefix x ((a ++ m) ++ rest) → IsPrefix x (a ++ (g ++ rest))
appended a m g rest x all (r, e) = (r, rw (← all, ← append_assoc a m rest) e)

stopped : (a m g rest : Bytes) → IsPrefix m g → IsPrefix (a ++ m) (a ++ (g ++ rest))
stopped a m g rest (r, e) =
    (r ++ rest, rw (append_assoc a m (r ++ rest), ← append_assoc m r rest, e) refl)

-- What each side has taken is a beginning of what the other gave.
abbrev pub IsRelayed : ℕ → List Turn → Sides → Sides → Type 0
IsRelayed size ts s t =
    IsPrefix t.to_backend (s.to_backend ++ from_clients size ts)
    × IsPrefix t.to_client (s.to_client ++ from_backends size ts)

-- Whatever the reads and writes give and however they are interleaved: what the loop has written to each side
-- is a beginning of what the other side gave, in order.
pub forward_serialised-IsRelayed :
    (size : ℕ) (ts : List Turn) (s : Sides) → IsRelayed size ts s (forward_serialised size ts s)
unfolding forward_serialised turn
forward_serialised-IsRelayed size [] s = (([], refl), ([], refl))
forward_serialised-IsRelayed size (from_client read w ∷ ts) s =
    let m = passed (read size) w in
    let next = record s { to_backend = s.to_backend ++ m.1 } in
    let (back, front) = forward_serialised-IsRelayed size ts next in
    elim (Bool-cases m.0) [
      | inl on ↦
          rw (on, forward_serialised)
            (
              appended s.to_backend m.1 (given (read size)) (from_clients size ts)
                  (forward_serialised size ts next).to_backend (passed-all (read size) w on) back,
              front,
            )
      | inr off ↦
          rw (off, forward_serialised)
            (
              stopped s.to_backend m.1 (given (read size)) (from_clients size ts)
                  (passed-part (read size) w),
              (from_backends size ts, refl),
            )
    ]
forward_serialised-IsRelayed size (from_backend read w ∷ ts) s =
    let m = passed (read size) w in
    let next = record s { to_client = s.to_client ++ m.1 } in
    let (back, front) = forward_serialised-IsRelayed size ts next in
    elim (Bool-cases m.0) [
      | inl on ↦
          rw (on, forward_serialised)
            (
              back,
              appended s.to_client m.1 (given (read size)) (from_backends size ts)
                  (forward_serialised size ts next).to_client (passed-all (read size) w on) front,
            )
      | inr off ↦
          rw (off, forward_serialised)
            (
              (from_clients size ts, refl),
              stopped s.to_client m.1 (given (read size)) (from_backends size ts)
                  (passed-part (read size) w),
            )
    ]

-- The loop goes on after the turn.
abbrev goes_on : ℕ → Turn → Bool
goes_on size (from_client read w) = (passed (read size) w).0
goes_on size (from_backend read w) = (passed (read size) w).0

abbrev all_go_on : ℕ → List Turn → Bool
all_go_on size [] = true
all_go_on size (t ∷ ts) = goes_on size t && all_go_on size ts

-- While no side is closed and no read or write fails, each side has taken all that the other gave, in order,
-- however the turns are interleaved.
pub forward_serialised-all :
    (size : ℕ) (ts : List Turn) (s : Sides)
    → all_go_on size ts ≡ true
    → ((forward_serialised size ts s).to_backend ≡ s.to_backend ++ from_clients size ts)
      × ((forward_serialised size ts s).to_client ≡ s.to_client ++ from_backends size ts)
unfolding forward_serialised turn
forward_serialised-all size [] s h = (sym (append-nil s.to_backend), sym (append-nil s.to_client))
forward_serialised-all size (from_client read w ∷ ts) s h =
    let m = passed (read size) w in
    let on : m.0 ≡ true = ground arith in
    let next = record s { to_backend = s.to_backend ++ m.1 } in
    let (back, front) = forward_serialised-all size ts next (ground arith) in
    rw (on, forward_serialised)
      (
        rw (← passed-all (read size) w on, ← append_assoc s.to_backend m.1 (from_clients size ts))
            back,
        front,
      )
forward_serialised-all size (from_backend read w ∷ ts) s h =
    let m = passed (read size) w in
    let on : m.0 ≡ true = ground arith in
    let next = record s { to_client = s.to_client ++ m.1 } in
    let (back, front) = forward_serialised-all size ts next (ground arith) in
    rw (on, forward_serialised)
      (
        back,
        rw (← passed-all (read size) w on, ← append_assoc s.to_client m.1 (from_backends size ts))
            front,
      )
