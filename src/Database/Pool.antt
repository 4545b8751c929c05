-- ===== src/Database/Pool.antt =====
-- backend/isched_DatabaseManager.cpp: `ConnectionPool`. The pool is locked while it is looked at, so an
-- operation is a step. Opening a database is SQLite's: its answer is an argument.
pub mod Bounds
use isched.Common.{
  ℕ, suc, ◌+◌, ◌-◌, ◌%◌, ◌^◌, ◌≡◌, Bool, true, false, not, ◌||◌, List, [], ◌∷◌, ◌++◌, Option, none,
  some, if◌then◌else◌, ltb, length, is_empty,
}

pub record Pool (S : Type 0) : Type 0 where
  pub max_connections : ℕ
  pub active_connections : ℕ
  pub available_connections : List S
  pub total_created : ℕ
  pub total_requests : ℕ
  pub pool_hits : ℕ

pub data AcquireError : Type 0 where
  pool_exhausted connection_failed : AcquireError

pub data Acquired (S : Type 0) : Type 0 where
  acquired : S → Acquired S
  failed : AcquireError → Acquired S

abbrev pub next64 : ℕ → ℕ
next64 n = (n + 1) % 2 ^ 64

module _ {S : Type 0} where
  abbrev pub new_pool : ℕ → Pool S
  new_pool n = record {
    max_connections = n;
    active_connections = 0;
    available_connections = [];
    total_created = 0;
    total_requests = 0;
    pool_hits = 0;
  }

  -- The condition of the wait.
  unfoldable pub is_ready : Pool S → Bool
  is_ready p = not (is_empty p.available_connections) || ltb p.active_connections p.max_connections

  abbrev pub reuse : S → List S → Pool S → Acquired S × Pool S
  reuse c cs p = (
    acquired c,
    record p {
      available_connections = cs;
      pool_hits = next64 p.pool_hits;
      active_connections = next64 p.active_connections;
    },
  )

  abbrev pub create : Option S → Pool S → Acquired S × Pool S
  create none p = (failed connection_failed, p)
  create (some c) p = (
    acquired c,
    record p {
      total_created = next64 p.total_created;
      active_connections = next64 p.active_connections;
    },
  )

  abbrev pub take_or_create : List S → Option S → Pool S → Acquired S × Pool S
  take_or_create [] opened p = create opened p
  take_or_create (c ∷ cs) opened p = reuse c cs p

  -- `acquire` from the end of the wait on; a wait that ends with no connection free is a timeout.
  unfoldable pub acquire : Option S → Pool S → Acquired S × Pool S
  acquire opened p =
      let p' = record p { total_requests = next64 p.total_requests } in
      if is_ready p
      then take_or_create p.available_connections opened p'
      else (failed pool_exhausted, p')

  unfoldable pub return_connection : S → Pool S → Pool S
  return_connection c p = record p {
    active_connections = p.active_connections - 1;
    available_connections =
        if ltb (length p.available_connections) p.max_connections
        then p.available_connections ++ (c ∷ [])
        else p.available_connections;
  }

-- The pool with the connections that callers hold.
pub record Leases (S : Type 0) : Type 0 where
  pub pool : Pool S
  pub held : List S

module _ {S : Type 0} where
  abbrev pub lease : Acquired S × Pool S → List S → Leases S
  lease (acquired c, p) held = record { pool = p; held = c ∷ held }
  lease (failed e, p) held = record { pool = p; held = held }

-- A caller acquires, or destroys one of the connections that it holds.
pub data Step {S : Type 0} : Leases S → Leases S → Type 0 where
  acquires : (opened : Option S) (l : Leases S) → Step l (lease (acquire opened l.pool) l.held)
  returns :
      (before after : List S) (c : S) (p : Pool S)
      → Step
          (record { pool = p; held = before ++ (c ∷ after) })
          (record { pool = return_connection c p; held = before ++ after })

pub data Reachable {S : Type 0} (n : ℕ) : Leases S → Type 0 where
  starts : Reachable n (record { pool = new_pool n; held = [] })
  steps : (l m : Leases S) → Reachable n l → Step l m → Reachable n m
