-- ===== src/Database/Pool/Bounds.antt =====
-- The pool never opens more connections than it may, and loses none.
use isched.Common.{
  ℕ, ◌+◌, ◌^◌, ◌≤◌, ◌<◌, ◌≡◌, refl, List, [], ◌∷◌, ◌++◌, Option, length, length-append, arith,
}
use isched.Database.Pool.{
  Pool, next64, is_ready, acquired, acquire, return_connection, Leases, lease, acquires, returns,
  Reachable, starts, steps,
}

next64_lem : (n k : ℕ) → n < 2 ^ 64 → k < n → next64 k ≡ k + 1
next64_lem n k h i = omega arith

module _ {S : Type 0} where
  -- The pool counts the connections that are held; those and the idle ones are all that it ever
  -- opened, and no more than its limit.
  abbrev pub IsBounded : ℕ → Leases S → Type 0
  IsBounded n l =
      (l.pool.max_connections ≡ n)
      × (l.pool.active_connections ≡ length l.held)
      × (l.pool.active_connections + length l.pool.available_connections ≤ n)
      × (l.pool.total_created ≡ l.pool.active_connections + length l.pool.available_connections)

  acquire-IsBounded :
      (n : ℕ) (opened : Option S) (p : Pool S) (held : List S)
      → n < 2 ^ 64
      → IsBounded n (record { pool = p; held = held })
      → IsBounded n (lease (acquire opened p) held)
  unfolding acquire is_ready
  acquire-IsBounded n opened p held h (m, a, b, t) =
      let u = next64_lem n p.active_connections h in
      let v = next64_lem n p.total_created h in
      (ground (arith, u, v), ground (arith, u, v), ground (arith, u, v), ground (arith, u, v))

  return-IsBounded :
      (n : ℕ) (before after : List S) (c : S) (p : Pool S)
      → IsBounded n (record { pool = p; held = before ++ (c ∷ after) })
      → IsBounded n (record { pool = return_connection c p; held = before ++ after })
  unfolding return_connection
  return-IsBounded n before after c p (m, a, b, t) =
      let l = length-append before (c ∷ after) in
      let l' = length-append before after in
      let k = length-append p.available_connections (c ∷ []) in
      (m, ground (arith, l, l'), ground (arith, l, l', k), ground (arith, l, l', k))

  -- However connections are acquired and given back, a pool below 2 ^ 64 connections counts the ones
  -- that are held, all that it opened are held or idle, and there are never more than its limit.
  pub Pool-IsBounded : (n : ℕ) (l : Leases S) → n < 2 ^ 64 → Reachable n l → IsBounded n l
  Pool-IsBounded n _ h starts = (refl, refl, omega arith, refl)
  Pool-IsBounded n _ h (steps l _ before (acquires opened _)) =
      acquire-IsBounded n opened l.pool l.held h (Pool-IsBounded n l h before)
  Pool-IsBounded n _ h (steps _ _ earlier (returns before after c p)) =
      return-IsBounded n before after c p (Pool-IsBounded n _ h earlier)

  snoc_cons : (xs : List S) (x : S) → (d : S) × (ds : List S) × (xs ++ (x ∷ []) ≡ d ∷ ds)
  snoc_cons [] x = (x, [], refl)
  snoc_cons (y ∷ xs) x = (y, xs ++ (x ∷ []), refl)

  -- When a connection is given back to a pool with a limit below 2 ^ 64, however it came to its state, the
  -- next acquisition gets one, also if no database can be opened.
  pub acquire-return_connection :
      (n : ℕ) (before after : List S) (c : S) (p : Pool S) (opened : Option S)
      → n < 2 ^ 64
      → Reachable n (record { pool = p; held = before ++ (c ∷ after) })
      → (d : S) × ((acquire opened (return_connection c p)).0 ≡ acquired d)
  unfolding acquire is_ready return_connection
  acquire-return_connection n before after c p opened h r =
      let (m, a, b, t) = Pool-IsBounded n (record { pool = p; held = before ++ (c ∷ after) }) h r in
      let (d, ds, e) = snoc_cons p.available_connections c in
      (d, ground (arith, m, a, b, e, length-append before (c ∷ after)))
