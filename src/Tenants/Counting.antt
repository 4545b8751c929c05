-- ===== src/Tenants/Counting.antt =====
-- The organization manager's books: its tenants, their number and their sessions.
use isched.Common.{
  ℕ, ◌%◌, ◌^◌, ◌≤◌, ◌≡◌, refl, Bool, true, Text, text_eq, text_beq_iff, length, is_some, lookup,
  lookup-insert, lookup-erase, length-insert, is_keyed, is_keyed-insert, is_keyed-erase,
  length-erase, arith, Option-cases, inl, inr,
}
use isched.Tenants.{
  Configuration, OrgManager, start, stop, create_tenant, remove_tenant, touched, opened,
  get_tenant_session, on_subscription_start, on_subscription_end, Step, starts_up, stops, creates,
  removes, gets, subscribes, unsubscribes, Reachable, starts, steps,
}

module _ {T : Type 0} where
  -- The tenants are no more than the configuration allows, each stands once, the counter is their
  -- number, and each session is a tenant's.
  abbrev pub IsConsistent : Configuration → OrgManager T → Type 0
  IsConsistent c m =
      (m.config ≡ c)
      × (is_keyed m.tenants ≡ true)
      × (length m.tenants ≤ c.max_tenants)
      × (m.active_tenants ≡ length m.tenants % 2 ^ 64)
      × ((id : Text)
          → is_some (lookup id m.active_sessions) ≡ true
          → is_some (lookup id m.tenants) ≡ true)

  start-IsConsistent :
      (c : Configuration) (initialized : Bool) (m : OrgManager T)
      → IsConsistent c m
      → IsConsistent c (start initialized m).1
  unfolding start
  start-IsConsistent c initialized m (e, k, l, a, s) =
      (ground arith, ground arith, ground arith, ground arith, λ id. ground (arith, s id))

  stop-IsConsistent :
      (c : Configuration) (m : OrgManager T) → IsConsistent c m → IsConsistent c (stop m).1
  unfolding stop lookup
  stop-IsConsistent c m (e, k, l, a, s) =
      (ground arith, ground arith, ground arith, ground arith, λ id. ground (arith, s id))

  create_tenant-IsConsistent :
      (c : Configuration) (initialized : Bool) (id : Text) (stored : T) (m : OrgManager T)
      → IsConsistent c m
      → IsConsistent c (create_tenant initialized id stored m).1
  unfolding create_tenant
  create_tenant-IsConsistent c initialized id stored m (e, k, l, a, s) =
      let n = length-insert id stored m.tenants in
      (
        ground arith,
        ground (arith, is_keyed-insert id stored m.tenants),
        ground (arith, n),
        ground (arith, n),
        λ q. ground (arith, s q, lookup-insert id q stored m.tenants),
      )

  remove_tenant-IsConsistent :
      (c : Configuration) (id : Text) (m : OrgManager T)
      → IsConsistent c m
      → IsConsistent c (remove_tenant id m).1
  unfolding remove_tenant
  remove_tenant-IsConsistent c id m (e, k, l, a, s) =
      let n = length-erase id m.tenants k in
      (
        ground arith,
        ground (arith, is_keyed-erase id m.tenants),
        ground (arith, n),
        ground (arith, n),
        λ q. ground (arith, s q, lookup-erase id q m.tenants, lookup-erase id q m.active_sessions),
      )

  get_tenant_session-IsConsistent :
      (c : Configuration) (now : ℕ) (id : Text) (m : OrgManager T)
      → IsConsistent c m
      → IsConsistent c (get_tenant_session now id m).1
  unfolding get_tenant_session
  get_tenant_session-IsConsistent c now id m (e, k, l, a, s) =
      elim (Option-cases (lookup id m.active_sessions)) [
        | inl f ↦ (
          ground (arith, f),
          ground (arith, f),
          ground (arith, f),
          ground (arith, f),
          λ q.
              ground (
                arith,
                f,
                s q,
                lookup-insert id q (opened now) m.active_sessions,
                text_beq_iff id q,
              ),
        )
        | inr (t, f) ↦ (
          ground (arith, f),
          ground (arith, f),
          ground (arith, f),
          ground (arith, f),
          λ q. ground (
            arith,
            f,
            s q,
            lookup-insert id q (touched now t) m.active_sessions,
            text_beq_iff id q,
          ),
        )
      ]

  subscription-IsConsistent :
      (c : Configuration) (m : OrgManager T)
      → IsConsistent c m
      → IsConsistent c (on_subscription_end m)
  unfolding on_subscription_end
  subscription-IsConsistent c m (e, k, l, a, s) =
      (ground arith, ground arith, ground arith, ground arith, λ id. ground (arith, s id))

  Step-IsConsistent :
      (c : Configuration) (m n : OrgManager T) → Step m n → IsConsistent c m → IsConsistent c n
  unfolding on_subscription_start
  Step-IsConsistent c _ _ (starts_up i m) h = start-IsConsistent c i m h
  Step-IsConsistent c _ _ (stops m) h = stop-IsConsistent c m h
  Step-IsConsistent c _ _ (creates i id stored m) h = create_tenant-IsConsistent c i id stored m h
  Step-IsConsistent c _ _ (removes id m) h = remove_tenant-IsConsistent c id m h
  Step-IsConsistent c _ _ (gets now id m) h = get_tenant_session-IsConsistent c now id m h
  Step-IsConsistent c _ _ (subscribes m) h = h
  Step-IsConsistent c _ _ (unsubscribes m) h = subscription-IsConsistent c m h

  -- Whatever is done to a manager, its tenants stay within the configured maximum, each stands once,
  -- the reported number of tenants is right, and no session outlives its tenant.
  pub OrgManager-IsConsistent :
      (c : Configuration) (m : OrgManager T) → Reachable c m → IsConsistent c m
  unfolding lookup
  OrgManager-IsConsistent c _ starts = (refl, refl, ground arith, refl, λ id. ground arith)
  OrgManager-IsConsistent c _ (steps m n before step) =
      Step-IsConsistent c m n step (OrgManager-IsConsistent c m before)
