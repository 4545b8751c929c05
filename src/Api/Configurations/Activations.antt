-- ===== src/Api/Configurations/Activations.antt =====
-- backend/isched_GqlExecutor.cpp: what the resolvers of configurations leave active.
use isched.Common.{
  ℕ, ◌≡◌, refl, Bool, true, false, ◌&&◌, ◌||◌, List, [], ◌∷◌, Option, none, some, Text, codes,
  text_eq, nat_eq, text_beq_iff, is_some, arith, Option-cases, Bool-cases, inl, inr, ap, sym, ◌∙◌,
}
use isched.Gql.Json.{Json, text, get_key}
use isched.Database.Answers.{DatabaseResult, failed, value, Void, done, Statement}
use isched.Database.Tables.{first, matches, first-append, first-counted}
use isched.Database.Snapshots.{
  ConfigurationSnapshot, SnapshotRow, SnapshotStore, Insertion, ActivationAnswers, has_id,
  is_active_for, visible, row_of, row_to_snapshot, activate, save_config_snapshot,
  activate_config_snapshot, get_config_snapshot, get_active_config_snapshot,
}
use isched.Database.Snapshots.Activation.{
  Operation, perform_all, new_store, activate_config_snapshot-exclusive,
}
use isched.Api.Replies.{succeeded, Effects, get_text, value_or, is_object}
use isched.Api.Configurations.{
  apply_configuration, apply_new, save_new, new_snapshot, announce, conclude, found_snapshot,
  activate_snapshot, after_check,
}

-- A snapshot that is saved as not active leaves what is active.
saved-active :
    (insertion : Insertion) (selection : Statement) (snap : ConfigurationSnapshot)
    (s : SnapshotStore) (t : Text)
    → snap.is_active ≡ false
    → insertion.ends_transaction && is_some s.pending ≡ false
    → get_active_config_snapshot selection t (save_config_snapshot insertion snap s).1
      ≡ get_active_config_snapshot selection t s
unfolding get_active_config_snapshot save_config_snapshot row_of first
saved-active insertion selection snap s t h k = elim (Option-cases s.pending) [
  | inl e ↦ ground (
    arith,
    h,
    e,
    k,
    first-append (is_active_for t) s.saved (row_of snap ∷ []),
    Option-cases (first (is_active_for t) s.saved),
  )
  | inr (rows, e) ↦ ground (
    arith,
    h,
    e,
    k,
    first-append (is_active_for t) rows (row_of snap ∷ []),
    Option-cases (first (is_active_for t) rows),
  )
]

save_new-store :
    (insertion : Insertion) (snap : ConfigurationSnapshot) (s : SnapshotStore)
    → (save_new insertion (some snap) s).1 ≡ (save_config_snapshot insertion snap s).1
unfolding save_new
save_new-store insertion snap s = ground arith

module _ {N : Type 0} (dump : Json N → Text) where
  save_new-active :
      (insertion : Insertion) (selection : Statement) (now : ℕ) (id tenant sdl t : Text)
      (input : Json N) (s : SnapshotStore)
      → insertion.ends_transaction && is_some s.pending ≡ false
      → get_active_config_snapshot selection t
          (save_new insertion (new_snapshot dump now id tenant sdl input) s).1
        ≡ get_active_config_snapshot selection t s
  unfolding save_new new_snapshot
  save_new-active insertion selection now id tenant sdl t input s k =
      elim (Option-cases (value_or (codes "version") (codes "1.0.0") input)) [
        | inl e ↦ rw (e, save_new, new_snapshot) refl
        | inr (version, e) ↦
            rw (e, save_new, new_snapshot)
              (elim (Option-cases (value_or (codes "displayName") [] input)) [
                | inl f ↦ rw (f, save_new, new_snapshot) refl
                | inr (display_name, f) ↦
                    rw (f, save_new, new_snapshot)
                      (ap (get_active_config_snapshot selection t) (save_new-store insertion _ s)
                        ∙ saved-active insertion selection _ s t refl k)
              ])
      ]

  after_check-active :
      (selection reading : Statement) (ends : Bool) (t : Text) (expected : Option (Json N))
      (s : SnapshotStore)
      → ends && is_some s.pending ≡ false
      → get_active_config_snapshot reading t (after_check selection ends expected s)
        ≡ get_active_config_snapshot reading t s
  unfolding get_active_config_snapshot after_check
  after_check-active selection reading ends t none s k = refl
  after_check-active selection reading ends t (some (text expected)) s k =
      elim (Option-cases s.pending) [
        | inl e ↦ ground (arith, e, k)
        | inr (rows, e) ↦ ground (arith, e, k)
      ]
  after_check-active selection reading ends t (some _) s k = refl

  apply_new-active :
      (parses : Text → Bool) (selection reading : Statement) (ends : Bool) (insertion : Insertion)
      (now : ℕ) (id tenant sdl t : Text) (input : Json N) (s : SnapshotStore)
      → (ends || insertion.ends_transaction) && is_some s.pending ≡ false
      → get_active_config_snapshot reading t
          (apply_new parses dump selection ends insertion now id tenant sdl input s).1
        ≡ get_active_config_snapshot reading t s
  unfolding apply_new
  apply_new-active parses selection reading ends insertion now id tenant sdl t input s k = ground (
    arith,
    save_new-active insertion reading now id tenant sdl t input s (ground (arith, k)),
    after_check-active selection reading ends t (get_key (codes "expectedVersion") input) s
        (ground (arith, k)),
  )

  -- Whatever a new configuration is asked to be, and however SQLite answers, applying it leaves the
  -- active configuration of every tenant as it was, provided that no failing statement of it makes
  -- SQLite roll an open transaction back.
  pub apply_configuration-active :
      (parses : Text → Bool) (has_database : Bool) (selection reading : Statement) (ends : Bool)
      (insertion : Insertion) (now : ℕ) (id t : Text) (args : Json N) (s : SnapshotStore)
      → (ends || insertion.ends_transaction) && is_some s.pending ≡ false
      → get_active_config_snapshot reading t
          (apply_configuration parses dump has_database selection ends insertion now id args s).1
        ≡ get_active_config_snapshot reading t s
  unfolding apply_configuration
  apply_configuration-active parses false selection reading ends insertion now id t args s o = refl
  apply_configuration-active parses true selection reading ends insertion now id t args s o =
      elim (Option-cases (get_key (codes "input") args)) [
        | inl e ↦ rw (e, apply_configuration) refl
        | inr (input, e) ↦
            rw (e, apply_configuration)
              (elim (Bool-cases (is_object input)) [
                | inr f ↦ rw (f, apply_configuration) refl
                | inl f ↦
                    rw (f, apply_configuration)
                      (elim (Option-cases (get_text (codes "tenantId") input)) [
                        | inl g ↦ rw (g, apply_configuration) refl
                        | inr (tenant, g) ↦
                            rw (g, apply_configuration)
                              (elim (Option-cases (get_text (codes "schemaSdl") input)) [
                                | inl k ↦ rw (k, apply_configuration) refl
                                | inr (sdl, k) ↦
                                    rw (k, apply_configuration)
                                      (apply_new-active parses selection reading ends insertion now
                                        id tenant sdl t input s o)
                              ])
                      ])
              ])
      ]

-- The one row that is counted is the one found, if it matches.
only_match :
    (p q : SnapshotRow → Bool) (rows : List SnapshotRow) (r : SnapshotRow)
    → matches p rows ≡ 1
    → first q rows ≡ some r
    → p r ≡ true
    → first p rows ≡ some r
unfolding matches first
only_match p q [] r h e f = cc
only_match p q (x ∷ rows) r h e f =
    ground (arith, h, e, f, only_match p q rows r, first-counted q p rows r)

module _ {N : Type 0} (parse : Text → Option (Json N)) where
  announce-store :
      (has_broker : Bool) (id : Text) (snap : ConfigurationSnapshot) (s : SnapshotStore)
      → (announce parse has_broker id snap s).1.store ≡ s
  unfolding announce
  announce-store has_broker id snap s = ground arith

  conclude-done :
      (has_broker : Bool) (id : Text) (snap : ConfigurationSnapshot)
      (answer : DatabaseResult Void × SnapshotStore) (fx : Effects)
      → conclude parse has_broker id snap answer ≡ (succeeded id, fx)
      → answer ≡ (value done, fx.store)
  unfolding conclude
  conclude-done has_broker id snap (failed e, s) fx h = cc
  conclude-done has_broker id snap (value done, s) fx h =
      ap (λ x. (value done, x)) (sym (announce-store has_broker id snap s) ∙ ap (λ x. x.1.store) h)

  -- What an activation that replies with success has done.
  activate_snapshot-done :
      (has_broker : Bool) (selection : Statement) (ends : Bool) (sqlite : ActivationAnswers)
      (now : ℕ) (id : Text) (args : Json N) (s : SnapshotStore) (fx : Effects)
      → get_text (codes "id") args ≡ some id
      → activate_snapshot parse true has_broker selection ends sqlite now args s
        ≡ (succeeded id, fx)
      → activate_config_snapshot sqlite now id s ≡ (value done, fx.store)
  unfolding activate_snapshot
  activate_snapshot-done has_broker selection ends sqlite now id args s fx h e =
      elim (Option-cases (found_snapshot (get_config_snapshot selection id s))) [
        | inl f ↦ let e' = rw (h, f, activate_snapshot) at e in cc
        | inr (snap, f) ↦
            conclude-done has_broker id snap (activate_config_snapshot sqlite now id s) fx
              (rw (h, f, activate_snapshot) at e)
      ]

  -- After any saves and activations: once the resolver replies that it has activated a snapshot, that
  -- snapshot is the one that the tenant's active configuration is read from.
  pub activate_snapshot-active :
      (ops : List Operation) (has_broker ends : Bool) (selection reading : Statement)
      (sqlite : ActivationAnswers) (now : ℕ) (id : Text) (args : Json N) (fx : Effects)
      (r : SnapshotRow)
      → get_text (codes "id") args ≡ some id
      → activate_snapshot parse true has_broker selection ends sqlite now args
          (perform_all ops new_store)
        ≡ (succeeded id, fx)
      → first (has_id id) (visible (perform_all ops new_store)) ≡ some r
      → fx.store.ready && reading.prepares && reading.steps ≡ true
      → get_active_config_snapshot reading r.tenant_id fx.store
        ≡ value (some (row_to_snapshot (activate now r)))
  unfolding get_active_config_snapshot
  activate_snapshot-active ops has_broker ends selection reading sqlite now id args fx r h e f g =
      let ran =
        activate_snapshot-done has_broker selection ends sqlite now id args
          (perform_all ops new_store) fx h e in
      let (there, counted) =
        activate_config_snapshot-exclusive ops sqlite now id r.tenant_id fx.store r ran f in
      let own = (text_beq_iff r.tenant_id r.tenant_id).1 refl in
      let one =
        only_match (is_active_for r.tenant_id) (has_id id) (visible fx.store) (activate now r)
          (rw own at counted) there (ground (arith, own)) in
      ground (arith, g, one)
