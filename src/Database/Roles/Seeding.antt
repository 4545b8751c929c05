-- ===== src/Database/Roles/Seeding.antt =====
-- backend/isched_DatabaseManager.cpp: what becomes of the built-in roles.
use isched.Common.{
  ◌≡◌, refl, Bool, true, false, List, [], ◌∷◌, ◌++◌, Text, text_eq, text_beq, text_beq_iff, is_some,
  contains, arith, Bool-cases, inl, inr, sym, ◌∙◌,
}
use isched.Database.Answers.{value, done, Statement}
use isched.Database.Tables.{first, update, delete, first-append, first-update, first-delete}
use isched.Database.Roles.{
  PlatformRoleRecord, RoleStore, Opening, has_id, built_in_roles, insert_or_ignore, insert_all,
  seed, seed_row, seed_rows, is_misplaced, to_tenant_scope, ensure_system_db, create_platform_role,
  delete_platform_role,
}

pub data Operation : Type 0 where
  opens : Opening → Text → Operation
  creates : Statement → Text → Text → Text → Text → Text → Operation
  deletes : Statement → Statement → Text → Operation

unfoldable pub perform : Operation → RoleStore → RoleStore
perform (opens o now) s = (ensure_system_db o now s).1
perform (creates insertion now id name description scope) s =
    (create_platform_role insertion now id name description scope s).1
perform (deletes check deletion id) s = (delete_platform_role check deletion id s).1

-- The operations, the last one first.
unfoldable pub perform_all : List Operation → RoleStore → RoleStore
perform_all [] s = s
perform_all (op ∷ earlier) s = perform op (perform_all earlier s)

abbrev pub new_file : RoleStore
new_file = record { ready = false; roles = [] }

abbrev pub is_stored : Text → List PlatformRoleRecord → Bool
is_stored key rows = is_some (first (has_id key) rows)

is_stored-append :
    (key : Text) (rs ss : List PlatformRoleRecord)
    → is_stored key rs ≡ true
    → is_stored key (rs ++ ss) ≡ true
is_stored-append key rs ss h = ground (arith, h, first-append (has_id key) rs ss)

is_stored-insert_all :
    (key : Text) (rs rows : List PlatformRoleRecord)
    → is_stored key rows ≡ true
    → is_stored key (insert_all rs rows) ≡ true
unfolding insert_all insert_or_ignore
is_stored-insert_all key [] rows h = h
is_stored-insert_all key (r ∷ rs) rows h =
    is_stored-insert_all key rs (insert_or_ignore r rows)
      (ground (arith, h, is_stored-append key rows (r ∷ [])))

is_stored-update :
    (key : Text) (rows : List PlatformRoleRecord)
    → is_stored key (update is_misplaced to_tenant_scope rows) ≡ is_stored key rows
is_stored-update key rows =
    ground (arith, first-update (has_id key) is_misplaced to_tenant_scope rows (λ r. refl))

is_stored-seed :
    (o : Opening) (now key : Text) (rows : List PlatformRoleRecord)
    → is_stored key rows ≡ true
    → is_stored key (seed o now rows) ≡ true
unfolding seed
is_stored-seed o now key rows h = ground (
  arith,
  is_stored-insert_all key (seed_rows now) rows h,
  is_stored-update key (insert_all (seed_rows now) rows),
)

abbrev ids_of : List PlatformRoleRecord → List Text
ids_of [] = []
ids_of (r ∷ rs) = r.id ∷ ids_of rs

is_stored-contains :
    (key : Text) (rows : List PlatformRoleRecord) → is_stored key rows ≡ contains (ids_of rows) key
unfolding first
is_stored-contains key [] = refl
is_stored-contains key (r ∷ rows) = ground (arith, is_stored-contains key rows)

-- A new file gets all four roles.
is_stored-new :
    (now key : Text)
    → contains built_in_roles key ≡ true
    → is_stored key (insert_all (seed_rows now) []) ≡ true
unfolding insert_all insert_or_ignore first text_beq
is_stored-new now key h = is_stored-contains key (seed_rows now) ∙ h

opened-is_stored :
    (o : Opening) (now key : Text)
    → contains built_in_roles key ≡ true
    → (ensure_system_db o now new_file).0 ≡ value done
    → o.seeds ≡ true
    → is_stored key (ensure_system_db o now new_file).1.roles ≡ true
unfolding ensure_system_db seed
opened-is_stored o now key h e f =
    ground
      (arith, e, f, is_stored-new now key h, is_stored-update key (insert_all (seed_rows now) []))

kept-key :
    (keys : List Text) (id key : Text)
    → contains keys key ≡ true
    → contains keys id ≡ false
    → id ≡ key
    → false ≡ true
kept-key keys id key h e p = cc

kept-row :
    (id key at : Text)
    → contains built_in_roles key ≡ true
    → contains built_in_roles id ≡ false
    → text_beq at key ≡ true
    → text_beq at id ≡ false
kept-row id key at h e p = elim (Bool-cases (text_beq at id)) [
  | inl q ↦
      q
      ∙ sym (
          kept-key built_in_roles id key h e
            (sym ((text_beq_iff at id).0 q) ∙ (text_beq_iff at key).0 p))
  | inr q ↦ q
]

-- A role that is deleted is not built in.
kept-delete :
    (id key : Text) (rows : List PlatformRoleRecord)
    → contains built_in_roles key ≡ true
    → contains built_in_roles id ≡ false
    → first (has_id key) (delete (has_id id) rows) ≡ first (has_id key) rows
kept-delete id key rows h e =
    first-delete (has_id key) (has_id id) rows (λ r p. kept-row id key r.id h e p)

perform-is_stored :
    (op : Operation) (s : RoleStore) (key : Text)
    → contains built_in_roles key ≡ true
    → is_stored key s.roles ≡ true
    → is_stored key (perform op s).roles ≡ true
unfolding perform ensure_system_db create_platform_role delete_platform_role
perform-is_stored (opens o now) s key h e = ground (arith, e, is_stored-seed o now key s.roles e)
perform-is_stored (creates insertion now id name description scope) s key h e =
    ground (arith, e, is_stored-append key s.roles (seed_row now id name description scope ∷ []) e)
perform-is_stored (deletes check deletion id) s key h e =
    elim (Bool-cases (contains built_in_roles id)) [
      | inl f ↦ rw (f, perform, delete_platform_role) e
      | inr f ↦
          rw (f, perform, delete_platform_role) (ground (arith, e, kept-delete id key s.roles h f))
    ]

perform_all-is_stored :
    (ops : List Operation) (s : RoleStore) (key : Text)
    → contains built_in_roles key ≡ true
    → is_stored key s.roles ≡ true
    → is_stored key (perform_all ops s).roles ≡ true
unfolding perform_all
perform_all-is_stored [] s key h e = e
perform_all-is_stored (op ∷ ops) s key h e =
    perform-is_stored op (perform_all ops s) key h (perform_all-is_stored ops s key h e)

-- Once a new file is opened and its seed has run, each of the four built-in roles stays stored, whatever
-- roles are created and deleted, however often the database is opened, and however SQLite answers.
pub built_in-kept :
    (o : Opening) (now key : Text) (ops : List Operation)
    → contains built_in_roles key ≡ true
    → (ensure_system_db o now new_file).0 ≡ value done
    → o.seeds ≡ true
    → is_stored key (perform_all ops (ensure_system_db o now new_file).1).roles ≡ true
built_in-kept o now key ops h e f =
    perform_all-is_stored ops (ensure_system_db o now new_file).1 key h
      (opened-is_stored o now key h e f)
