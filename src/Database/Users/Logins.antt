-- ===== src/Database/Users/Logins.antt =====
-- backend/isched_DatabaseManager.cpp: that an id and an email each stand for one user.
use isched.Common.{
  ◌≤◌, ◌≡◌, refl, Bool, false, ◌||◌, List, [], ◌∷◌, Option, none, some, Text, text_eq, text_beq_iff,
  nat_eq, is_some, arith, Bool-cases, inl, inr,
}
use isched.Database.Answers.{DatabaseError, Statement}
use isched.Database.Tables.{
  first, matches, matches-append, matches-update, matches-delete, matches-le, first-matches,
}
use isched.Database.Statements.{insert_row, update_rows, delete_rows, check_exists}
use isched.Database.Users.{
  UserRow, UserChange, has_id, has_email, create_user, update_user, changed, changes_nothing,
  delete_user,
}

pub data Operation : Type 0 where
  creates : Option DatabaseError → Statement → Text → Text → Text → Text → Text → Text → Operation
  updates : Option DatabaseError → Statement → Statement → Text → UserChange → Operation
  deletes : Option DatabaseError → Statement → Statement → Text → Operation

unfoldable pub perform : Operation → List UserRow → List UserRow
perform (creates access insertion now id email hash name roles) rows =
    (create_user access insertion now id email hash name roles rows).1
perform (updates access check change id c) rows = (update_user access check change id c rows).1
perform (deletes access check deletion id) rows = (delete_user access check deletion id rows).1

-- The operations on a new table, the last one first.
unfoldable pub perform_all : List Operation → List UserRow
perform_all [] = []
perform_all (op ∷ earlier) = perform op (perform_all earlier)

-- At most one user has the id, and at most one the email.
abbrev pub IsUnique : Text → Text → List UserRow → Type 0
IsUnique id email rows = (matches (has_id id) rows ≤ 1) × (matches (has_email email) rows ≤ 1)

absent :
    (p q : UserRow → Bool) (rows : List UserRow)
    → is_some (first (λ r. p r || q r) rows) ≡ false
    → (matches p rows ≡ 0) × (matches q rows ≡ 0)
absent p q rows h = (
  ground (
    arith,
    h,
    first-matches (λ r. p r || q r) rows,
    matches-le p (λ r. p r || q r) rows (λ r e. ground (arith, e)),
  ),
  ground (
    arith,
    h,
    first-matches (λ r. p r || q r) rows,
    matches-le q (λ r. p r || q r) rows (λ r e. ground (arith, e)),
  ),
)

inserted-IsUnique :
    (access : Option DatabaseError) (insertion : Statement) (r : UserRow) (id email : Text)
    (rows : List UserRow)
    → IsUnique id email rows
    → IsUnique id email
        (insert_row access insertion
          (is_some (first (λ x. has_id r.id x || has_email r.email x) rows))
          r
          rows).1
unfolding matches
inserted-IsUnique (some e) insertion r id email rows h = h
inserted-IsUnique none insertion r id email rows (h, k) =
    elim (Bool-cases (is_some (first (λ x. has_id r.id x || has_email r.email x) rows))) [
      | inl e ↦ (ground (arith, h, e), ground (arith, k, e))
      | inr e ↦
          let (f, g) = absent (has_id r.id) (has_email r.email) rows e in
          (
            ground (arith, h, e, f, matches-append (has_id id) rows (r ∷ []), text_beq_iff r.id id),
            ground (
              arith,
              k,
              e,
              g,
              matches-append (has_email email) rows (r ∷ []),
              text_beq_iff r.email email,
            ),
          )
    ]

updated-IsUnique :
    (access : Option DatabaseError) (change : Statement) (key : Text) (c : UserChange)
    (id email : Text) (rows : List UserRow)
    → IsUnique id email rows
    → IsUnique id email (update_rows access change (has_id key) (changed c) rows).1
unfolding changed
updated-IsUnique (some e) change key c id email rows h = h
updated-IsUnique none change key c id email rows (h, k) = (
  ground (arith, h, matches-update (has_id id) (has_id key) (changed c) rows (λ r. refl)),
  ground (arith, k, matches-update (has_email email) (has_id key) (changed c) rows (λ r. refl)),
)

deleted-IsUnique :
    (access : Option DatabaseError) (deletion : Statement) (key id email : Text)
    (rows : List UserRow)
    → IsUnique id email rows
    → IsUnique id email (delete_rows access deletion (has_id key) rows).1
deleted-IsUnique (some e) deletion key id email rows h = h
deleted-IsUnique none deletion key id email rows (h, k) = (
  ground (arith, h, matches-delete (has_id id) (has_id key) rows),
  ground (arith, k, matches-delete (has_email email) (has_id key) rows),
)

-- Whatever is done to the users of a tenant, in any order and however SQLite answers, no two users have
-- one id, and no two users one email.
pub users-IsUnique : (ops : List Operation) (id email : Text) → IsUnique id email (perform_all ops)
unfolding perform_all perform create_user update_user delete_user matches
users-IsUnique [] id email = (ground arith, ground arith)
users-IsUnique (creates access insertion now key mail hash name roles ∷ ops) id email =
    inserted-IsUnique access insertion _ id email (perform_all ops) (users-IsUnique ops id email)
users-IsUnique (updates access check change key c ∷ ops) id email =
    elim (Bool-cases (changes_nothing c)) [
      | inl e ↦ rw (e, perform_all, perform, update_user) (users-IsUnique ops id email)
      | inr e ↦
          rw (e, perform_all, perform, update_user)
            (updated-IsUnique (check_exists access check (has_id key) (perform_all ops)) change key
              c id email (perform_all ops) (users-IsUnique ops id email))
    ]
users-IsUnique (deletes access check deletion key ∷ ops) id email =
    deleted-IsUnique (check_exists access check (has_id key) (perform_all ops)) deletion key id
      email (perform_all ops) (users-IsUnique ops id email)
