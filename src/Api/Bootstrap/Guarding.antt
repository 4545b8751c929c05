-- ===== src/Api/Bootstrap/Guarding.antt =====
-- backend/isched_GqlExecutor.cpp: when the open resolvers add a platform administrator.
use isched.Common.{
  ℕ, zero, suc, ◌+◌, ◌≤◌, ◌≡◌, refl, Bool, true, false, not, ◌&&◌, ◌||◌, List, [], ◌∷◌, ◌++◌,
  Option, none, some, Text, text_eq, nat_eq, ◌==◌, ltb, is_empty, any, take, length, arith, ap, ◌∙◌,
}
use isched.Database.Answers.{value}
use isched.Database.Tables.{first, matches, order_by, place, matches-order_by}
use isched.Database.Statements.{text_leb, runs}
use isched.Database.Admins.{
  PlatformAdminRecord, has_id, has_email, list_platform_admins, without_hashes,
  create_platform_admin,
}
use isched.Api.Bootstrap.{
  Platform, BootstrapInput, threw, returned, no_longer_available, platform_bootstrap_status,
  bootstrap_platform_admin, complete_platform_bootstrap, none_active, is_seed_active,
  create_seed_admin,
}

any-matches :
    (q : PlatformAdminRecord → Bool) (rs : List PlatformAdminRecord)
    → any q rs ≡ not (matches q rs == 0)
unfolding matches
any-matches q [] = refl
any-matches q (r ∷ rs) = ground (arith, any-matches q rs)

matches-without_hashes :
    (rs : List PlatformAdminRecord)
    → matches (λ r. r.is_active) (without_hashes rs) ≡ matches (λ r. r.is_active) rs
unfolding matches without_hashes
matches-without_hashes [] = refl
matches-without_hashes (r ∷ rs) = ground (arith, matches-without_hashes rs)

length-place :
    (before : PlatformAdminRecord → PlatformAdminRecord → Bool) (r : PlatformAdminRecord)
    (rs : List PlatformAdminRecord)
    → length (place before r rs) ≡ 1 + length rs
unfolding place
length-place before r [] = omega arith
length-place before r (s ∷ rs) = ground (arith, length-place before r rs)

length-order_by :
    (before : PlatformAdminRecord → PlatformAdminRecord → Bool) (rs : List PlatformAdminRecord)
    → length (order_by before rs) ≡ length rs
unfolding order_by
length-order_by before [] = refl
length-order_by before (r ∷ rs) =
    ground (arith, length-place before r (order_by before rs), length-order_by before rs)

length-without_hashes : (rs : List PlatformAdminRecord) → length (without_hashes rs) ≡ length rs
unfolding without_hashes
length-without_hashes [] = refl
length-without_hashes (r ∷ rs) = ground (arith, length-without_hashes rs)

take-all : (n : ℕ) (rs : List PlatformAdminRecord) → length rs ≤ n → take n rs ≡ rs
take-all zero [] h = refl
take-all (suc n) [] h = refl
take-all zero (r ∷ rs) h = absurd (omega arith)
take-all (suc n) (r ∷ rs) h = ap (λ xs. r ∷ xs) (take-all n rs (omega arith))

-- The platform's list of its administrators, when SQLite gives all of it.
listed_admins : List PlatformAdminRecord → List PlatformAdminRecord
listed_admins admins = without_hashes (order_by (λ a b. text_leb a.created_at b.created_at) admins)

list_platform_admins-all :
    (p : Platform) (admins : List PlatformAdminRecord)
    → p.access ≡ none
    → p.listing.listed ≡ true
    → length admins ≤ p.listing.rows_read
    → list_platform_admins p.access p.listing admins ≡ value (listed_admins admins)
unfolding list_platform_admins listed_admins
list_platform_admins-all p admins a l r =
    rw (a, l, list_platform_admins)
      (ap value (
        take-all p.listing.rows_read (listed_admins admins) (
          omega (
            arith,
            r,
            length-without_hashes (order_by (λ a b. text_leb a.created_at b.created_at) admins),
            length-order_by (λ a b. text_leb a.created_at b.created_at) admins,
          ))))

none_active-listed :
    (admins : List PlatformAdminRecord) → none_active (listed_admins admins) ≡ none_active admins
unfolding none_active listed_admins
none_active-listed admins = ground (
  arith,
  any-matches (λ r. r.is_active) (listed_admins admins),
  any-matches (λ r. r.is_active) admins,
  matches-without_hashes (order_by (λ a b. text_leb a.created_at b.created_at) admins),
  matches-order_by (λ r. r.is_active) (λ a b. text_leb a.created_at b.created_at) admins,
)

is_empty-length :
    (rs ss : List PlatformAdminRecord) → length rs ≡ length ss → is_empty rs ≡ is_empty ss
is_empty-length [] [] h = refl
is_empty-length [] (s ∷ ss) h = absurd (omega arith)
is_empty-length (r ∷ rs) [] h = absurd (omega arith)
is_empty-length (r ∷ rs) (s ∷ ss) h = refl

is_empty-listed :
    (admins : List PlatformAdminRecord) → is_empty (listed_admins admins) ≡ is_empty admins
unfolding listed_admins
is_empty-listed admins = is_empty-length (listed_admins admins) admins (
    omega (
      arith,
      length-without_hashes (order_by (λ a b. text_leb a.created_at b.created_at) admins),
      length-order_by (λ a b. text_leb a.created_at b.created_at) admins,
    ))

-- The ways in which the resolvers leave the administrators as they are.
bootstrap-unchanged :
    (p : Platform) (now id hash : Text) (input : Option BootstrapInput)
    (admins rs : List PlatformAdminRecord)
    → list_platform_admins p.access p.listing admins ≡ value rs
    → is_empty rs ≡ false
    → (bootstrap_platform_admin p now id hash input admins).1 ≡ admins
unfolding bootstrap_platform_admin
bootstrap-unchanged p now id hash none admins rs h e = ground arith
bootstrap-unchanged p now id hash (some i) admins rs h e =
    rw (h, bootstrap_platform_admin) (ground (arith, e))

is_seed_active-false :
    (p : Platform) (admins rs : List PlatformAdminRecord)
    → p.has_database ≡ true
    → list_platform_admins p.access p.listing admins ≡ value rs
    → none_active rs ≡ false
    → is_seed_active p admins ≡ false
unfolding is_seed_active
is_seed_active-false p admins rs d h e = rw (d, h, is_seed_active) e

create_seed_admin-unchanged :
    (allowed : Bool) (p : Platform) (now id hash email password : Text)
    (admins : List PlatformAdminRecord)
    → is_seed_active p admins ≡ false
    → (create_seed_admin allowed p now id hash email password admins).1 ≡ admins
unfolding create_seed_admin
create_seed_admin-unchanged allowed p now id hash email password admins h = ground (arith, h)

none_active-empty : (rs : List PlatformAdminRecord) → none_active rs ≡ false → is_empty rs ≡ false
unfolding none_active
none_active-empty [] h = cc
none_active-empty (r ∷ rs) h = refl

-- While some administrator is active and the list of administrators can be read to its end, none of the
-- resolvers that are open to everyone adds one, whatever they are given.
pub platform-guarded :
    (p : Platform) (allowed : Bool) (now id hash email password : Text)
    (input : Option BootstrapInput) (admins : List PlatformAdminRecord)
    → p.has_database ≡ true
    → p.access ≡ none
    → p.listing.listed ≡ true
    → length admins ≤ p.listing.rows_read
    → none_active admins ≡ false
    → ((bootstrap_platform_admin p now id hash input admins).1 ≡ admins)
      × ((complete_platform_bootstrap p now id hash input admins).1 ≡ admins)
      × ((create_seed_admin allowed p now id hash email password admins).1 ≡ admins)
unfolding complete_platform_bootstrap
platform-guarded p allowed now id hash email password input admins d a l r h =
    let read = list_platform_admins-all p admins a l r in
    let active = none_active-listed admins ∙ h in
    let some_admin = none_active-empty (listed_admins admins) active in
    (
      bootstrap-unchanged p now id hash input admins (listed_admins admins) read some_admin,
      bootstrap-unchanged p now id hash (some _) admins (listed_admins admins) read some_admin,
      create_seed_admin-unchanged allowed p now id hash email password admins
          (is_seed_active-false p admins (listed_admins admins) d read active),
    )

-- With administrators none of whom is active, the status says that a bootstrap is allowed, and the
-- bootstrap is refused.
pub bootstrap_status-divergent :
    (p : Platform) (now id hash : Text) (i : BootstrapInput) (admins : List PlatformAdminRecord)
    → p.has_database && p.has_auth && p.initialized ≡ true
    → p.access ≡ none
    → p.listing.listed ≡ true
    → length admins ≤ p.listing.rows_read
    → none_active admins && not (is_empty admins) ≡ true
    → is_empty i.email || is_empty i.password ≡ false
    → (platform_bootstrap_status p admins ≡ returned true)
      × (bootstrap_platform_admin p now id hash (some i) admins
          ≡ (threw no_longer_available, admins))
unfolding platform_bootstrap_status bootstrap_platform_admin
bootstrap_status-divergent p now id hash i admins d a l r h e =
    let read = list_platform_admins-all p admins a l r in
    let active = none_active-listed admins in
    let same = is_empty-listed admins in
    (
      rw (read, platform_bootstrap_status) (ground (arith, d, active, h)),
      rw (read, bootstrap_platform_admin) (ground (arith, d, same, h, e)),
    )

-- The administrator that the seed mode adds.
abbrev pub seeded : Text → Text → Text → Text → PlatformAdminRecord
seeded now id hash email = record {
  id = id;
  email = email;
  password_hash = hash;
  display_name = email;
  is_active = true;
  created_at = now;
  last_login = [];
}

-- If the query for the administrators is not prepared, the seed mode is open to everyone: an
-- administrator is added whoever is there and active, if the limiter allows it, the insertion runs, the
-- id and the email are new and the password has its twelve characters.
pub create_seed_admin-unguarded :
    (p : Platform) (now id hash email password : Text) (admins : List PlatformAdminRecord)
    → p.access ≡ none
    → p.listing.listed ≡ false
    → runs p.insertion ≡ true
    → is_empty email || is_empty password || ltb (length password) 12 ≡ false
    → first (λ r. has_id id r || has_email email r) admins ≡ none
    → (create_seed_admin true p now id hash email password admins).1
      ≡ admins ++ (seeded now id hash email ∷ [])
unfolding create_seed_admin is_seed_active list_platform_admins create_platform_admin
create_seed_admin-unguarded p now id hash email password admins a l r e f =
    ground (arith, a, l, r, e, f)
