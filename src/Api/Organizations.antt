-- ===== src/Api/Organizations.antt =====
-- backend/isched_GqlExecutor.cpp: the `organizations` resolver: what a caller sees, the filters, the order and
-- the pages. Page numbers and sizes that are below zero are left out; an `int` is 32 bits.
pub mod Pages
use isched.Common.{
  ℕ, suc, ◌+◌, ◌-◌, ◌*◌, ◌/◌, ◌^◌, ◌≡◌, Bool, true, false, not, ◌&&◌, ◌||◌, List, [], ◌∷◌, ◌++◌,
  Option, none, some, Text, codes, text_eq, nat_eq, ◌==◌, if◌then◌else◌, leb, take, drop, length,
  reverse,
}
use isched.Gql.Gates.{has, platform_admin}
use isched.Database.Answers.{DatabaseError, DatabaseResult, failed, value, Listing}
use isched.Database.LoginSessions.{instr}
use isched.Database.Organizations.{OrganizationRecord, list_organizations}

pub record Filter : Type 0 where
  pub field : Text
  pub op : Text
  pub wanted : Text

-- Every filter on the name sets the flag anew.
unfoldable pub passes : Bool → List Filter → OrganizationRecord → Bool
passes so_far [] r = so_far
passes so_far (f ∷ fs) r =
    passes
      (if f.field == codes "name" && f.op == codes "contains"
        then instr r.name f.wanted
        else so_far)
      fs r

unfoldable pub is_visible : List Text → Text → OrganizationRecord → Bool
is_visible roles tenant r = has roles platform_admin || r.id == tenant

unfoldable pub all_nodes :
    List Text → Text → List Filter → List OrganizationRecord → List OrganizationRecord
all_nodes roles tenant filters [] = []
all_nodes roles tenant filters (r ∷ rs) =
    let rest = all_nodes roles tenant filters rs in
    if is_visible roles tenant r && passes true filters r then r ∷ rest else rest

pub record PageInfo : Type 0 where
  pub nodes : List OrganizationRecord
  pub total_elements : ℕ
  pub total_pages : ℕ

-- What C++ leaves undefined is a result of its own.
pub data Page : Type 0 where
  division_by_zero overflow read_before_start : Page
  page : PageInfo → Page

abbrev fits : ℕ → Bool
fits n = leb (n + 1) (2 ^ 31)

abbrev pub pages_of : ℕ → ℕ → ℕ
pages_of size total = (total + size - 1) / size

-- The arithmetic is on `int`; the loop goes from the offset to the end of the page or of the nodes.
unfoldable pub paginate : ℕ → ℕ → List OrganizationRecord → Page
paginate number size nodes =
    let total = length nodes in
    let pages = (if total == 0 then 0 else pages_of size total) in
    if not (total == 0) && not (fits (total + size))
    then overflow
    else if not (total == 0) && size == 0
    then division_by_zero
    else if number == 0
    then (if size == 0
        then page (record { nodes = []; total_elements = total; total_pages = pages })
        else read_before_start)
    else if not (fits ((number - 1) * size + size))
    then overflow
    else page (record {
      nodes = take size (drop ((number - 1) * size) nodes);
      total_elements = total;
      total_pages = pages;
    })

unfoldable pub organizations :
    Option DatabaseError
    → Listing
    → List Text
    → Text
    → List Filter
    → Bool
    → ℕ
    → ℕ
    → List OrganizationRecord
    → Option Page
organizations access listing roles tenant filters descending number size rows =
    elim (list_organizations access listing rows) [
      | failed e ↦ none
      | value rs ↦
          let nodes = all_nodes roles tenant filters rs in
          some (paginate number size (if descending then reverse nodes else nodes))
    ]
