-- ===== src/Api/Organizations/Pages.antt =====
-- backend/isched_GqlExecutor.cpp: what the pages of `organizations` hold.
use isched.Common.{
  ℕ, zero, suc, ◌+◌, ◌-◌, ◌*◌, ◌^◌, ◌≤◌, ◌<◌, ◌≡◌, refl, true, false, List, [], ◌∷◌, ◌++◌, Text,
  text_eq, nat_eq, ◌==◌, all, take, drop, length, is_empty, arith, ap, ◌∙◌, sym,
}
use native.Mathlib.Nat.{suc-mul, div-mul-le_self, lt-div-mul-add}
use isched.Gql.Gates.{has, platform_admin}
use isched.Database.Organizations.{OrganizationRecord}
use isched.Api.Organizations.{
  Filter, Page, page, division_by_zero, overflow, read_before_start, paginate, pages_of, all_nodes,
  is_visible,
}

abbrev pub nodes_in : Page → List OrganizationRecord
nodes_in (page i) = i.nodes
nodes_in division_by_zero = []
nodes_in overflow = []
nodes_in read_before_start = []

-- The nodes of the first `n` pages, one after the other.
unfoldable pub first_pages : ℕ → ℕ → List OrganizationRecord → List OrganizationRecord
first_pages zero size nodes = []
first_pages (suc n) size nodes = first_pages n size nodes ++ nodes_in (paginate (suc n) size nodes)

take-nil : (n : ℕ) → take {A = OrganizationRecord} n [] ≡ []
take-nil zero = refl
take-nil (suc n) = refl

zero_plus : (n : ℕ) → zero + n ≡ n
zero_plus n = omega arith

suc_plus : (m n : ℕ) → suc m + n ≡ suc (m + n)
suc_plus m n = omega arith

take-add :
    (m n : ℕ) (xs : List OrganizationRecord) → take (m + n) xs ≡ take m xs ++ take n (drop m xs)
take-add zero n xs = ap (λ k. take k xs) (zero_plus n)
take-add (suc m) n [] = take-nil (suc m + n) ∙ sym (take-nil n)
take-add (suc m) n (x ∷ xs) =
    ap (λ k. take k (x ∷ xs)) (suc_plus m n) ∙ ap (λ ys. x ∷ ys) (take-add m n xs)

take-all : (n : ℕ) (xs : List OrganizationRecord) → length xs ≤ n → take n xs ≡ xs
take-all zero [] h = refl
take-all (suc n) [] h = refl
take-all zero (x ∷ xs) h = absurd (omega arith)
take-all (suc n) (x ∷ xs) h = ap (λ ys. x ∷ ys) (take-all n xs (omega arith))

suc_less : (n : ℕ) → suc n - 1 ≡ n
suc_less n = omega arith

paginate-next :
    (n size : ℕ) (nodes : List OrganizationRecord)
    → 0 < size
    → length nodes + size < 2 ^ 31
    → n * size + size < 2 ^ 31
    → nodes_in (paginate (suc n) size nodes) ≡ take size (drop (n * size) nodes)
unfolding paginate
paginate-next n size nodes h b c = ground (arith, h, b, c, suc_less n)

zero_times : (n : ℕ) → zero ≡ zero * n
zero_times n = omega arith

first_pages-take :
    (n size : ℕ) (nodes : List OrganizationRecord)
    → 0 < size
    → length nodes + size < 2 ^ 31
    → n * size < 2 ^ 31
    → first_pages n size nodes ≡ take (n * size) nodes
unfolding first_pages
first_pages-take zero size nodes h b c = ap (λ k. take k nodes) (zero_times size)
first_pages-take (suc n) size nodes h b c =
    let step = suc-mul n size in
    ap (λ xs. xs ++ nodes_in (paginate (suc n) size nodes))
      (first_pages-take n size nodes h b (omega (arith, step, c)))
    ∙ ap (λ ys. take (n * size) nodes ++ ys)
        (paginate-next n size nodes h b (omega (arith, step, c)))
    ∙ sym (take-add (n * size) size nodes)
    ∙ ap (λ k. take k nodes) (sym step)

-- With a page size above zero, and numbers that an `int` holds, the pages from the first to the last one
-- that the answer counts are all the nodes, each once and in their order.
pub first_pages-pages_of :
    (size : ℕ) (nodes : List OrganizationRecord)
    → 0 < size
    → length nodes + size < 2 ^ 31
    → first_pages (pages_of size (length nodes)) size nodes ≡ nodes
first_pages-pages_of size nodes h b =
    let total = length nodes in
    let within = div-mul-le_self (total + size - 1) size in
    let beyond = lt-div-mul-add {a = total + size - 1} {b = size} h in
    first_pages-take (pages_of size total) size nodes h b (omega (arith, within, b, h))
    ∙ take-all (pages_of size total * size) nodes (omega (arith, beyond, h))

-- A caller can ask for a page of size zero, which divides by zero if there is any node, and for page
-- zero, which reads before the start of the nodes.
pub paginate-unchecked :
    (number size : ℕ) (nodes : List OrganizationRecord)
    → is_empty nodes ≡ false
    → 0 < size
    → length nodes + size < 2 ^ 31
    → (paginate number 0 nodes ≡ division_by_zero) × (paginate 0 size nodes ≡ read_before_start)
unfolding paginate
paginate-unchecked number size [] e h b = cc
paginate-unchecked number size (x ∷ nodes) e h b = (ground (arith, h, b), ground (arith, h, b))

-- A caller who is no platform administrator sees no other organization than its own.
pub all_nodes-own :
    (roles : List Text) (tenant : Text) (filters : List Filter) (rows : List OrganizationRecord)
    → has roles platform_admin ≡ false
    → all (λ r. r.id == tenant) (all_nodes roles tenant filters rows) ≡ true
unfolding all_nodes is_visible
all_nodes-own roles tenant filters [] h = refl
all_nodes-own roles tenant filters (r ∷ rows) h =
    ground (arith, h, all_nodes-own roles tenant filters rows h)
