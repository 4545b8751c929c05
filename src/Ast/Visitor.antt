-- ===== src/Ast/Visitor.antt =====
-- shared/ast/isched_NonRecursiveVisitor.hpp: the traversal by an explicit stack, and that it visits
-- what recursion would.
use isched.Common.{
  ℕ, zero, suc, ◌+◌, ◌-◌, ◌*◌, ◌<◌, ◌≤◌, ◌≡◌, refl, Bool, ◌||◌, List, [], ◌∷◌, Option, none, some,
  arith, if◌then◌else◌, nat_eq, ◌==◌, ap, ◌∙◌, subst, dec_lt,
}
use isched.Ast.{
  NodeType, type_eq, Node, Nodes, node, nil, cons, get_node_type, children, child_at, size,
  size_all,
}

pub data VisitorDispatchOutcome : Type 0 where
  success unknown_node_fallback : VisitorDispatchOutcome

-- The visitor's two counters.
pub record Visitor : Type 0 where
  pub visited_count : ℕ
  pub unknown_count : ℕ

pub record TraversalFrame : Type 0 where
  pub node : Node
  pub child_index : ℕ

-- The `switch`: every other enumerator has an arm of its own.
unfoldable pub dispatch_type : NodeType → VisitorDispatchOutcome
dispatch_type NodeType.unknown = unknown_node_fallback
dispatch_type NodeType.sentinel = unknown_node_fallback
dispatch_type _ = success

abbrev fallbacks : VisitorDispatchOutcome → ℕ
fallbacks success = 0
fallbacks unknown_node_fallback = 1

-- A fallback seen once is remembered.
abbrev pub aggregate : VisitorDispatchOutcome → VisitorDispatchOutcome → VisitorDispatchOutcome
aggregate overall success = overall
aggregate overall unknown_node_fallback = unknown_node_fallback

unfoldable pub dispatch_node : Visitor → Node → Visitor × VisitorDispatchOutcome
dispatch_node v n =
    let outcome = dispatch_type (get_node_type n) in
    (
      record {
        visited_count = v.visited_count + 1;
        unknown_count = v.unknown_count + fallbacks outcome;
      },
      outcome,
    )

pub record Traversal : Type 0 where
  pub visitor : Visitor
  pub overall : VisitorDispatchOutcome

-- A node is dispatched when its frame first comes to the top.
unfoldable pub first_encounter : TraversalFrame → Traversal → Traversal
first_encounter top s =
    if top.child_index == 0
    then (let (v, outcome) = dispatch_node s.visitor top.node in
        record { visitor = v; overall = aggregate s.overall outcome })
    else s

-- The `while (!stack.empty())`, the top of the stack first; `none` means that the fuel ran out.
unfoldable pub traverse_loop : ℕ → List TraversalFrame → Traversal → Option Traversal
traverse_loop fuel [] s = some s
traverse_loop zero (top ∷ stack) s = none
traverse_loop (suc fuel) (top ∷ stack) s = elim (child_at (children top.node) top.child_index) [
  | some child ↦
      traverse_loop fuel
        (record { node = child; child_index = 0 }
          ∷ record top { child_index = top.child_index + 1 }
          ∷ stack)
        (first_encounter top s)
  | none ↦ traverse_loop fuel stack (first_encounter top s)
]

abbrev fresh : Traversal
fresh = record { visitor = record { visited_count = 0; unknown_count = 0 }; overall = success }

-- Each node costs a round of its own and a round that pushes it.
unfoldable pub traverse : Node → Option Traversal
traverse root = traverse_loop (2 * size root) (record { node = root; child_index = 0 } ∷ []) fresh

-- The traversal by recursion: the state after a tree, and after a list of trees.
mutual
  pub visit : Node → Traversal → Traversal
  visit (node t r c ns) s =
      visit_all ns (first_encounter (record { node = node t r c ns; child_index = 0 }) s)

  pub visit_all : Nodes → Traversal → Traversal
  visit_all nil s = s
  visit_all (cons n ns) s = visit_all ns (visit n s)

-- A suffix of the children from a position on.
abbrev FromChild : Nodes → ℕ → Nodes → Type 0
FromChild all i rest = (k : ℕ) → child_at all (i + k) ≡ child_at rest k

-- The rounds of the loop: one for each node, and one for each time a child is pushed.
mutual
  rounds : Node → ℕ
  rounds (node t r c ns) = suc (rounds_all ns)

  rounds_all : Nodes → ℕ
  rounds_all nil = 0
  rounds_all (cons n ns) = suc (rounds n + rounds_all ns)

mutual
  unfolding rounds size

  rounds-lt : (n : Node) → rounds n < 2 * size n
  rounds-lt (node t r c ns) = omega (arith, rounds_all-le ns)

  rounds_all-le : (ns : Nodes) → rounds_all ns ≤ 2 * size_all ns
  rounds_all-le nil = omega arith
  rounds_all-le (cons n ns) = omega (arith, rounds-lt n, rounds_all-le ns)

later_encounter :
    (n : Node) (i : ℕ) (s : Traversal)
    → first_encounter (record { node = n; child_index = i + 1 }) s ≡ s
unfolding first_encounter
later_encounter n i s = ground arith

loop_step :
    (fuel : ℕ) (n : Node) (i : ℕ) (stack : List TraversalFrame) (s : Traversal)
    → (child : Option Node) → child_at (children n) i ≡ child
    → traverse_loop (suc fuel) (record { node = n; child_index = i } ∷ stack) s ≡ elim child [
      | some m ↦
          traverse_loop fuel
            (record { node = m; child_index = 0 }
              ∷ record { node = n; child_index = i + 1 }
              ∷ stack)
            (first_encounter (record { node = n; child_index = i }) s)
      | none ↦ traverse_loop fuel stack (first_encounter (record { node = n; child_index = i }) s)
    ]
unfolding traverse_loop
loop_step fuel n i stack s none e = rw (e, traverse_loop) refl
loop_step fuel n i stack s (some m) e = rw (e, traverse_loop) refl

mutual
  unfolding rounds visit

  loop_node :
      (n : Node) (fuel : ℕ) (stack : List TraversalFrame) (s : Traversal)
      → traverse_loop (rounds n + fuel) (record { node = n; child_index = 0 } ∷ stack) s
        ≡ traverse_loop fuel stack (visit n s)
  loop_node (node t r c ns) fuel stack s =
      loop_rest ns (node t r c ns) 0 fuel stack s (λ k. ap (child_at ns) (omega arith))

  loop_rest :
      (rest : Nodes) (n : Node) (i fuel : ℕ) (stack : List TraversalFrame) (s : Traversal)
      → FromChild (children n) i rest
      → traverse_loop
          (suc (rounds_all rest) + fuel)
          (record { node = n; child_index = i } ∷ stack)
          s
        ≡ traverse_loop fuel stack
            (visit_all rest (first_encounter (record { node = n; child_index = i }) s))
  loop_rest nil n i fuel stack s h =
      ap (λ k. traverse_loop k (record { node = n; child_index = i } ∷ stack) s) (omega arith)
      ∙ loop_step fuel n i stack s none (ap (child_at (children n)) (omega arith) ∙ h 0)
  loop_rest (cons m ms) n i fuel stack s h =
      ap (λ k. traverse_loop k (record { node = n; child_index = i } ∷ stack) s)
        {y = suc (rounds m + (suc (rounds_all ms) + fuel))} (omega arith)
      ∙ loop_step (rounds m + (suc (rounds_all ms) + fuel)) n i stack s (some m)
          (ap (child_at (children n)) (omega arith) ∙ h 0)
      ∙ loop_node m (suc (rounds_all ms) + fuel) (record { node = n; child_index = i + 1 } ∷ stack)
          (first_encounter (record { node = n; child_index = i }) s)
      ∙ loop_rest ms n (i + 1) fuel stack
          (visit m (first_encounter (record { node = n; child_index = i }) s))
          (λ k. ap (child_at (children n)) (omega arith) ∙ h (suc k))
      ∙ ap (λ q. traverse_loop fuel stack (visit_all ms q)) (later_encounter n i _)

-- The loop ends within its fuel in the state that the recursive traversal reaches.
traverse-visit : (root : Node) → traverse root ≡ some (visit root fresh)
unfolding traverse
traverse-visit root =
    ap (λ k. traverse_loop k (record { node = root; child_index = 0 } ∷ []) fresh)
      {y = rounds root + (2 * size root - rounds root)} (omega (arith, rounds-lt root))
    ∙ loop_node root (2 * size root - rounds root) [] fresh
    ∙ unfold traverse_loop in refl

-- The nodes without an enumerator of their own, counted by recursion.
abbrev pub is_unmapped : NodeType → Bool
is_unmapped t = t == NodeType.unknown || t == NodeType.sentinel

unfoldable mutual
  pub unmapped : Node → ℕ
  unmapped (node t r c ns) = (if is_unmapped t then 1 else 0) + unmapped_all ns

  pub unmapped_all : Nodes → ℕ
  unmapped_all nil = 0
  unmapped_all (cons n ns) = unmapped n + unmapped_all ns

fallbacks-dispatch_type :
    (t : NodeType) → fallbacks (dispatch_type t) ≡ (if is_unmapped t then 1 else 0)
unfolding dispatch_type
fallbacks-dispatch_type NodeType.unknown = refl
fallbacks-dispatch_type _ = refl

-- The state after `k` more nodes, `u` of them unmapped.
record Advanced (s : Traversal) (k u : ℕ) (s' : Traversal) : Type 0 where
  seen : s'.visitor.visited_count ≡ s.visitor.visited_count + k
  fell : s'.visitor.unknown_count ≡ s.visitor.unknown_count + u
  kept : u ≡ 0 → s'.overall ≡ s.overall
  marked : 0 < u → s'.overall ≡ unknown_node_fallback

Advanced-trans :
    (s t u : Traversal) (j k l m : ℕ)
    → Advanced s j k t
    → Advanced t l m u
    → Advanced s (j + l) (k + m) u
Advanced-trans s t u j k l m a b = record {
  seen = omega (arith, a.seen, b.seen);
  fell = omega (arith, a.fell, b.fell);
  kept = λ e. b.kept (omega arith) ∙ a.kept (omega arith);
  marked = λ h. elim (dec_lt 0 m) [
    | yes p ↦ b.marked p
    | no p ↦ b.kept (omega arith) ∙ a.marked (omega arith)
  ];
}

first_encounter-Advanced :
    (n : Node) (s : Traversal)
    → Advanced s 1
        (if is_unmapped (get_node_type n) then 1 else 0)
        (first_encounter (record { node = n; child_index = 0 }) s)
unfolding first_encounter dispatch_node
first_encounter-Advanced n s = rw (← fallbacks-dispatch_type (get_node_type n)) (record {
  seen = ground arith;
  fell = ground arith;
  kept = λ e. ground arith;
  marked = λ h. ground arith;
})

mutual
  unfolding visit size unmapped

  visit-Advanced : (n : Node) (s : Traversal) → Advanced s (size n) (unmapped n) (visit n s)
  visit-Advanced (node t r c ns) s =
      let all = unmapped (node t r c ns) in
      let last = visit (node t r c ns) s in
      subst (λ k. Advanced s k all last)
        (let e : 1 + size_all ns ≡ suc (size_all ns) = omega arith in e)
        (Advanced-trans s _ _ 1 _ (size_all ns) (unmapped_all ns)
          (first_encounter-Advanced (node t r c ns) s) (visit_all-Advanced ns _))

  visit_all-Advanced :
      (ns : Nodes) (s : Traversal) → Advanced s (size_all ns) (unmapped_all ns) (visit_all ns s)
  visit_all-Advanced nil s = record {
    seen = omega arith;
    fell = omega arith;
    kept = λ e. refl;
    marked = λ h. absurd (omega arith);
  }
  visit_all-Advanced (cons n ns) s =
      Advanced-trans s _ _ (size n) (unmapped n) (size_all ns) (unmapped_all ns)
        (visit-Advanced n s) (visit_all-Advanced ns _)

-- The traversal ends for every tree: it counts each node once, counts exactly the nodes without an
-- enumerator of their own as unknown, and reports a fallback exactly if there is such a node.
pub traverse_counts :
    (root : Node)
    → (t : Traversal) × (traverse root ≡ some t)
      × (t.visitor.visited_count ≡ size root)
      × (t.visitor.unknown_count ≡ unmapped root)
      × (t.overall ≡ (if unmapped root == 0 then success else unknown_node_fallback))
traverse_counts root =
    let a = visit-Advanced root fresh in
    (
      visit root fresh,
      traverse-visit root,
      omega (arith, a.seen),
      omega (arith, a.fell),
      elim (dec_lt 0 (unmapped root)) [
        | yes p ↦ a.marked p ∙ ground arith
        | no p ↦ a.kept (omega arith) ∙ ground arith
      ],
    )
