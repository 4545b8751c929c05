-- ===== src/Gql/Execution/Safety.antt =====
-- No resolver is called that the role gate or the organization guard refuses.
use isched.Common.{
  ◌≡◌, refl, Bool, true, ◌&&◌, ◌||◌, not, List, [], ◌∷◌, ◌++◌, Option, none, some, ◌==◌, Text,
  text_eq, is_empty, all, arith, Bool-cases, Option-cases, inl, inr,
}
use isched.Ast.{
  NodeType, type_eq, Node, Nodes, node, nil, cons, get_node_type, string_view, to_list,
}
use isched.Gql.Json.{
  Json, Jsons, Members, null, text, array, object, no_items, item, no_members, push_item, get_key,
}
use isched.Gql.Arguments.{process_argument_field}
use isched.Gql.Resolvers.{get_resolver}
use isched.Gql.Gates.{is_forbidden, is_mismatch}
use isched.Gql.Execution.{
  selection_rule, returned, threw_error, threw, Resolver, Executor, Call, call_of, State, Action,
  typename_field, default_field, each_item, complete, call_resolver, gated, resolved_field,
  named_field, field_action, process_sub_selection, selection_after_name, first_selection,
  process_field_sub_selections, process_each, FieldNodeList, process_field_nodes, selected_fields,
  selected_field, first_field, resolve_field_selection_details, collect_field_nodes,
  process_field_selection, refuse, code_of_message, parent_typename,
}

module _ {N D : Type 0} (x : Executor N D) where
  -- Both gates let the call pass, or it is below the top level.
  unfoldable pub is_authorised : Call N → Bool
  is_authorised call =
      not (is_empty call.call_path)
      || not (is_forbidden x.required_roles call.call_field x.ctx)
        && not (is_mismatch call.call_field call.call_args x.ctx)

  abbrev pub all_authorised : State N → Bool
  all_authorised s = all is_authorised s.calls

  -- An action that calls only what both gates let pass.
  abbrev IsSafe : Action N → Type 0
  IsSafe a =
      (parent : Json N) (path : List Text) (s : State N)
      → all_authorised s ≡ true
      → all_authorised (a parent path s) ≡ true

  abbrev IsSafeOption : Option (Action N) → Type 0
  IsSafeOption none = true ≡ true
  IsSafeOption (some a) = IsSafe a

  all-append :
      (cs : List (Call N)) (c : Call N)
      → all is_authorised (cs ++ (c ∷ [])) ≡ (all is_authorised cs && is_authorised c)
  all-append [] c = ground arith
  all-append (d ∷ cs) c = ground (arith, all-append cs c)

  each_item-IsSafe :
      (sub : Action N)
      → IsSafe sub
      → (path : List Text) (is done : Jsons N) (s : State N) → all_authorised s ≡ true
      → all_authorised (each_item sub path is done s).1 ≡ true
  unfolding each_item
  each_item-IsSafe sub h path no_items done s i = i
  each_item-IsSafe sub h path (item null is) done s i =
      each_item-IsSafe sub h path is (push_item done null) s i
  each_item-IsSafe sub h path (item j is) done s i =
      each_item-IsSafe sub h path is _ _ (h _ path (record s { result = no_members }) i)

  complete-IsSafe :
      (sub : Option (Action N))
      → IsSafeOption sub
      → (j : Json N) (path : List Text) (name : Text) (s : State N) → all_authorised s ≡ true
      → all_authorised (complete sub j path name s) ≡ true
  unfolding complete
  complete-IsSafe none h j path name s i = i
  complete-IsSafe (some sub) h null path name s i = i
  complete-IsSafe (some sub) h (array is) path name s i =
      each_item-IsSafe sub h (path ++ (name ∷ [])) is no_items s i
  complete-IsSafe (some sub) h (object ms) path name s i =
      h (object ms) (path ++ (name ∷ [])) (record s { result = no_members }) i
  complete-IsSafe (some sub) h _ path name s i = i

  abbrev logged : List Text → Text → Members N → State N → State N
  logged path name args s = record s { calls = s.calls ++ (call_of path name args ∷ []) }

  call_resolver-IsSafe :
      (r : Resolver N D) (name : Text) (args : Members N) (sub : Option (Action N))
      → IsSafeOption sub
      → (parent : Json N) (path : List Text) (s : State N) → all_authorised s ≡ true
      → is_authorised (call_of path name args) ≡ true
      → all_authorised (call_resolver x r name args sub parent path s) ≡ true
  unfolding call_resolver
  call_resolver-IsSafe r name args sub h parent path s i a =
      let logged_safe : all_authorised (logged path name args s) ≡ true =
        ground (arith, all-append s.calls (call_of path name args)) in
      elim (r parent (object args) x.ctx)
        as (λ o.
          all_authorised (elim o [
            | returned j ↦ complete sub j path name (logged path name args s)
            | threw_error code ↦ refuse code path name (logged path name args s)
            | threw msg ↦ refuse (code_of_message msg) path name (logged path name args s)
          ])
          ≡ true) [
            | returned j ↦ complete-IsSafe sub h j path name (logged path name args s) logged_safe
            | threw_error code ↦ logged_safe
            | threw msg ↦ logged_safe
          ]

  gated-IsSafe :
      (r : Resolver N D) (name : Text) (args : Members N) (sub : Option (Action N))
      → IsSafeOption sub
      → IsSafe (gated x r name args sub)
  unfolding gated is_authorised
  gated-IsSafe r name args sub h parent path s i =
      ground (arith, call_resolver-IsSafe r name args sub h parent path s)

  parent_typename-IsSafe :
      (name : Text) (found : Option (Json N)) (s : State N)
      → all_authorised s ≡ true
      → all_authorised (parent_typename name found s) ≡ true
  parent_typename-IsSafe name none s i = i
  parent_typename-IsSafe name (some (text t)) s i = i
  parent_typename-IsSafe name (some _) s i = i

  typename_field-IsSafe : (name : Text) → IsSafe (typename_field x.type_map name)
  unfolding typename_field
  typename_field-IsSafe name parent path s i =
      ground (arith, parent_typename-IsSafe name (get_key name parent) s i)

  default_field-IsSafe : (name : Text) → IsSafe (default_field {N = N} name)
  unfolding default_field
  default_field-IsSafe name parent path s i = ground arith

  resolved_field-IsSafe :
      (r : Resolver N D) (name : Text) (ns : List Node) (sub : Option (Action N))
      → IsSafeOption sub
      → IsSafe (resolved_field x r name ns sub)
  unfolding resolved_field
  resolved_field-IsSafe r name ns sub h parent path s i =
      elim (Option-cases (process_argument_field x.stoll x.stod x.variables ns s.errors)) [
        | inl e ↦ rw (e, resolved_field) i
        | inr (a, e) ↦
            rw (e, resolved_field)
              (gated-IsSafe r name a.0 sub h parent path (record s { errors = a.1 }) i)
      ]

  named_field-IsSafe :
      (name : Text) (ns : List Node) (sub : Option (Action N))
      → IsSafeOption sub
      → IsSafe (named_field x name ns sub)
  unfolding named_field
  named_field-IsSafe name ns sub h parent path s i =
      elim (Option-cases (get_resolver path name x.resolvers)) [
        | inl e ↦ ground (
          arith,
          e,
          typename_field-IsSafe name parent path s,
          default_field-IsSafe name parent path s,
        )
        | inr (r, e) ↦ ground (
          arith,
          e,
          typename_field-IsSafe name parent path s,
          resolved_field-IsSafe r name ns sub h parent path s,
        )
      ]

  field_action-IsSafe :
      (ns : List Node) (sub : Option (Action N)) → IsSafeOption sub → IsSafe (field_action x ns sub)
  unfolding field_action
  field_action-IsSafe [] sub h parent path s i = ground arith
  field_action-IsSafe (first ∷ others) sub h parent path s i =
      ground (arith, named_field-IsSafe (string_view first) (first ∷ others) sub h parent path s)

  -- A list of actions that are all safe.
  abbrev AreSafe : FieldNodeList N → Type 0
  AreSafe [] = true ≡ true
  AreSafe (field ∷ fields) = IsSafe field × AreSafe fields

  append-AreSafe :
      (fields others : FieldNodeList N)
      → AreSafe fields
      → AreSafe others
      → AreSafe (fields ++ others)
  append-AreSafe [] others h k = k
  append-AreSafe (field ∷ fields) others (h, hs) k = (h, append-AreSafe fields others hs k)

  process_field_nodes-IsSafe :
      (fields : FieldNodeList N) → AreSafe fields → IsSafe (process_field_nodes fields)
  unfolding process_field_nodes
  process_field_nodes-IsSafe [] h parent path s i = i
  process_field_nodes-IsSafe (field ∷ fields) (h, hs) parent path s i =
      process_field_nodes-IsSafe fields hs parent path _ (h parent path s i)

  mutual
    unfolding process_sub_selection

    process_sub_selection-IsSafe : (n : Node) → IsSafe (process_sub_selection x n)
    process_sub_selection-IsSafe (node t r c ns) parent path s i = ground (
      arith,
      field_action-IsSafe (to_list ns) (selection_after_name x ns) (selection_after_name-IsSafe ns)
          parent path s,
      process_field_nodes-IsSafe (selected_fields x ns) (selected_fields-AreSafe ns) parent path s,
      process_each-IsSafe ns parent path s,
    )

    selection_after_name-IsSafe : (ns : Nodes) → IsSafeOption (selection_after_name x ns)
    selection_after_name-IsSafe nil = refl
    selection_after_name-IsSafe (cons n ns) = first_selection-IsSafe ns

    first_selection-IsSafe : (ns : Nodes) → IsSafeOption (first_selection x ns)
    first_selection-IsSafe nil = refl
    first_selection-IsSafe (cons n ns) =
        let this = process_field_sub_selections-IsSafe n in
        let rest = first_selection-IsSafe ns in
        elim (Bool-cases (get_node_type n == NodeType.selection_set)) [
          | inl e ↦ rw (e) this
          | inr e ↦ rw (e) rest
        ]

    process_field_sub_selections-IsSafe : (n : Node) → IsSafe (process_field_sub_selections x n)
    process_field_sub_selections-IsSafe (node t r c ns) = process_each-IsSafe ns

    process_each-IsSafe : (ns : Nodes) → IsSafe (process_each x ns)
    process_each-IsSafe nil parent path s i = i
    process_each-IsSafe (cons n ns) parent path s i =
        process_each-IsSafe ns parent path _ (process_sub_selection-IsSafe n parent path s i)

    selected_fields-AreSafe : (ns : Nodes) → AreSafe (selected_fields x ns)
    selected_fields-AreSafe nil = refl
    selected_fields-AreSafe (cons n ns) =
        append-AreSafe (selected_field x n) (selected_fields x ns) (selected_field-AreSafe n)
          (selected_fields-AreSafe ns)

    selected_field-AreSafe : (n : Node) → AreSafe (selected_field x n)
    selected_field-AreSafe (node t r c ns) =
        let this =
          field_action-IsSafe (to_list ns) (selection_after_name x ns)
            (selection_after_name-IsSafe ns) in
        let first = first_field-AreSafe ns in
        elim (Bool-cases (t == NodeType.field)) [
          | inl e ↦ rw (e) (this, refl)
          | inr e ↦ rw (e) (elim (Bool-cases (t == NodeType.unknown && r == selection_rule)) [
            | inl f ↦ rw (f) first
            | inr f ↦ rw (f) refl
          ])
        ]

    first_field-AreSafe : (ns : Nodes) → AreSafe (first_field x ns)
    first_field-AreSafe nil = refl
    first_field-AreSafe (cons n ns) =
        let this = resolve_field_selection_details-IsSafe n in
        elim (Bool-cases (get_node_type n == NodeType.field)) [
          | inl e ↦ rw (e) (this, refl)
          | inr e ↦ rw (e) refl
        ]

    resolve_field_selection_details-IsSafe :
        (n : Node) → IsSafe (resolve_field_selection_details x n)
    resolve_field_selection_details-IsSafe (node t r c ns) =
        field_action-IsSafe (to_list ns) (selection_after_name x ns)
          (selection_after_name-IsSafe ns)

  -- When a selection set is processed, every call of a top-level resolver is one for which the caller
  -- holds a required role, if the field requires any, and which is not a write to another
  -- organization; so is every call before, if those made so far were.
  pub process_field_selection-authorised :
      (n : Node) (parent : Json N) (path : List Text) (s : State N)
      → all_authorised s ≡ true
      → all_authorised (process_field_selection x n parent path s) ≡ true
  unfolding process_field_selection collect_field_nodes
  process_field_selection-authorised (node t r c ns) parent path s i =
      elim (Bool-cases (t == NodeType.selection_set)) [
        | inl e ↦
            rw (e, process_field_selection, collect_field_nodes)
              (process_field_nodes-IsSafe (selected_fields x ns) (selected_fields-AreSafe ns) parent
                path s i)
        | inr e ↦
            rw (e, process_field_selection, collect_field_nodes)
              (process_field_nodes-IsSafe [] refl parent path s i)
      ]
