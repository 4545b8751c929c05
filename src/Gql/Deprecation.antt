-- ===== src/Gql/Deprecation.antt =====
-- backend/isched_GqlExecutor.cpp: `check_deprecated`. Where the source returns a pair of a flag and
-- a JSON value, the model returns the JSON value (null or a text) if the flag is set.
use isched.Common.{
  ◌-◌, ◌≡◌, Bool, false, ◌&&◌, ◌||◌, List, [], ◌∷◌, Option, none, some, ◌==◌, Text, codes, text_eq,
  nat_eq, if◌then◌else◌, leb, length, take, drop, any, refl, arith, is_some,
}
use isched.Ast.{NodeType, type_eq, Node, get_node_type, has_content, string_view, children, to_list}
use isched.Gql.TypeRefs.{quote}

-- The text of the first child that is a name with content.
unfoldable pub directive_name : List Node → Text
directive_name [] = []
directive_name (c ∷ cs) =
    if get_node_type c == NodeType.name && has_content c then string_view c else directive_name cs

abbrev pub opens_quoted : Text → Bool
opens_quoted [] = false
opens_quoted (c ∷ s) = c == quote

-- A quoted text loses its first and last character.
unfoldable pub argument_text : Text → Text
argument_text s = if leb 2 (length s) && opens_quoted s then take (length s - 2) (drop 1 s) else s

pub record DirectiveArgument : Type 0 where
  pub arg_name : Text
  pub arg_val : Option Text

abbrev pub is_argument_value : NodeType → Bool
is_argument_value t = t == NodeType.string_value || t == NodeType.value_const

unfoldable pub read_argument : List Node → DirectiveArgument → DirectiveArgument
read_argument [] a = a
read_argument (av ∷ avs) a =
    if get_node_type av == NodeType.name && has_content av
    then read_argument avs (record a { arg_name = string_view av })
    else if is_argument_value (get_node_type av)
    then read_argument avs (record a { arg_val = some (argument_text (string_view av)) })
    else read_argument avs a

abbrev no_argument : DirectiveArgument
no_argument = record { arg_name = []; arg_val = none }

-- Each argument that is named `reason` overwrites the one before it.
unfoldable pub read_reason : List Node → Option Text → Option Text
read_reason [] reason = reason
read_reason (arg ∷ args) reason =
    let a = read_argument (to_list (children arg)) no_argument in
    if a.arg_name == codes "reason" then read_reason args a.arg_val else read_reason args reason

abbrev pub is_arguments : NodeType → Bool
is_arguments t = t == NodeType.arguments_const || t == NodeType.arguments

unfoldable pub directive_reason : List Node → Option Text → Option Text
directive_reason [] reason = reason
directive_reason (ac ∷ acs) reason =
    if is_arguments (get_node_type ac)
    then directive_reason acs (read_reason (to_list (children ac)) reason)
    else directive_reason acs reason

unfoldable pub process_directive : Node → Option (Option Text)
process_directive dir =
    if directive_name (to_list (children dir)) == codes "deprecated"
    then some (directive_reason (to_list (children dir)) none)
    else none

unfoldable pub first_directive : List Node → Option (Option Text)
first_directive [] = none
first_directive (dir ∷ dirs) =
    let rest = first_directive dirs in
    if get_node_type dir == NodeType.directive_const
    then elim (process_directive dir) [ some reason ↦ some reason | none ↦ rest ]
    else rest

abbrev or_else : Option (Option Text) → Option (Option Text) → Option (Option Text)
or_else none o = o
or_else (some r) o = some r

unfoldable pub check_children : List Node → Option (Option Text)
check_children [] = none
check_children (c ∷ cs) =
    let rest = check_children cs in
    if get_node_type c == NodeType.directive_const
    then or_else (process_directive c) rest
    else if get_node_type c == NodeType.directives_const
    then or_else (first_directive (to_list (children c))) rest
    else rest

unfoldable pub check_deprecated : Node → Option (Option Text)
check_deprecated n = check_children (to_list (children n))

-- The directives of a definition: those among its children and those inside its lists of directives.
abbrev pub is_directive : Node → Bool
is_directive d = get_node_type d == NodeType.directive_const

abbrev pub names_deprecated : Node → Bool
names_deprecated d = directive_name (to_list (children d)) == codes "deprecated"

abbrev pub holds_deprecated : Node → Bool
holds_deprecated c =
    is_directive c && names_deprecated c
    || get_node_type c == NodeType.directives_const
      && any (λ d. is_directive d && names_deprecated d) (to_list (children c))

first_directive_lem :
    (ds : List Node)
    → is_some (first_directive ds) ≡ any (λ d. is_directive d && names_deprecated d) ds
unfolding first_directive process_directive
first_directive_lem [] = refl
first_directive_lem (d ∷ ds) = ground (arith, first_directive_lem ds)

check_children_lem : (cs : List Node) → is_some (check_children cs) ≡ any holds_deprecated cs
unfolding check_children process_directive
check_children_lem [] = refl
check_children_lem (c ∷ cs) =
    ground (arith, check_children_lem cs, first_directive_lem (to_list (children c)))

-- A definition is reported as deprecated exactly when one of its children is a directive named
-- `deprecated`, or is a list of directives with one of that name in it.
pub check_deprecated-directives :
    (n : Node) → is_some (check_deprecated n) ≡ any holds_deprecated (to_list (children n))
unfolding check_deprecated
check_deprecated-directives n = check_children_lem (to_list (children n))
