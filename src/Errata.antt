-- ===== src/Errata.antt =====
-- alws/crud/errata.py: the criteria of an OVAL definition, which CriteriaNode simplifies. A
-- dictionary of criteria has an operator, criterions and criteria again; Python's `None` for the
-- parent of the outermost one is `false` here.
pub mod Meaning
mod Tests
use albs_web_server.Prelude.{
  ℕ, String, Bool, true, false, not, List, [], ◌∷◌, ◌++◌, length, is_empty, nat_beq, if◌then◌else◌,
  ◌&&◌,
}

pub record Criterion : Type 0 where
  pub ref : String
  pub comment : String

mutual
  pub data Criteria : Type 0 where
    node : (operator : String) (criterion : List Criterion) (criteria : Children) → Criteria

  pub data Children : Type 0 where
    no_child : Children
    child : Criteria → Children → Children

abbrev pub operator_of : Criteria → String
operator_of (node operator criterion criteria) = operator

abbrev pub criterion_of : Criteria → List Criterion
criterion_of (node operator criterion criteria) = criterion

abbrev pub has_children : Children → Bool
has_children no_child = false
has_children (child criteria rest) = true

-- Whether both lists are empty, which `simplify` returns.
abbrev pub is_empty_node : Criteria → Bool
is_empty_node (node operator criterion criteria) = is_empty criterion && not (has_children criteria)

-- The end of `simplify`, once the children are simplified: the node, and the criterion that it
-- gives to its parent, if it has one.
unfoldable pub give_to_parent :
    Bool → String → List Criterion → Children → Criteria × List Criterion
give_to_parent has_parent operator criterion criteria =
    if has_parent && (nat_beq (length criterion) 1 && not (has_children criteria))
    then (node operator [] criteria, criterion)
    else (node operator criterion criteria, [])

unfoldable mutual
  pub simplify : Bool → Criteria → Criteria × List Criterion
  simplify has_parent (node operator criterion criteria) =
      let rest = simplify_children criteria in
      give_to_parent has_parent operator (criterion ++ rest.1) rest.0

  -- The loop over the children: those that are not empty afterwards, and what they give.
  pub simplify_children : Children → Children × List Criterion
  simplify_children no_child = (no_child, [])
  simplify_children (child criteria others) =
      let one = simplify true criteria in
      let rest = simplify_children others in
      (if is_empty_node one.0 then rest.0 else child one.0 rest.0, one.1 ++ rest.1)
