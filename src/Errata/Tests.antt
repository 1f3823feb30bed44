-- ===== src/Errata/Tests.antt =====
-- A definition for one package in two releases.
use albs_web_server.Prelude.{String, Bool, false, [], ◌∷◌, ◌==◌, string_eq, ◌≡◌, refl}
use albs_web_server.Errata.{Criterion, Criteria, node, no_child, child, give_to_parent, simplify}
use albs_web_server.Errata.Meaning.{node_holds, NoEmpty, simplify-node_holds}

abbrev test : String → Criterion
test ref = record { ref = ref; comment = "" }

abbrev criteria : Criteria
criteria = node "AND" (test "distribution" ∷ []) (
    child (node "OR" [] (child (node "AND" (test "release" ∷ []) no_child) no_child))
      (child (node "OR" (test "version" ∷ test "signature" ∷ []) no_child) no_child))

abbrev simplified : Criteria
simplified =
    node "AND" (test "distribution" ∷ test "release" ∷ [])
      (child (node "OR" (test "version" ∷ test "signature" ∷ []) no_child) no_child)

simplify-criteria : (simplify false criteria).0 ≡ simplified
unfolding simplify give_to_parent
simplify-criteria = refl

abbrev holds : Criterion → Bool
holds c = c.ref == "release"

simplify-node_holds_example :
    node_holds holds (simplify false criteria).0 ≡ node_holds holds criteria
unfolding NoEmpty
simplify-node_holds_example =
    simplify-node_holds holds criteria (refl, ((refl, (tt, tt)), (refl, (tt, tt))))
