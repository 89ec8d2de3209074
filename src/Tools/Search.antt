-- ===== src/Tools/Search.antt =====
-- The depth-first search of `buildWorkspaceGraph` in tools/workspace-packages.js, which refuses a cycle. Its depth is
-- the fuel.
pub mod Explored
pub mod Finished
pub mod Acyclic
use cap_nodejs.Prelude.{
  ℕ, zero, suc, String, none, some, List, [], ◌∷◌, if◌then◌else◌, str_eq, or_default,
}
use cap_nodejs.JsMap.{JsMap, get, set}
use cap_nodejs.Tools.Names.{sort}

-- `map.get(name)` of a map of sets that has the name
abbrev pub entry : String → JsMap (List String) → List String
entry name m = or_default (get name m) []

pub data Mark : Type 0 where
  visiting finished : Mark

-- The `state` and the `stack` of the search; the stack's last name first
pub record Search : Type 0 where
  pub state : JsMap Mark
  pub stack : List String

abbrev pub unvisited : Search
unvisited = record { state = []; stack = [] }

-- How a call of `visit` ends
pub data Visit : Type 0 where
  visited : Search → Visit
  cycle : List String → Visit
  exhausted : Visit

-- `[...stack.slice(stack.indexOf(name)), name]`, of a stack with its last name first
unfoldable pub cycle_from : String → List String → List String → List String
cycle_from name [] above = above
cycle_from name (top ∷ stack) above =
    if str_eq top name then top ∷ above else cycle_from name stack (top ∷ above)

abbrev pub popped : List String → List String
popped [] = []
popped (top ∷ stack) = stack

-- What follows a call of `visit`, which may throw
abbrev pub and_then : Visit → (Search → Visit) → Visit
and_then (Visit.visited s) next = next s
and_then (Visit.cycle path) next = Visit.cycle path
and_then Visit.exhausted next = Visit.exhausted

-- A loop that visits each name
unfoldable pub visit_each : (String → Search → Visit) → List String → Search → Visit
visit_each visit_one [] s = Visit.visited s
visit_each visit_one (name ∷ names) s = and_then (visit_one name s) (visit_each visit_one names)

abbrev pub entered : String → Search → Search
entered name s = record { state = set name visiting s.state; stack = name ∷ s.stack }

abbrev pub left : String → Search → Search
left name s = record { state = set name finished s.state; stack = popped s.stack }

module _ (dependencies : JsMap (List String)) where
  -- `visit`
  unfoldable pub visit : ℕ → String → Search → Visit
  visit zero name s = Visit.exhausted
  visit (suc depth) name s = elim (get name s.state) [
    | none ↦
        and_then (visit_each (visit depth) (sort (entry name dependencies)) (entered name s))
          (λ t. Visit.visited (left name t))
    | some visiting ↦ Visit.cycle (cycle_from name s.stack (name ∷ []))
    | some finished ↦ Visit.visited s
  ]
