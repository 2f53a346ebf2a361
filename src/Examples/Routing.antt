-- ===== src/Examples/Routing.antt =====
-- The router at work.
use jumpway.Prelude.{true, false, List, [], ◌∷◌, none, some, Text, text_beq, codes, ◌≡◌, refl}
use jumpway.Router.{
  Route, home, route_for, RouterState, View, start, pop, navigate, canonicalise, commit,
  on_popstate, restore,
}
use jumpway.Router.Shown.{IsShown, RouterEvent, pops, navigates, run, run-IsShown, pop-keeps_route}

-- Texts without escapes and queries without parameters.
abbrev route_of : Text → Route
route_of = route_for (λ s. some s) (λ s. [])

abbrev fresh : RouterState
fresh = record {
  route = home;
  accepted = 0;
  expected = none;
  prompting = false;
  epoch = 0;
  listening = false;
  location = codes "#/stats";
  position = none;
  went = [];
}

abbrev idle : View
idle = record { dirty = false; busy = false; discards = false }

abbrev edited : View
edited = record { dirty = true; busy = false; discards = false }

-- A visit of the page `new`, and a way back that is refused there.
abbrev visit : List RouterEvent
visit = navigates idle (codes "#/new") false ∷ pops edited (codes "#/stats") (some 0) ∷ []

refused_back : (run route_of visit (start route_of fresh)).route.hash ≡ codes "#/new"
unfolding start route_for text_beq pop navigate canonicalise commit on_popstate restore
refused_back = refl

awaited_back : (run route_of visit (start route_of fresh)).expected ≡ some 1
unfolding start route_for text_beq pop navigate canonicalise commit on_popstate restore
awaited_back = refl

run-IsShown_example : IsShown (run route_of visit (start route_of fresh))
run-IsShown_example = run-IsShown route_of visit fresh

abbrev shown : RouterState
shown = record fresh { position = some 0; listening = true }

pop-keeps_route_example : (pop route_of edited (codes "#/stats") (some 3) shown).route ≡ shown.route
pop-keeps_route_example = pop-keeps_route route_of edited (codes "#/stats") (some 3) shown refl
