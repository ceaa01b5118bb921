-- ===== src/Tests/Router.antt =====
-- Gin's middlewares in memory.
use Prim.Native.String.{String}
use turl.Base.{List, [], ◌∷◌, ◌++◌}
use turl.Routing.{Mark, Registration, pprof, use_root, route_root, group, route_group}
use turl.Routing.Limits.{used}

-- The middlewares of the last group, from those of the engine and of the group so far.
group_marks : List Mark → List Mark → List Registration → List Mark
group_marks engine current [] = current
group_marks engine current (use_root ms ∷ rs) = group_marks (engine ++ ms) current rs
group_marks engine current (group prefix ms ∷ rs) = group_marks engine (engine ++ ms) rs
group_marks engine current (r ∷ rs) = group_marks engine current rs

chain_at : List Registration → Registration → List Mark
chain_at pre (route_root method path t) = used pre
chain_at pre (route_group method path t) = group_marks [] [] pre
chain_at pre pprof = used pre
chain_at pre r = []
