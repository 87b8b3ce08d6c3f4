-- ===== src/Server/Events/Tests.antt =====
-- The theorem on server.EventBus at a subscriber whose buffer is too small.
use xrpl_confluence.Prelude.{String, List, [], ◌∷◌, ◌++◌, nat_eq}
use xrpl_confluence.Prelude.Dict.{lookup}
use xrpl_confluence.Server.Events.{Op, published, subscribed, received, after}
use xrpl_confluence.Server.Events.Delivery.{Within, got, offered, buffer_of, Fits, after-IsServed}

abbrev ops : List (Op String)
ops = published "c" ∷ received 0 ∷ published "b" ∷ published "a" ∷ subscribed 1 ∷ []

after-IsServed_example :
    Within (got 0 ops ++ buffer_of (lookup 0 (after ops).subscribers)) (offered 0 ops)
    × Fits (lookup 0 (after ops).subscribers)
after-IsServed_example = after-IsServed 0 ops
