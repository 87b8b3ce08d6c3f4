-- ===== src/Finding/Divergence/Tests.antt =====
-- The theorems on finding.DivergenceOracle at a concrete snapshot.
use xrpl_confluence.Prelude.{◌≡◌, refl, none, List, [], ◌∷◌}
use xrpl_confluence.Prelude.Int.{pos}
use xrpl_confluence.Finding.Divergence.{DivergenceInput, DivergenceOracle, World, tick}
use xrpl_confluence.Finding.Divergence.Once.{tick_once}
use xrpl_confluence.Finding.Divergence.Agreeing.{tick_agreeing}

abbrev world : World
world = record { fetch = none; marshal = λ diff. none; now = 5; new_id = λ i. "f" }

abbrev oracle : DivergenceOracle
oracle = record { seen = [] }

abbrev forked : List DivergenceInput
forked =
    record { node = "rippled-0"; seq = pos 9; hash = "A" }
    ∷ record { node = "goxrpl-0"; seq = pos 9; hash = "B" }
    ∷ []

tick_once_example :
    tick world forked (tick world forked oracle).0 ≡ ((tick world forked oracle).0, [])
tick_once_example = tick_once world world forked oracle

abbrev agreeing : List DivergenceInput
agreeing =
    record { node = "rippled-0"; seq = pos 9; hash = "A" }
    ∷ record { node = "goxrpl-0"; seq = pos 9; hash = "A" }
    ∷ []

tick_agreeing_example : tick world agreeing oracle ≡ (oracle, [])
tick_agreeing_example = tick_agreeing (λ seq. "A") world agreeing oracle (refl, (refl, tt))
