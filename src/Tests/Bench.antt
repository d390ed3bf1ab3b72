-- ===== src/Tests/Bench.antt =====
-- The benchmark with two requests.
use http_runtime.Base.{true, ◌≤◌, ◌<◌, some, none, [], ◌∷◌, ◌≡◌, refl, codes, pos}
use http_runtime.RunPlan.{max_request_cases}
use http_runtime.Bench.{fill_plan, main}
use http_runtime.Bench.Filled.{bench_plan, fill_plan_lem}
use http_runtime.Tests.Engine.{calm}

no_arguments : main (λ n. true) calm (codes "bench" ∷ codes "2" ∷ []) 0 ≡ some (pos 0, 0)
unfolding main
no_arguments = refl

fill_plan_lem_example :
    (2 ≤ max_request_cases → fill_plan (λ n. true) 2 4 ≡ some (pos 0, bench_plan 2 4))
    × (max_request_cases < 2 → fill_plan (λ n. true) 2 4 ≡ none)
fill_plan_lem_example = fill_plan_lem (λ n. true) (λ n. refl) 2 4
