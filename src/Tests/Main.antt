-- ===== src/Tests/Main.antt =====
-- A GET on services that always succeed.
use http_runtime.Base.{
  ℕ, true, none, some, List, [], ◌∷◌, ◌≡◌, ◌↔◌, ◌≢◌, refl, ap, length, arith, Bytes, codes, ℤ, pos,
}
use http_runtime.Cli.Accepts.{says_none, says_status, status_assertion}
use http_runtime.Cli.Commands.{get_case, main}
use http_runtime.Cli.Main.{get_plan, main-AllPass}
use http_runtime.Engine.{run_plan}
use http_runtime.Engine.Verdict.{AllPass}
use http_runtime.Assertion.{Assertion}
use http_runtime.Tests.Engine.{calm}

abbrev words : List Bytes
words = codes "--expect-status" ∷ codes "200" ∷ []

abbrev said : List Assertion
said = status_assertion (codes "200") ∷ []

not_empty : codes "localhost" ≢ []
not_empty e = let f = ap length e in absurd (omega (arith, f))

main-AllPass_example :
    (code : ℤ) × (w' : ℕ) × (main calm
        (λ n. true)
        (λ path. none)
        (codes "fman" ∷ codes "get" ∷ codes "localhost" ∷ words)
        0
      ≡ some (code, w'))
    × ((code ≡ pos 0)
        ↔ AllPass
            (get_case (some (codes "localhost")) said ∷ [])
            (run_plan calm (get_plan (codes "localhost") said) 0).result.case_results)
main-AllPass_example =
    main-AllPass calm (λ n. true) (λ path. none) (codes "fman") (codes "localhost") words said [] 0
      (λ n. refl) not_empty (says_status _ _ _ _ says_none) (omega arith) (omega arith)
