-- ===== src/Bench/Filled.antt =====
-- What `fill_plan` and `run_bench` of tools/bench_run_plan_parallel.c do, by the number of requests.
use http_runtime.Base.{
  ℕ, zero, suc, ◌+◌, ◌≤◌, ◌<◌, Bool, true, none, some, ltb, ◌≡◌, refl, ap, ◌∙◌, length, Bytes,
  codes, pos, arith, Bool-cases, inl, inr,
}
use http_runtime.RunPlan.{RunPlan, init_run_plan, max_request_cases}
use http_runtime.Bench.{
  strdup, bench_case, copies, delay_url, fill_cases, fill_plan, with_names, with_cases,
  bench_fields,
}

abbrev pub bench_plan : ℕ → ℕ → RunPlan
bench_plan request_count worker_count = record init_run_plan {
  cases = copies request_count (bench_case delay_url);
  worker_count = worker_count;
  default_timeout_ms = pos 10000;
  save_history = true;
  db_path = some (codes "bench_runner.db");
  collection_name = some (codes "BENCH");
}

module _ (malloc : ℕ → Bool) (ample : (n : ℕ) → malloc n ≡ true) where
  fill_cases-copies :
      (left i : ℕ)
      → i + left ≤ max_request_cases
      → fill_cases malloc left i ≡ some (pos 0, copies left (bench_case delay_url))
  unfolding fill_cases copies
  fill_cases-copies zero i h = refl
  fill_cases-copies (suc left) i h =
      let e : ltb i max_request_cases ≡ true = ground arith in
      rw (e, ample (length delay_url + 1), fill_cases-copies left (i + 1) (omega (arith, h))) refl

  fill_cases-none :
      (left i : ℕ)
      → i ≤ max_request_cases
      → max_request_cases < i + left
      → fill_cases malloc left i ≡ none
  unfolding fill_cases
  fill_cases-none zero i h k = absurd (omega (arith, h, k))
  fill_cases-none (suc left) i h k = elim (Bool-cases (ltb i max_request_cases)) [
    | inr e ↦ rw e refl
    | inl e ↦
        let l : i + 1 ≤ max_request_cases = ground arith in
        rw (e, ample (length delay_url + 1), fill_cases-none left (i + 1) l (omega (arith, k))) refl
  ]

  strdup-some : (s : Bytes) → strdup malloc s ≡ some s
  strdup-some s = rw (ample (length s + 1)) refl

  fill_plan-named :
      (n workers : ℕ)
      → fill_plan malloc n workers
        ≡ with_cases malloc
            (bench_fields malloc workers (some (codes "bench_runner.db")) (some (codes "BENCH")))
            (fill_cases malloc n 0)
  unfolding fill_plan
  fill_plan-named n workers =
      ap (λ path. with_names malloc n workers path (strdup malloc (codes "BENCH")))
        (strdup-some (codes "bench_runner.db"))
      ∙ ap (with_names malloc n workers (some (codes "bench_runner.db")))
          (strdup-some (codes "BENCH"))

  -- With memory, `fill_plan` makes a plan of that many equal cases when the array has room for
  -- them, and writes behind the array when it has not.
  pub fill_plan_lem :
      (request_count worker_count : ℕ)
      → (request_count ≤ max_request_cases
          → fill_plan malloc request_count worker_count
            ≡ some (pos 0, bench_plan request_count worker_count))
        × (max_request_cases < request_count → fill_plan malloc request_count worker_count ≡ none)
  fill_plan_lem n workers =
      let plan =
        bench_fields malloc workers (some (codes "bench_runner.db")) (some (codes "BENCH")) in
      (
        (λ h.
            fill_plan-named n workers
            ∙ ap (with_cases malloc plan) (fill_cases-copies n 0 (omega (arith, h)))),
        (λ h.
            fill_plan-named n workers
            ∙ ap (with_cases malloc plan) (fill_cases-none n 0 (omega arith) (omega (arith, h)))),
      )
