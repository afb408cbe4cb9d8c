-- ===== src/Supervisor/Restart/Bound.antt =====
-- How often a supervisor restarts its child (src/edge_runtime/process/supervisor_impl.cpp).
use Prim.Native.Nat.{min}
use edge_runtime.Common.{
  leb, if◌then◌else◌, Bool-cases, length, u32_max, ℕ, suc, ◌+◌, ◌-◌, ◌%◌, ◌^◌, ◌≤◌, ◌<◌, ◌≡◌, sym,
  ap, ◌∙◌, inl, inr, false, List, [], ◌∷◌, arith,
}
use edge_runtime.Supervisor.Restart.{
  RestartOptions, Failures, ran_stable, forget_failures, add_failure, count_failure,
}
use native.Mathlib.Nat.{min-le_right, min-eq_left}

-- The restarts of a supervisor whose children are started and fail at these times
abbrev pub restarts : RestartOptions → List (ℕ × ℕ) → Failures → ℕ
restarts options [] f = 0
restarts options ((spawned, now) ∷ times) f =
    let r = count_failure options now (record f { last_spawn_mono_ns = spawned }) in
    let further = restarts options times r.1 in if r.0 then 0 else further + 1

-- No child runs long enough for the failures before it to be forgotten.
abbrev pub AllShort : RestartOptions → List (ℕ × ℕ) → Type 0
AllShort options [] = Unit
AllShort options ((spawned, now) ∷ times) =
    ((c : ℕ)
      → ran_stable options now (record { consecutive_failures = c; last_spawn_mono_ns = spawned })
        ≡ false)
    × AllShort options times

min-suc : (n a c : ℕ) → c < a → min n (a - (c + 1)) + 1 ≡ min (suc n) (a - c)
min-suc n a c l = omega (arith, l)

-- A supervisor whose children all fail early restarts them as often as the options allow, and no more
-- often: then it reports that the restarts are exhausted.
pub restarts-eq :
    (options : RestartOptions) (times : List (ℕ × ℕ)) (f : Failures)
    → options.max_restarts ≤ u32_max
    → f.consecutive_failures ≤ options.max_restarts
    → AllShort options times
    → restarts options times f ≡ min (length times) (options.max_restarts - f.consecutive_failures)
unfolding count_failure forget_failures add_failure
restarts-eq options [] f l k s = sym (min-eq_left (omega arith))
restarts-eq options ((spawned, now) ∷ times) f l k (short, s) =
    elim (Bool-cases (leb options.max_restarts f.consecutive_failures)) [
      | inl exhausted ↦
          let none_left : options.max_restarts - f.consecutive_failures ≡ 0 =
            ground (arith, exhausted) in
          rw (short f.consecutive_failures, exhausted)
            (omega (
              arith,
              none_left,
              min-le_right (suc (length times)) (options.max_restarts - f.consecutive_failures),
            ))
      | inr more ↦
          let left : f.consecutive_failures < options.max_restarts = ground (arith, more) in
          let g : Failures = record {
            consecutive_failures = f.consecutive_failures + 1;
            last_spawn_mono_ns = spawned;
          } in
          let small : (f.consecutive_failures + 1) % 2 ^ 32 ≡ f.consecutive_failures + 1 =
            omega (arith, left, l) in
          rw (short f.consecutive_failures, more, small)
            (ap (λ x. x + 1) (restarts-eq options times g l (omega (arith, left)) s)
              ∙ min-suc (length times) options.max_restarts f.consecutive_failures left)
    ]
