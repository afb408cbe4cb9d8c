-- ===== src/Supervisor/Restart/Backoff.antt =====
-- The delay before a restart (src/edge_runtime/process/supervisor_impl.cpp).
use Prim.Native.Nat.{min}
use edge_runtime.Common.{
  ltb, Bool-cases, u64_max, ℕ, zero, suc, ◌-◌, ◌*◌, ◌/◌, ◌%◌, ◌^◌, ◌≤◌, ◌<◌, ◌≡◌, sym, ap, ◌∙◌, inl,
  inr, true, false, arith,
}
use edge_runtime.Supervisor.Restart.{
  RestartOptions, Failures, ms_to_ns, backoff_rounds, cap_of, capped_delay, backoff_delay_ns,
}
use native.Mathlib.Nat.{
  pow-zero, pow-suc, mul_comm, mul_assoc, one-le-pow, min-eq_left, min-eq_right, mul-le-mul_left,
  le-div_iff_mul-le, div-lt_iff_lt-mul,
}

pow_shift : (d m n : ℕ) → d * m ^ suc n ≡ d * m * m ^ n
pow_shift d m n = ap (λ x. d * x) (pow-suc m n ∙ mul_comm (m ^ n) m) ∙ sym (mul_assoc d m (m ^ n))

scaled_up : (d m n : ℕ) → 0 < m → d ≤ d * m ^ n
scaled_up d m n p = omega (arith, mul-le-mul_left d (one-le-pow n m p))

both_capped : (a b c : ℕ) → c ≤ a → c ≤ b → min a c ≡ min b c
both_capped a b c h k = min-eq_right h ∙ sym (min-eq_right k)

over : (d capped m : ℕ) → 0 < m → ltb (capped / m) d ≡ true → capped ≤ d * m
over d capped m p e =
    let h : capped / m < d = ground (arith, e) in
    let k : capped < d * m = (div-lt_iff_lt-mul p).0 h in omega (arith, k)

fits :
    (d capped m : ℕ)
    → 0 < m
    → capped ≤ u64_max
    → ltb (capped / m) d ≡ false
    → d * m % 2 ^ 64 ≡ d * m
fits d capped m p l e =
    let h : d * m ≤ capped = (le-div_iff_mul-le p).0 (ground (arith, e)) in omega (arith, h, l)

backoff_rounds-min :
    (n capped m d : ℕ)
    → 0 < m
    → capped ≤ u64_max
    → min (backoff_rounds n capped m d) capped ≡ min (d * m ^ n) capped
unfolding backoff_rounds
backoff_rounds-min zero capped m d p l =
    ap (λ x. min x capped) (sym (ap (λ x. d * x) (pow-zero m) ∙ omega arith))
backoff_rounds-min (suc n) capped m d p l = elim (Bool-cases (ltb d capped)) [
  | inr full ↦
      let h : capped ≤ d = ground (arith, full) in
      rw full (both_capped d (d * m ^ suc n) capped h (omega (arith, scaled_up d m (suc n) p, h)))
  | inl below ↦ elim (Bool-cases (ltb (capped / m) d)) [
    | inl last ↦
        rw (below, last, pow_shift d m n)
          (both_capped capped (d * m * m ^ n) capped (omega arith)
            (omega (arith, scaled_up (d * m) m n p, over d capped m p last)))
    | inr further ↦
        rw (below, further, pow_shift d m n, fits d capped m p l further)
          (backoff_rounds-min n capped m (d * m) p l)
  ]
]

cap_of-le : (options : RestartOptions) → cap_of options ≤ u64_max
unfolding cap_of ms_to_ns
cap_of-le options = ground arith

capped_delay-min : (capped d : ℕ) → capped_delay capped d ≡ min d capped
unfolding capped_delay
capped_delay-min capped d = elim (Bool-cases (ltb capped d)) [
  | inl over ↦ let h : capped ≤ d = ground (arith, over) in rw over (sym (min-eq_right h))
  | inr within ↦ let h : d ≤ capped = ground (arith, within) in rw within (sym (min-eq_left h))
]

-- The delay before a restart is the initial delay, multiplied once for every failure after the first,
-- or the cap where that is less: the loop of the code, with its wrap-around, gives the exact value.
pub backoff_delay_ns-eq :
    (options : RestartOptions) (f : Failures)
    → 0 < options.multiplier
    → backoff_delay_ns options f
      ≡ min
          (ms_to_ns options.initial_delay * options.multiplier ^ (f.consecutive_failures - 1))
          (cap_of options)
unfolding backoff_delay_ns
backoff_delay_ns-eq options f p =
    capped_delay-min (cap_of options) _
    ∙ backoff_rounds-min (f.consecutive_failures - 1) (cap_of options) options.multiplier
        (ms_to_ns options.initial_delay) p (cap_of-le options)
