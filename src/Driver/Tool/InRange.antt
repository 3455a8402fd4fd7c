-- ===== src/Driver/Tool/InRange.antt =====
-- What guest/pcie-vip/user/pcie-vip-run.c asks of the driver of guest/pcie-vip/driver/pcie_vip.c.
use qemu_pcie_vip.Base.{
  ap, none, some, if◌then◌else◌, ℕ, not, ◌&&◌, ◌⊎◌, ◌==◌, Bool, Bool-cases, inl, inr, ◌≤◌, ◌≡◌,
  subst, arith, List, [], ◌∷◌, true, false, ◌||◌, ltb, Option,
}
use qemu_pcie_vip.Driver.Run.{Config, or_default}
use qemu_pcie_vip.Driver.Tool.{
  Argument, length_arg, iterations_arg, interactive_arg, verbose_arg, help_arg, unknown_arg,
  Settings, Parsed, proceed, leave, defaults, within, set_length, set_iterations, parse_arg,
  parse_args, read_both, ask, run_request, config_of,
}

abbrev pub InRange : Settings → Type 0
InRange s = (1 ≤ s.len) × (s.len ≤ 4096) × (1 ≤ s.iterations) × (s.iterations ≤ 1024)

-- Settings that are gone on with are in range.
abbrev pub Sound : Parsed → Type 0
Sound (proceed s) = InRange s
Sound (leave n) = Unit {0}

abbrev Within : ℕ → ℕ → Option ℕ → Type 0
Within low high none = Unit {0}
Within low high (some v) = (low ≤ v) × (v ≤ high)

within-Within : (low high : ℕ) (o : Option ℕ) → Within low high (within low high o)
unfolding within
within-Within low high none = tt
within-Within low high (some v) = elim (Bool-cases (ltb v low || ltb high v)) [
  | inl out ↦ rw (out, within) tt
  | inr fits ↦ rw (fits, within) (ground arith, ground arith)
]

set_length-Sound :
    (o : Option ℕ) (s : Settings) → Within 1 4096 o → InRange s → Sound (set_length o s)
unfolding set_length
set_length-Sound none s w r = tt
set_length-Sound (some v) s w r = (w.0, w.1, r.2, r.3)

set_iterations-Sound :
    (o : Option ℕ) (s : Settings) → Within 1 1024 o → InRange s → Sound (set_iterations o s)
unfolding set_iterations
set_iterations-Sound none s w r = tt
set_iterations-Sound (some v) s w r = (r.0, r.1, w.0, w.1)

parse_arg-Sound : (a : Argument) (s : Settings) → InRange s → Sound (parse_arg a s)
unfolding parse_arg
parse_arg-Sound (length_arg o) s r = set_length-Sound (within 1 4096 o) s (within-Within 1 4096 o) r
parse_arg-Sound (iterations_arg o) s r =
    set_iterations-Sound (within 1 1024 o) s (within-Within 1 1024 o) r
parse_arg-Sound interactive_arg s r = r
parse_arg-Sound verbose_arg s r = r
parse_arg-Sound help_arg s r = tt
parse_arg-Sound unknown_arg s r = tt

parse_args-Sound : (args : List Argument) (s : Settings) → InRange s → Sound (parse_args args s)
unfolding parse_args
parse_args-Sound [] s r = r
parse_args-Sound (a ∷ rest) s r = go (parse_args-Sound rest) (parse_arg a s) (parse_arg-Sound a s r)
  where
    go :
        ((s₁ : Settings) → InRange s₁ → Sound (parse_args rest s₁))
        → (p : Parsed) → Sound p
        → Sound (elim p [ leave n ↦ leave n | proceed s₁ ↦ parse_args rest s₁ ])
    go later (proceed s₁) ok = later s₁ ok
    go later (leave n) ok = tt

read_both-Sound :
    (len n : Option ℕ) (s : Settings)
    → Within 1 4096 len
    → Within 1 1024 n
    → Sound (read_both len n s)
unfolding read_both
read_both-Sound none n s a b = tt
read_both-Sound (some len) none s a b = tt
read_both-Sound (some len) (some n) s a b = (a.0, a.1, b.0, b.1)

either : (p q : Parsed) (b : Bool) → Sound p → Sound q → Sound (if b then p else q)
either p q true x y = x
either p q false x y = y

ask-Sound : (len n : Option ℕ) (s : Settings) → InRange s → Sound (ask len n s)
unfolding ask
ask-Sound len n s r =
    either _ _ s.interactive
      (read_both-Sound (within 1 4096 len) (within 1 1024 n) s (within-Within 1 4096 len)
        (within-Within 1 1024 n))
      r

-- Whatever the options and the answers that are typed in, the tool asks for a run without a
-- configuration, at the driver's defaults, or with one that passes the driver's test of its arguments
-- and in which no default of the driver takes the place of a setting.
pub run_request_cases :
    (args : List Argument) (len n : Option ℕ) (s s' : Settings)
    → parse_args args defaults ≡ proceed s
    → ask len n s ≡ proceed s'
    → ((run_request s' ≡ none) × (s'.len ≡ 64) × (s'.iterations ≡ 1))
      ⊎ ((c : Config) × (run_request s' ≡ some c)
          × ((ltb 4096 (or_default c.len 64) || ltb 1024 (or_default c.iterations 1)) ≡ false)
          × (or_default c.len 64 ≡ s'.len)
          × (or_default c.iterations 1 ≡ s'.iterations))
unfolding run_request
run_request_cases args len n s s' parsed asked =
    let r : InRange s =
      subst Sound parsed
        (parse_args-Sound args defaults (omega arith, omega arith, omega arith, omega arith)) in
    let (l₁, l₂, n₁, n₂) : InRange s' = subst Sound asked (ask-Sound len n s r) in
    let plain = not s'.verbose && (s'.len == 64 && s'.iterations == 1) in
    elim (Bool-cases plain) [
      | inl bare ↦ inl (
        ap (λ (b : Bool). if b then none else some (config_of s')) bare,
        ground arith,
        ground arith,
      )
      | inr given ↦ inr (
        _,
        ap (λ (b : Bool). if b then none else some (config_of s')) given,
        ground arith,
        ground arith,
        ground arith,
      )
    ]
