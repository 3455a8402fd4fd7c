-- ===== src/Driver/Tool.antt =====
-- The arguments of guest/pcie-vip/user/pcie-vip-run.c and what it asks of the driver. The options come
-- from `getopt_long`; a number is what `strtoul` makes of the text, `none` where the tool sees an error.
pub mod InRange
use qemu_pcie_vip.Base.{
  ℕ, ◌≤◌, ◌≡◌, ◌∙◌, refl, sym, arith, List, [], ◌∷◌, Bool, true, false, not, ◌&&◌, ◌||◌, ◌==◌, ltb,
  Option, none, some, Bool-cases, inl, inr, if◌then◌else◌,
}
use qemu_pcie_vip.Driver.Run.{Config}

pub data Argument : Type 0 where
  length_arg iterations_arg : Option ℕ → Argument
  interactive_arg verbose_arg help_arg unknown_arg : Argument

pub record Settings : Type 0 where
  pub len : ℕ
  pub iterations : ℕ
  pub interactive : Bool
  pub verbose : Bool

-- Go on, or leave with this exit status.
pub data Parsed : Type 0 where
  proceed : Settings → Parsed
  leave : ℕ → Parsed

abbrev pub defaults : Settings
defaults = record { len = 64; iterations = 1; interactive = false; verbose = false }

-- The test of a number against its bounds, in an option and in `read_u32`.
unfoldable pub within : ℕ → ℕ → Option ℕ → Option ℕ
within low high none = none
within low high (some v) = if ltb v low || ltb high v then none else some v

unfoldable pub set_length : Option ℕ → Settings → Parsed
set_length none s = leave 2
set_length (some v) s = proceed (record s { len = v; verbose = true })

unfoldable pub set_iterations : Option ℕ → Settings → Parsed
set_iterations none s = leave 2
set_iterations (some v) s = proceed (record s { iterations = v; verbose = true })

unfoldable pub parse_arg : Argument → Settings → Parsed
unfolding within set_length set_iterations
parse_arg (length_arg v) s = set_length (within 1 4096 v) s
parse_arg (iterations_arg v) s = set_iterations (within 1 1024 v) s
parse_arg interactive_arg s = proceed (record s { interactive = true; verbose = true })
parse_arg verbose_arg s = proceed (record s { verbose = true })
parse_arg help_arg s = leave 0
parse_arg unknown_arg s = leave 2

unfoldable pub parse_args : List Argument → Settings → Parsed
unfolding parse_arg
parse_args [] s = proceed s
parse_args (a ∷ rest) s = elim (parse_arg a s) [
  | leave n ↦ leave n
  | proceed s₁ ↦ parse_args rest s₁
]

-- The two questions of the interactive mode, with the answers typed in.
unfoldable pub read_both : Option ℕ → Option ℕ → Settings → Parsed
read_both none n s = leave 2
read_both (some len) none s = leave 2
read_both (some len) (some n) s = proceed (record s { len = len; iterations = n })

unfoldable pub ask : Option ℕ → Option ℕ → Settings → Parsed
unfolding read_both within
ask len n s = if s.interactive then read_both (within 1 4096 len) (within 1 1024 n) s else proceed s

abbrev pub config_of : Settings → Config
config_of s = record {
  len = s.len;
  iterations = s.iterations;
  completed = 0;
  last_status = 0;
  elapsed_ns = 0;
}

-- The configuration that is sent with `PCIE_VIP_IOC_RUN_CONFIG`; `none` is `PCIE_VIP_IOC_RUN`.
unfoldable pub run_request : Settings → Option Config
run_request s =
    if not s.verbose && (s.len == 64 && s.iterations == 1) then none else some (config_of s)
