-- ===== src/Driver/Run.antt =====
-- `pcie_vip_run_config` and `pcie_vip_ioctl` of guest/pcie-vip/driver/pcie_vip.c, over the calls of the
-- Linux kernel that they make. A result is the number of the error, 0 for success.
use qemu_pcie_vip.Base.{
  ℕ, zero, suc, ◌+◌, ◌-◌, ◌*◌, ◌/◌, ◌%◌, ◌^◌, List, Bool, true, false, not, ◌||◌, ◌==◌, ltb, Option,
  none, some, if◌then◌else◌,
}
use qemu_pcie_vip.Driver.Layout.{
  desc_size, cpl_size, zeros, descriptors, completions_good, run_pattern, same_bytes,
}

abbrev pub eio : ℕ
eio = 5

abbrev pub enomem : ℕ
enomem = 12

abbrev pub efault : ℕ
efault = 14

abbrev pub einval : ℕ
einval = 22

abbrev pub enotty : ℕ
enotty = 25

abbrev pub etimedout : ℕ
etimedout = 110

pub record Config : Type 0 where
  pub len : ℕ
  pub iterations : ℕ
  pub completed : ℕ
  pub last_status : ℕ
  pub elapsed_ns : ℕ

-- What the driver uses of the kernel while it runs. A coherent buffer is its bus address.
pub record Machine : Type 1 where
  pub State : Type 0
  pub dma_alloc : ℕ → State → Option ℕ × State
  pub dma_free : ℕ → ℕ → State → State
  pub lock : State → State
  pub unlock : State → State
  pub now_ns : State → ℕ × State
  pub store : ℕ → List ℕ → State → State
  pub load : ℕ → ℕ → State → List ℕ
  pub write_reg : ℕ → ℕ → State → State
  pub read_reg : ℕ → State → ℕ × State
  pub sleep : State → State
  pub reinit_completion : State → State
  -- `wait_for_completion_timeout`: whether the interrupt came.
  pub wait_irq : State → Bool × State
  pub copy_from_user : State → Option Config
  pub copy_to_user : Config → State → Bool × State

-- The four buffers of a run.
pub record Buffers : Type 0 where
  pub desc : ℕ
  pub cpl : ℕ
  pub src : ℕ
  pub dst : ℕ

abbrev pub or_default : ℕ → ℕ → ℕ
or_default v d = if v == 0 then d else v

-- The commands of the device file.
pub data Command : Type 0 where
  ioc_run ioc_run_config ioc_other : Command

module _ (mc : Machine) where
  -- The writes to the registers before the loop.
  unfoldable pub program : Buffers → mc.State → mc.State
  program b s =
      let s = mc.write_reg 0x1040 (b.desc % 2 ^ 32) s in
      let s = mc.write_reg 0x1044 (b.desc / 2 ^ 32) s in
      let s = mc.write_reg 0x1048 (b.cpl % 2 ^ 32) s in
      let s = mc.write_reg 0x104c (b.cpl / 2 ^ 32) s in
      let s = mc.write_reg 0x1050 2 s in mc.write_reg 0x105c 1 s

  -- The loop on DMA_STATUS, with `n` reads left: whether it reads 0.
  unfoldable pub poll_status : ℕ → mc.State → Bool × mc.State
  poll_status zero s = (false, s)
  poll_status (suc n) s =
      let (status, s₁) = mc.read_reg 0x1058 s in
      elim (status == 0) [ true ↦ (true, s₁) | false ↦ poll_status n (mc.sleep s₁) ]

  -- The tests behind the interrupt.
  unfoldable pub verify : ℕ → Buffers → mc.State → ℕ
  unfolding same_bytes run_pattern completions_good
  verify len b s =
      if not (same_bytes (mc.load b.dst len s) (run_pattern len 0))
      then eio
      else if not (completions_good (mc.load b.cpl (2 * cpl_size) s) len)
      then eio
      else 0

  -- What an iteration does behind the loop on the status.
  unfoldable pub submit : ℕ → Buffers → ℕ → Bool × mc.State → ℕ × mc.State
  unfolding verify
  submit len b tail (false, s) = (etimedout, s)
  submit len b tail (true, s) =
      let (rang, s) = mc.wait_irq (mc.write_reg 0x1054 tail (mc.reinit_completion s)) in
      elim rang [ false ↦ (etimedout, s) | true ↦ (verify len b s, s) ]

  unfoldable pub fill : ℕ → Buffers → mc.State → mc.State
  unfolding run_pattern
  fill len b s =
      mc.store b.src (run_pattern len 0)
        (mc.store b.dst (zeros len) (mc.store b.cpl (zeros (2 * cpl_size)) s))

  -- An iteration whose tail is `tail`.
  unfoldable pub iterate : ℕ → Buffers → ℕ → mc.State → ℕ × mc.State
  iterate len b tail s = submit len b tail (poll_status 50 (fill len b s))

  -- The loop from `iter` on, with `n` iterations left: the result, and how many are completed.
  unfoldable pub run_loop : ℕ → ℕ → ℕ → Buffers → mc.State → ℕ × ℕ × mc.State
  unfolding iterate
  run_loop zero iter len b s = (0, iter, s)
  run_loop (suc n) iter len b s =
      let (ret, s₁) = iterate len b (2 * (iter + 1)) s in
      elim (ret == 0) [ false ↦ (ret, iter, s₁) | true ↦ run_loop n (iter + 1) len b s₁ ]

  -- From the lock to the unlock.
  unfoldable pub locked_run : ℕ → ℕ → Buffers → Config → mc.State → ℕ × Config × mc.State
  unfolding program run_loop descriptors
  locked_run len n b cfg s =
      let (start, s) = mc.now_ns (mc.lock s) in
      let s = program b (mc.store b.desc (descriptors b.src b.dst len) s) in
      let (ret, done, s) = run_loop n 0 len b s in
      let (end, s) = mc.now_ns s in
      let cfg' : Config = record cfg {
        completed = done;
        last_status = ret;
        elapsed_ns = (end + 2 ^ 64 - start) % 2 ^ 64;
      } in
      (ret, cfg', mc.unlock s)

  unfoldable pub free_if : ℕ → Option ℕ → mc.State → mc.State
  free_if size none s = s
  free_if size (some a) s = mc.dma_free size a s

  abbrev pub all_four : Option ℕ → Option ℕ → Option ℕ → Option ℕ → Option Buffers
  all_four (some a) (some b) (some c) (some e) =
      some (record { desc = a; cpl = b; src = c; dst = e })
  all_four (some a) (some b) (some c) none = none
  all_four (some a) (some b) none dst = none
  all_four (some a) none src dst = none
  all_four none cpl src dst = none

  -- Behind the test of the allocations.
  unfoldable pub run_or_fail : ℕ → ℕ → Option Buffers → Config → mc.State → ℕ × Config × mc.State
  unfolding locked_run
  run_or_fail len n none cfg s = (enomem, cfg, s)
  run_or_fail len n (some b) cfg s = locked_run len n b cfg s

  unfoldable pub run_config : Config → mc.State → ℕ × Config × mc.State
  unfolding run_or_fail free_if
  run_config cfg s =
      let len = or_default cfg.len 64 in
      let n = or_default cfg.iterations 1 in
      elim (ltb 4096 len || ltb 1024 n) [
        | true ↦ (einval, cfg, s)
        | false ↦
            let (desc, s₁) = mc.dma_alloc (2 * desc_size) s in
            let (cpl, s₂) = mc.dma_alloc (2 * cpl_size) s₁ in
            let (src, s₃) = mc.dma_alloc len s₂ in
            let (dst, s₄) = mc.dma_alloc len s₃ in
            let (ret, cfg', s₅) = run_or_fail len n (all_four desc cpl src dst) cfg s₄ in
            (
              ret,
              cfg',
              free_if (2 * desc_size) desc
                  (free_if (2 * cpl_size) cpl (free_if len src (free_if len dst s₅))),
            )
      ]

  -- `pcie_vip_run`
  unfoldable pub run_default : mc.State → ℕ × mc.State
  unfolding run_config
  run_default s =
      let cfg : Config = record {
        len = 64;
        iterations = 1;
        completed = 0;
        last_status = 0;
        elapsed_ns = 0;
      } in
      let (ret, _, s₁) = run_config cfg s in (ret, s₁)

  unfoldable pub ioctl : Command → mc.State → ℕ × mc.State
  unfolding run_default run_config
  ioctl ioc_run s = run_default s
  ioctl ioc_run_config s = elim (mc.copy_from_user s) [
    | none ↦ (efault, s)
    | some cfg ↦
        let (ret, cfg', s₁) = run_config cfg s in
        let (copied, s₂) = mc.copy_to_user cfg' s₁ in (if copied then ret else efault, s₂)
  ]
  ioctl ioc_other s = (enotty, s)
