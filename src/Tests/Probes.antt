-- ===== src/Tests/Probes.antt =====
-- The probe of the guest driver over a kernel that keeps books, and the tool that starts a run.
use qemu_pcie_vip.Base.{
  [], ◌∷◌, ℕ, zero, suc, ◌+◌, ◌≡◌, ◌⊎◌, refl, Bool, true, false, ◌==◌, Option, none, some, drop,
  if◌then◌else◌,
}
use qemu_pcie_vip.Driver.Balance.{taken}
use qemu_pcie_vip.Driver.Tool.{
  length_arg, verbose_arg, proceed, leave, defaults, within, set_length, parse_arg, parse_args,
  read_both, ask,
}
use qemu_pcie_vip.Driver.Probe.{
  Bus, release_if, err_vectors, err_dma, with_buffers, with_vectors, with_mask, choose_mask,
  with_regions, with_device, with_memory, probe, remove,
}
use qemu_pcie_vip.Driver.Probe.Books.{Held, nothing, Books}
use qemu_pcie_vip.Driver.Probe.Release.{HasFailed, HasBound, probe-remove}

-- What is held, the next address, and how many of the calls that can fail still succeed.
record Kernel : Type 0 where
  held : Held
  next : ℕ
  left : ℕ

abbrev granted : ℕ → ℕ → Option ℕ
granted zero a = none
granted (suc n) a = some a

abbrev spent : ℕ → ℕ
spent zero = zero
spent (suc n) = n

abbrev lucky : ℕ → Bool
lucky zero = false
lucky (suc n) = true

abbrev result : ℕ → ℕ
result n = if lucky n then 0 else 5

abbrev with_held : Held → Kernel → Kernel
with_held h k = record k { held = h; left = spent k.left }

-- A call that takes what `f` adds.
abbrev take_it : (Held → Held) → Kernel → ℕ × Kernel
take_it f k = (result k.left, with_held (if result k.left == 0 then f k.held else k.held) k)

abbrev kernel : Bus
kernel = record {
  State = Kernel;
  kzalloc = λ k. (lucky k.left, with_held k.held k);
  enable_device = λ k. (result k.left, with_held k.held k);
  iomap_regions = λ k. (result k.left, with_held k.held k);
  has_bar0 = λ k. true;
  set_master = λ k. k;
  set_mask = λ n k. (if n == 64 then 5 else 0, k);
  alloc_vectors = take_it (λ h. record h { vectors = true });
  request_irq = take_it (λ h. record h { irq = true });
  dma_alloc = λ size k. (
    granted k.left k.next,
    record {
      held = record k.held { live = taken size (granted k.left k.next) k.held.live };
      next = k.next + 0x1000;
      left = spent k.left;
    },
  );
  dma_free = λ size a k. record k { held = record k.held { live = drop 1 k.held.live } };
  misc_register = take_it (λ h. record h { file = true });
  free_vectors = λ k. record k { held = record k.held { vectors = false } };
  free_irq = λ k. record k { held = record k.held { irq = false } };
  misc_deregister = λ k. record k { held = record k.held { file = false } };
}

books : Books kernel
books = record {
  held = λ k. k.held;
  of_kzalloc = λ k. refl;
  of_enable = λ k. refl;
  of_iomap = λ k. refl;
  of_master = λ k. refl;
  of_mask = λ n k. refl;
  of_vectors = λ k. refl;
  of_request = λ k. refl;
  of_register = λ k. refl;
  of_alloc = λ size k. refl;
  of_free = λ size a rest k e. λ j. record k.held { live = drop 1 (e j) };
  of_free_vectors = λ k. refl;
  of_free_irq = λ k. refl;
  of_deregister = λ k. refl;
}

-- Eight calls succeed in a probe that binds the device.
abbrev fresh : ℕ → Kernel
fresh n = record { held = nothing; next = 0x1000; left = n }

binds : (probe kernel (fresh 8)).1 ≡ some (record { cmd_dma = 0x1000; completion_dma = 0x2000 })
unfolding probe with_memory with_device with_regions choose_mask with_mask with_vectors with_buffers
binds = refl

-- Without memory for the second buffer; the interrupt stays.
fails :
    probe kernel (fresh 6)
    ≡ (12, none, record { held = record nothing { irq = true }; next = 0x3000; left = 0 })
unfolding probe with_memory with_device with_regions choose_mask with_mask with_vectors with_buffers
    err_dma err_vectors release_if
fails = refl

probe-remove_example :
    let r = probe kernel (fresh 8) in
    HasFailed kernel books r
    ⊎ ((b : HasBound kernel books r) × ((remove kernel b.0 r.2).held ≡ nothing))
unfolding books
probe-remove_example = probe-remove kernel books (fresh 8) refl

-- `-v -l 4096` is taken, `-l 4097` is not; a question that is answered out of range ends the tool.
options_taken :
    parse_args (verbose_arg ∷ length_arg (some 4096) ∷ []) defaults
    ≡ proceed (record defaults { len = 4096; verbose = true })
unfolding parse_args parse_arg within set_length
options_taken = refl

option_refused : parse_args (length_arg (some 4097) ∷ []) defaults ≡ leave 2
unfolding parse_args parse_arg within set_length
option_refused = refl

answer_refused : ask (some 8) (some 0) (record defaults { interactive = true }) ≡ leave 2
unfolding ask within read_both
answer_refused = refl
