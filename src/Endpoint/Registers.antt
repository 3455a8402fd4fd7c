-- ===== src/Endpoint/Registers.antt =====
-- The register file of `SoftwareEndpointModel`: reads against writes, CSTS.RDY against CC.EN, and
-- refused accesses.
use qemu_pcie_vip.Base.{
  ℕ, zero, suc, ◌+◌, ◌/◌, ◌%◌, ◌^◌, ◌<◌, ◌≤◌, ◌≡◌, ◌⊎◌, ◌↔◌, inl, inr, refl, ap, ◌∙◌, arith, List,
  true, false, ◌==◌, length, if◌then◌else◌, Option, none, some,
}
use qemu_pcie_vip.Base.Bits.{bit_and-one}
use qemu_pcie_vip.Protocol.Types.{Header, StatusCode, success}
use qemu_pcie_vip.Protocol.Bytes.{get_u32}
use qemu_pcie_vip.Protocol.RoundTrip.Words.{u32_of_sum}
use qemu_pcie_vip.Endpoint.Defs.{
  Registers, ready_bit, write_register, read_register, read_result, read_length, value_bytes,
  cap_reg, cc_reg, csts_reg, aqa_reg, sq0_doorbell, capabilities,
}

value_bytes_u32 : (v : ℕ) → v < 2 ^ 32 → get_u32 (value_bytes 4 0 v) 0 ≡ v
unfolding get_u32 value_bytes
value_bytes_u32 v h =
    u32_of_sum (v / 1 % 256) (v / 256 % 256) (v / 65536 % 256) (v / 16777216 % 256) (omega arith)
      (omega arith) (omega arith) (omega arith)
    ∙ omega arith

length-value_bytes : (n i v : ℕ) → length (value_bytes n i v) ≡ n
unfolding value_bytes
length-value_bytes zero i v = refl
length-value_bytes (suc n) i v = ap suc (length-value_bytes n (i + 1) v)

-- CSTS is ready exactly when CC enables the controller, and no other bit of CSTS is set.
abbrev pub IsReady : Registers → Type 0
IsReady r = r.csts ≡ r.cc % 2

ready_bit_lem : (cc csts : ℕ) → csts ≤ 1 → ready_bit cc csts ≡ cc % 2
unfolding ready_bit
ready_bit_lem cc zero h = ground (arith, bit_and-one cc)
ready_bit_lem cc (suc zero) h = ground (arith, bit_and-one cc)
ready_bit_lem cc (suc (suc n)) h = absurd (omega arith)

-- Every write keeps it.
pub write_register-IsReady :
    (addr : ℕ) (payload : List ℕ) (r : Registers)
    → IsReady r
    → IsReady (write_register addr payload r).1
unfolding write_register
write_register-IsReady addr payload r h =
    let e : ready_bit (get_u32 payload 0) r.csts ≡ get_u32 payload 0 % 2 =
      ready_bit_lem (get_u32 payload 0) r.csts (omega arith) in
    ground arith

-- A write that is not a success changes no register and does not ring the doorbell; and the doorbell
-- rings exactly for a success at its address.
pub write_register_refused :
    (addr : ℕ) (payload : List ℕ) (r : Registers)
    → let (status, r', rang) = write_register addr payload r in
      ((status ≡ success) ⊎ ((r' ≡ r) × (rang ≡ false)))
      × ((rang ≡ true) ↔ ((status ≡ success) × (addr ≡ sq0_doorbell)))
unfolding write_register
write_register_refused addr payload r = ground arith

-- The registers that can be read.
abbrev pub register_at : ℕ → Registers → Option ℕ
register_at addr r =
    if addr == cap_reg
    then some capabilities
    else if addr == cc_reg
    then some r.cc
    else if addr == csts_reg
    then some r.csts
    else if addr == aqa_reg
    then some r.aqa
    else none

read_register_found :
    (addr len v : ℕ) (st : StatusCode) (r : Registers)
    → len ≤ 8
    → register_at addr r ≡ some v
    → read_register addr len st r ≡ (st, v)
unfolding read_register
read_register_found addr len v st r l h = ground arith

write_cc :
    (v : ℕ) (r : Registers)
    → v < 2 ^ 32
    → write_register cc_reg (value_bytes 4 0 v) r
      ≡ (success, record r { cc = v; csts = ready_bit v r.csts }, false)
unfolding write_register value_bytes
write_cc v r b = λ i. (
  success,
  record r { cc = value_bytes_u32 v b i; csts = ready_bit (value_bytes_u32 v b i) r.csts },
  false,
)

write_aqa :
    (v : ℕ) (r : Registers)
    → v < 2 ^ 32
    → write_register aqa_reg (value_bytes 4 0 v) r ≡ (success, record r { aqa = v }, false)
unfolding write_register value_bytes
write_aqa v r b = λ i. (success, record r { aqa = value_bytes_u32 v b i }, false)

read_u32 :
    (v : ℕ) (h : Header) (r : Registers)
    → read_length h ≡ 4
    → register_at h.address r ≡ some v
    → read_result h r ≡ (success, value_bytes 4 0 v)
unfolding read_result
read_u32 v h r len there =
    rw (len, read_result)
      (rw (read_register_found h.address 4 v success r (omega arith) there) refl)

-- Writing 32 bits to CC or AQA and reading 4 bytes back at the same address gives the bytes that were
-- written, and the write neither fails nor rings the doorbell.
pub write-read_u32 :
    (addr v : ℕ) (h : Header) (r : Registers)
    → v < 2 ^ 32
    → (addr ≡ cc_reg) ⊎ (addr ≡ aqa_reg)
    → h.address ≡ addr
    → read_length h ≡ 4
    → let (status, r', rang) = write_register addr (value_bytes 4 0 v) r in
      (status ≡ success) × (rang ≡ false) × (read_result h r' ≡ (success, value_bytes 4 0 v))
write-read_u32 addr v h r b (inl cc_) there len =
    rw (cc_, write_cc v r b) (refl, refl, read_u32 v h _ len (rw (there, cc_) refl))
write-read_u32 addr v h r b (inr aqa) there len =
    rw (aqa, write_aqa v r b) (refl, refl, read_u32 v h _ len (rw (there, aqa) refl))
