-- ===== src/Server/Invariant/Filed.antt =====
-- Two properties of the table of pending requests, to be kept as responses are filed: responses
-- stand under their own transaction id, and every id in the table was given out before.
use qemu_pcie_vip.Base.{
  ℕ, ◌<◌, ◌≡◌, ◌⊎◌, arith, inl, inr, sym, ◌∙◌, true, ◌==◌, Option, some, if◌then◌else◌,
  Option-cases, Bool-cases, ==_iff,
}
use qemu_pcie_vip.Protocol.Types.{Header, Message, dma_read_rsp, dma_write_rsp, code}
use qemu_pcie_vip.Transaction.Ids.{TransactionIdGenerator}
use qemu_pcie_vip.Transaction.Pending.{Table, find, complete, find-assign}
use qemu_pcie_vip.Server.Defs.{is_dma_response}
use qemu_pcie_vip.Server.Invariant.{Survives}

-- A response on file has the id that it is filed under, and is a DMA response.
abbrev pub Answers : ℕ → Message → Type 0
Answers txn_id m =
    (m.header.txn_id ≡ txn_id)
    × ((m.header.msg_type ≡ code dma_read_rsp) ⊎ (m.header.msg_type ≡ code dma_write_rsp))

is_dma_response_cases :
    (h : Header)
    → is_dma_response h ≡ true
    → (h.msg_type ≡ code dma_read_rsp) ⊎ (h.msg_type ≡ code dma_write_rsp)
is_dma_response_cases h e = ground arith

abbrev pub Matched : Table → Type 0
Matched t = (j : ℕ) (m : Message) → find j t ≡ some (some m) → Answers j m

complete-Matched :
    (msg : Message) (t : Table)
    → is_dma_response msg.header ≡ true
    → Matched t
    → Matched (complete msg.header.txn_id msg t).1
unfolding complete
complete-Matched msg t r h = elim (Option-cases (find msg.header.txn_id t)) [
  | inl absent ↦ rw (absent, complete) h
  | inr (v, there) ↦
      rw (there, complete)
        (λ j m e. filed j m (sym (find-assign msg.header.txn_id j (some msg) t) ∙ e))
]
  where
    filed :
        (j : ℕ) (m : Message)
        → (if msg.header.txn_id == j then some (some msg) else find j t) ≡ some (some m)
        → Answers j m
    filed j m e = elim (Bool-cases (msg.header.txn_id == j)) [
      | inl same ↦
          let e' : some (some msg) ≡ some (some m) = rw same at e in
          let i : msg ≡ m = cc in rw (← i) ((==_iff _ _).0 same, is_dma_response_cases msg.header r)
      | inr other ↦ h j m (rw other at e)
    ]

abbrev pub Issued : TransactionIdGenerator → Table → Type 0
Issued g t = (j : ℕ) (v : Option Message) → find j t ≡ some v → j < g.next

complete-Issued :
    (g : TransactionIdGenerator) (msg : Message) (t : Table)
    → Issued g t
    → Issued g (complete msg.header.txn_id msg t).1
unfolding complete
complete-Issued g msg t h = elim (Option-cases (find msg.header.txn_id t)) [
  | inl absent ↦ rw (absent, complete) h
  | inr (v, there) ↦
      rw (there, complete)
        (λ j u e. known v there j u (sym (find-assign msg.header.txn_id j (some msg) t) ∙ e))
]
  where
    known :
        (v : Option Message)
        → find msg.header.txn_id t ≡ some v
        → (j : ℕ) (u : Option Message)
        → (if msg.header.txn_id == j then some (some msg) else find j t) ≡ some u
        → j < g.next
    known v there j u e = elim (Bool-cases (msg.header.txn_id == j)) [
      | inl same ↦ rw ((==_iff _ _).0 same) at (h msg.header.txn_id v there)
      | inr other ↦ h j u (rw other at e)
    ]

-- Both at once.
abbrev pub Filed : TransactionIdGenerator → Table → Type 0
Filed g t = Matched t × Issued g t

pub Filed-Survives : Survives Filed
Filed-Survives g msg t r h = (complete-Matched msg t r h.0, complete-Issued g msg t h.1)
