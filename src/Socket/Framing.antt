-- ===== src/Socket/Framing.antt =====
-- How a message is read off a socket: `HostClient::ReadMessage` of mini-ics/src/host_client.cpp, and
-- the same sequence of calls in `MiniIcsServer::IoThreadMain` of mini-ics/src/server.cpp.
use qemu_pcie_vip.Base.{
  ℕ, ◌+◌, ◌<◌, ◌≤◌, ◌≡◌, ◌≢◌, refl, sym, ◌∙◌, ◌⊎◌, inl, inr, arith, List, [], ◌∷◌, ◌++◌, true,
  false, ltb, Option, none, some, length, Option-cases, append_assoc,
}
use qemu_pcie_vip.Protocol.Types.{Header, Message, CodecError, header_size, max_payload_size}
use qemu_pcie_vip.Protocol.Codec.{
  Decoded, fail, deserialize_header, serialize_header, serialize_message, read_fields,
}
use qemu_pcie_vip.Protocol.Codec
use qemu_pcie_vip.Protocol.RoundTrip.{
  IsValid, deserialize-serialize, length-serialize_header, deserialize_ok, check_header_ok,
}
use qemu_pcie_vip.Socket.Kernel.{Kernel, StreamLaws, Fd}
use qemu_pcie_vip.Socket.Transfer.{IoStatus, ok, timeout, disconnected, error, is_ok, recv_all}
use qemu_pcie_vip.Socket.Exact.{recv_all_exact}
use qemu_pcie_vip.Socket.Termination.{transfers_return}

pub data Received : Type 0 where
  message : Message → Received
  io_failed : IoStatus → Received
  malformed : CodecError → Received

-- After the payload was read into the resized vector.
unfoldable pub with_payload : Header → IoStatus → List ℕ → Received
with_payload h st bytes = elim (is_ok st) [
  | true ↦ message (record { header = h; payload = bytes })
  | false ↦ io_failed st
]

module _ (k : Kernel) where
  unfoldable pub read_payload : ℕ → Fd → ℕ → Decoded → k.World → Option (Received × k.World)
  unfolding with_payload
  read_payload fuel fd timeout_ms (fail e) w = some (malformed e, w)
  read_payload fuel fd timeout_ms (Codec.ok h) w = elim (ltb 0 h.payload_len) [
    | false ↦ some (message (record { header = h; payload = [] }), w)
    | true ↦ elim (recv_all k fuel fd h.payload_len timeout_ms w) [
      | none ↦ none
      | some (st, bytes, w₁) ↦ some (with_payload h st bytes, w₁)
    ]
  ]

  unfoldable pub read_message : ℕ → Fd → ℕ → k.World → Option (Received × k.World)
  unfolding read_payload
  read_message fuel fd timeout_ms w = elim (recv_all k fuel fd header_size timeout_ms w) [
    | none ↦ none
    | some (st, bytes, w₁) ↦ elim (is_ok st) [
      | false ↦ some (io_failed st, w₁)
      | true ↦ read_payload fuel fd timeout_ms (deserialize_header bytes) w₁
    ]
  ]

-- Two splits of one list at the same length agree.
split_unique :
    (xs ys us vs : List ℕ) → length xs ≡ length us → xs ++ ys ≡ us ++ vs → (xs ≡ us) × (ys ≡ vs)
split_unique [] ys [] vs l e = (refl, e)
split_unique [] ys (u ∷ us) vs l e = absurd (omega arith)
split_unique (x ∷ xs) ys [] vs l e = absurd (omega arith)
split_unique (x ∷ xs) ys (u ∷ us) vs l e = ground (arith, split_unique xs ys us vs)

module _ (k : Kernel) (laws : StreamLaws k) where
  open laws use {incoming, outgoing, patience}

  abbrev Delivered : Fd → Header → List ℕ → List ℕ → Received → k.World → Type 0
  Delivered fd h payload rest r w' =
      ((r ≡ message (record { header = h; payload = payload })) × (incoming fd w' ≡ rest))
      ⊎ ((st : IoStatus) × (st ≢ ok) × (r ≡ io_failed st))

  read_payload_exact :
      (fuel : ℕ) (fd : Fd) (t : ℕ) (h : Header) (payload rest : List ℕ) (w w' : k.World)
      (r : Received)
      → length payload ≡ h.payload_len
      → incoming fd w ≡ payload ++ rest
      → read_payload k fuel fd t (Codec.ok h) w ≡ some (r, w')
      → Delivered fd h payload rest r w'
  unfolding read_payload
  read_payload_exact fuel fd t h [] rest w w' r l i e = inl (ground arith)
  read_payload_exact fuel fd t h (b ∷ bs) rest w w' r l i e =
      elim (Option-cases (recv_all k fuel fd h.payload_len t w)) [
        | inl n ↦ absurd (ground arith)
        | inr ((ok, bytes, w₁), s) ↦
            let (lo, i', _, _) = recv_all_exact k laws fuel fd h.payload_len t bytes w w₁ s in
            let (same, left) =
              split_unique bytes (incoming fd w₁) (b ∷ bs) rest (lo ∙ sym l) (sym i' ∙ i) in
            inl (ground arith)
        | inr ((timeout, bytes, w₁), s) ↦ inr (timeout, (λ x. cc), ground arith)
        | inr ((disconnected, bytes, w₁), s) ↦ inr (disconnected, (λ x. cc), ground arith)
        | inr ((error, bytes, w₁), s) ↦ inr (error, (λ x. cc), ground arith)
      ]

  -- If what comes in begins with a valid header as `serialize_message` writes it, with as many bytes
  -- of payload as the header says, then `read_message` returns that header and payload and leaves
  -- exactly what follows, or reports that the socket failed: it never splits the stream elsewhere,
  -- whatever the chunks in which the bytes arrive.
  pub read_message_exact :
      (fuel : ℕ) (fd : Fd) (t : ℕ) (h : Header) (payload rest : List ℕ) (w w' : k.World)
      (r : Received)
      → IsValid h
      → length payload ≡ h.payload_len
      → incoming fd w ≡ serialize_message h payload ++ rest
      → read_message k fuel fd t w ≡ some (r, w')
      → Delivered fd h payload rest r w'
  unfolding read_message serialize_message
  read_message_exact fuel fd t h payload rest w w' r v l i e =
      elim (Option-cases (recv_all k fuel fd header_size t w)) [
        | inl n ↦ absurd (ground arith)
        | inr ((ok, bytes, w₁), s) ↦
            let (lo, i', _, _) = recv_all_exact k laws fuel fd header_size t bytes w w₁ s in
            let (same, left) =
              split_unique bytes (incoming fd w₁) (serialize_header h) (payload ++ rest)
                (lo ∙ sym (length-serialize_header h))
                (sym i' ∙ i ∙ append_assoc (serialize_header h) payload rest) in
            read_payload_exact fuel fd t h payload rest w₁ w' r l left
              (rw (same, deserialize-serialize h v) at (rw (s, read_message) at e))
        | inr ((timeout, bytes, w₁), s) ↦ inr (timeout, (λ x. cc), ground arith)
        | inr ((disconnected, bytes, w₁), s) ↦ inr (disconnected, (λ x. cc), ground arith)
        | inr ((error, bytes, w₁), s) ↦ inr (error, (λ x. cc), ground arith)
      ]

  read_payload_returns :
      (fuel : ℕ) (fd : Fd) (t : ℕ) (d : Decoded) (w : k.World)
      → patience w + max_payload_size < fuel
      → ((h : Header) → d ≡ Codec.ok h → h.payload_len ≤ max_payload_size)
      → read_payload k fuel fd t d w ≢ none
  unfolding read_payload
  read_payload_returns fuel fd t (fail e) w p b = λ x. cc
  read_payload_returns fuel fd t (Codec.ok h) w p b =
      let back =
        (transfers_return k laws fuel fd t w [] h.payload_len (omega arith)
          (omega (arith, b h refl))).1 in
      ground arith

  accepted_bound :
      (src : List ℕ) (h : Header)
      → deserialize_header src ≡ Codec.ok h
      → h.payload_len ≤ max_payload_size
  accepted_bound src h e =
      let (_, c) = deserialize_ok src h e in
      let (same, _, _, _, p) = check_header_ok (read_fields src) h c in ground arith

  -- Reading a message comes back when the fuel exceeds the interruptions still to come and the size of
  -- the largest payload: a length field off the wire cannot make it wait for more.
  pub read_message_returns :
      (fuel : ℕ) (fd : Fd) (t : ℕ) (w : k.World)
      → patience w + max_payload_size < fuel
      → read_message k fuel fd t w ≢ none
  unfolding read_message
  read_message_returns fuel fd t w p = elim (Option-cases (recv_all k fuel fd header_size t w)) [
    | inl n ↦
        absurd
          ((transfers_return k laws fuel fd t w [] header_size (omega arith) (omega arith)).1 n)
    | inr ((ok, bytes, w₁), s) ↦
        let (_, _, _, q) = recv_all_exact k laws fuel fd header_size t bytes w w₁ s in
        rw (s, read_message)
          (read_payload_returns fuel fd t (deserialize_header bytes) w₁ (omega arith)
            (λ h. accepted_bound bytes h))
    | inr ((timeout, bytes, w₁), s) ↦ rw (s, read_message) (λ x. cc)
    | inr ((disconnected, bytes, w₁), s) ↦ rw (s, read_message) (λ x. cc)
    | inr ((error, bytes, w₁), s) ↦ rw (s, read_message) (λ x. cc)
  ]
