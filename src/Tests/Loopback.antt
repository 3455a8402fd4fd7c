-- ===== src/Tests/Loopback.antt =====
-- A kernel to run the models on: a peer whose bytes lie ready, chunks of at most three bytes in and
-- five out, and a number of interrupted polls before the first answer.
use qemu_pcie_vip.Base.{
  ℕ, zero, suc, ◌≤◌, ◌<◌, ◌≡◌, refl, arith, min, List, ◌++◌, true, false, none, some, length, take,
  drop, length-take, take-append-drop,
}
use qemu_pcie_vip.Socket.Kernel.{
  Kernel, StreamLaws, eintr, PollAnswer, ready, poll_failed, sent, received,
}

pub record World : Type 0 where
  pub inbox : List ℕ
  pub outbox : List ℕ
  pub interrupts : ℕ

abbrev pub poll_after : ℕ → World → PollAnswer × World
poll_after zero w =
    (ready (record { pollerr = false; pollnval = false; pollhup = false; requested = true }), w)
poll_after (suc n) w = (poll_failed eintr, record w { interrupts = n })

abbrev pub kernel : Kernel
kernel = record {
  World = World;
  poll = λ fd e t w. poll_after w.interrupts w;
  send = λ fd bs w.
      (sent (min 5 (length bs)), record w { outbox = w.outbox ++ take (min 5 (length bs)) bs });
  recv = λ fd n w. (received (take (min 3 n) w.inbox), record w { inbox = drop (min 3 n) w.inbox });
  accept = λ fd w. (some 7, w);
  close = λ fd w. w;
  socket = λ w. (some 3, w);
  bind = λ fd path w. (true, w);
  listen = λ fd backlog w. (true, w);
  unlink = λ path w. w;
  connect = λ fd path w. (none, w);
  so_error = λ fd w. (true, w);
  set_nonblocking = λ fd on w. w;
  sun_path_size = 108;
}

pub poll_after-inbox : (n : ℕ) (w : World) → (poll_after n w).1.inbox ≡ w.inbox
poll_after-inbox zero w = refl
poll_after-inbox (suc n) w = refl

pub poll_after-outbox : (n : ℕ) (w : World) → (poll_after n w).1.outbox ≡ w.outbox
poll_after-outbox zero w = refl
poll_after-outbox (suc n) w = refl

pub poll_after-le :
    (n : ℕ) (w : World) → w.interrupts ≡ n → (poll_after n w).1.interrupts ≤ w.interrupts
poll_after-le zero w e = omega arith
poll_after-le (suc n) w e = omega arith

pub poll_after-lt :
    (n : ℕ) (w : World)
    → w.interrupts ≡ n
    → (poll_after n w).0 ≡ poll_failed eintr
    → (poll_after n w).1.interrupts < w.interrupts
poll_after-lt zero w e h = cc
poll_after-lt (suc n) w e h = omega arith

unfoldable pub laws : StreamLaws kernel
laws = record {
  incoming = λ fd w. w.inbox;
  outgoing = λ fd w. w.outbox;
  patience = λ w. w.interrupts;
  poll_incoming = λ fd e t w. poll_after-inbox w.interrupts w;
  poll_outgoing = λ fd e t w. poll_after-outbox w.interrupts w;
  poll_patience = λ fd e t w. poll_after-le w.interrupts w refl;
  poll_retry = λ fd e t w h. poll_after-lt w.interrupts w refl h;
  send_incoming = λ fd bs w. refl;
  send_sent = λ fd bs w n e. ground arith;
  send_error = λ fd bs w e h. cc;
  send_patience = λ fd bs w. omega arith;
  send_retry = λ fd bs w e h r. cc;
  recv_outgoing = λ fd n w. refl;
  recv_received = λ fd n w bs e.
      ground (arith, length-take (min 3 n) w.inbox, take-append-drop (min 3 n) w.inbox);
  recv_error = λ fd n w e h. cc;
  recv_patience = λ fd n w. omega arith;
  recv_retry = λ fd n w e h r. cc;
}
