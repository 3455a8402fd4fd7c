-- ===== src/Socket/Kernel.antt =====
-- The system calls that mini-ics/src/socket.cpp makes, as parameters: the kernel is no part of the
-- repository. `World` is all that the kernel and the peer hold; each call answers and moves the world on.
use qemu_pcie_vip.Base.{ℕ, ◌≤◌, ◌<◌, ◌≡◌, List, ◌++◌, Bool, Option, length, take}

-- `none` is the descriptor -1.
abbrev pub Fd : Type 0
Fd = Option ℕ

pub data Event : Type 0 where
  pollin pollout : Event

-- `revents` after a positive answer of poll(): the three error bits, and the requested event.
pub record Revents : Type 0 where
  pub pollerr : Bool
  pub pollnval : Bool
  pub pollhup : Bool
  pub requested : Bool

pub data Errno : Type 0 where
  eintr eagain ewouldblock epipe econnreset einprogress other_errno : Errno

-- poll(): a positive count with `revents`, 0, or -1 with errno.
pub data PollAnswer : Type 0 where
  ready : Revents → PollAnswer
  timed_out : PollAnswer
  poll_failed : Errno → PollAnswer

-- send(): the count of bytes taken, or -1 with errno.
pub data SendAnswer : Type 0 where
  sent : ℕ → SendAnswer
  send_failed : Errno → SendAnswer

-- recv(): the bytes written into the buffer (none at the end of the stream), or -1 with errno.
pub data RecvAnswer : Type 0 where
  received : List ℕ → RecvAnswer
  recv_failed : Errno → RecvAnswer

pub record Kernel : Type 1 where
  pub World : Type 0
  pub poll : Fd → Event → ℕ → World → PollAnswer × World
  pub send : Fd → List ℕ → World → SendAnswer × World
  pub recv : Fd → ℕ → World → RecvAnswer × World
  -- accept(): the new descriptor, or -1.
  pub accept : Fd → World → Option ℕ × World
  pub close : ℕ → World → World
  -- socket(AF_UNIX, SOCK_STREAM, 0), bind(), listen() and unlink(); the tests are on 0.
  pub socket : World → Option ℕ × World
  pub bind : ℕ → List ℕ → World → Bool × World
  pub listen : ℕ → ℕ → World → Bool × World
  pub unlink : List ℕ → World → World
  -- connect(): `none` is 0. `so_error` is getsockopt(SO_ERROR) that succeeds with the value 0.
  pub connect : ℕ → List ℕ → World → Option Errno × World
  pub so_error : ℕ → World → Bool × World
  pub set_nonblocking : ℕ → Bool → World → World
  -- sizeof(sockaddr_un::sun_path).
  pub sun_path_size : ℕ

-- The calls that are answered by "try again".
abbrev pub IsRetryPoll : PollAnswer → Type 0
IsRetryPoll (poll_failed eintr) = Unit {0}
IsRetryPoll _ = ⊥

abbrev pub IsRetryErrno : Errno → Type 0
IsRetryErrno eintr = Unit {0}
IsRetryErrno eagain = Unit {0}
IsRetryErrno ewouldblock = Unit {0}
IsRetryErrno _ = ⊥

-- What POSIX says of a connected stream socket, and that calls are interrupted finitely often.
-- `incoming fd w` is all that the peer writes and the program has not read; `outgoing fd w` is all
-- that the kernel has taken; `patience w` bounds the interruptions still to come.
pub record StreamLaws (k : Kernel) : Type 0 where
  pub incoming : Fd → k.World → List ℕ
  pub outgoing : Fd → k.World → List ℕ
  pub patience : k.World → ℕ
  pub poll_incoming :
      (fd : Fd) (e : Event) (t : ℕ) (w : k.World) → incoming fd (k.poll fd e t w).1 ≡ incoming fd w
  pub poll_outgoing :
      (fd : Fd) (e : Event) (t : ℕ) (w : k.World) → outgoing fd (k.poll fd e t w).1 ≡ outgoing fd w
  pub poll_patience :
      (fd : Fd) (e : Event) (t : ℕ) (w : k.World) → patience (k.poll fd e t w).1 ≤ patience w
  pub poll_retry :
      (fd : Fd) (e : Event) (t : ℕ) (w : k.World)
      → (k.poll fd e t w).0 ≡ poll_failed eintr
      → patience (k.poll fd e t w).1 < patience w
  pub send_incoming :
      (fd : Fd) (bs : List ℕ) (w : k.World) → incoming fd (k.send fd bs w).1 ≡ incoming fd w
  pub send_sent :
      (fd : Fd) (bs : List ℕ) (w : k.World) (n : ℕ)
      → (k.send fd bs w).0 ≡ sent n
      → (n ≤ length bs) × (outgoing fd (k.send fd bs w).1 ≡ outgoing fd w ++ take n bs)
  pub send_error :
      (fd : Fd) (bs : List ℕ) (w : k.World) (e : Errno)
      → (k.send fd bs w).0 ≡ send_failed e
      → outgoing fd (k.send fd bs w).1 ≡ outgoing fd w
  pub send_patience :
      (fd : Fd) (bs : List ℕ) (w : k.World) → patience (k.send fd bs w).1 ≤ patience w
  pub send_retry :
      (fd : Fd) (bs : List ℕ) (w : k.World) (e : Errno)
      → (k.send fd bs w).0 ≡ send_failed e
      → IsRetryErrno e
      → patience (k.send fd bs w).1 < patience w
  pub recv_outgoing :
      (fd : Fd) (n : ℕ) (w : k.World) → outgoing fd (k.recv fd n w).1 ≡ outgoing fd w
  pub recv_received :
      (fd : Fd) (n : ℕ) (w : k.World) (bs : List ℕ)
      → (k.recv fd n w).0 ≡ received bs
      → (length bs ≤ n) × (incoming fd w ≡ bs ++ incoming fd (k.recv fd n w).1)
  pub recv_error :
      (fd : Fd) (n : ℕ) (w : k.World) (e : Errno)
      → (k.recv fd n w).0 ≡ recv_failed e
      → incoming fd (k.recv fd n w).1 ≡ incoming fd w
  pub recv_patience : (fd : Fd) (n : ℕ) (w : k.World) → patience (k.recv fd n w).1 ≤ patience w
  pub recv_retry :
      (fd : Fd) (n : ℕ) (w : k.World) (e : Errno)
      → (k.recv fd n w).0 ≡ recv_failed e
      → IsRetryErrno e
      → patience (k.recv fd n w).1 < patience w
