-- ===== src/Client.antt =====
-- client/netlink_client.c: the user-space side of the netlink channel.
pub mod Dialogue
pub mod Lines
pub mod Parting
use netfilter.Base.{
  ℕ, zero, suc, ◌+◌, ◌-◌, ◌*◌, ◌/◌, ◌%◌, ◌^◌, ◌≤◌, ◌<◌, ◌≡◌, ◌≢◌, ◌↔◌, ◌⊎◌, refl, sym, ap, ap₂, ◌∙◌,
  subst, Bool, true, false, not, ◌&&◌, ◌||◌, List, [], ◌∷◌, ◌++◌, append_assoc, append-nil, Option,
  none, some, inl, inr, arith, Bytes, codes, length, set, get_or, take, drop, replicate,
  length-append, length-set, length-take, length-drop, length-replicate, drop-append, take-append,
  take-append-drop, set-append, take_all, drop-drop_one, ltb, leb, ◌==◌, if◌then◌else◌, Bool-cases,
  Option-cases, le→leb, lt→leb_false, lt→ltb, le→ltb_false, ==_iff, ==_refl, Result, Result-cases,
  ok, fault, Fault, read_overrun, write_overrun, use_after_free, null_dereference, ◌>>=◌, >>=-eq-ok,
  Ensures, >>=-Ensures,
}
use netfilter.Memory.{c_str, advance, write}
use netfilter.Kernel.{nlmsghdr_size}
use netfilter.NetLink.{netlink_test_connect, netlink_test_disconnect}
use netfilter.NetLink.Wire.{nlmsghdr}

-- client/netlink_client.h
abbrev pub maxmsg : ℕ
maxmsg = 100000

-- The size of `struct netlink_message`.
abbrev pub recv_buf_size : ℕ
recv_buf_size = nlmsghdr_size + maxmsg

-- What the system answers: whether the socket is made and bound, the number of the process, and
-- whether a message is sent.
pub record System : Type 0 where
  pub socket : Bool
  pub bind : Bool
  pub getpid : ℕ
  pub sendto : Bytes → Bool

-- The receive buffer, the messages sent to the kernel, and the texts printed of those received.
pub record Client : Type 0 where
  pub recv_buf : Bytes
  pub sent : List Bytes
  pub printed : List Bytes

-- A return of `recvfrom`: an error, or the bytes of a message.
pub data Received : Type 0 where
  failed : Received
  message : Bytes → Received

-- `NLMSG_LENGTH(0)` is the size of the header. The structure is cleared before it is filled in.
unfoldable pub connect_message : ℕ → Bytes
connect_message pid = nlmsghdr nlmsghdr_size netlink_test_connect pid

unfoldable pub disconnect_message : ℕ → Bytes
disconnect_message pid = nlmsghdr nlmsghdr_size netlink_test_disconnect pid

-- `main` up to the loop; no client where it returns -1.
unfoldable pub start : System → Client → Option Client
start sys c =
    if not sys.socket
    then none
    else if not sys.bind
    then none
    else if not (sys.sendto (connect_message sys.getpid))
    then none
    else some (record c { sent = c.sent ++ connect_message sys.getpid ∷ [] })

-- A round of the loop. `recvfrom` fills at most the buffer.
unfoldable pub receive : Received → Client → Result Client
receive failed c = ok c
receive (message bytes) c = do
  buf ← write c.recv_buf (take (length c.recv_buf) bytes)
  text_at ← advance buf nlmsghdr_size
  text ← c_str text_at
  ok (record c { recv_buf = buf; printed = c.printed ++ text ∷ [] })

-- The loop, on what `recvfrom` returns as long as the program runs.
unfoldable pub receive_all : List Received → Client → Result Client
receive_all [] c = ok c
receive_all (r ∷ rs) c = receive r c >>= receive_all rs

unfoldable pub main : System → List Received → Client → Result (Option Client)
main sys rs c = elim (start sys c) [
  | none ↦ ok none
  | some c' ↦ (do c'' ← receive_all rs c'; ok (some c''))
]

-- The handler of SIGINT, which ends the program.
unfoldable pub quit : System → Client → Client
quit sys c =
    if sys.sendto (disconnect_message sys.getpid)
    then record c { sent = c.sent ++ disconnect_message sys.getpid ∷ [] }
    else c
