-- ===== src/NetLink.antt =====
-- src/netLink.c: the kernel side of the netlink channel.
pub mod Deliver
pub mod Wire
pub mod Receive
pub mod Interleave
pub mod Disconnect
use netfilter.Base.{
  ℕ, zero, suc, ◌+◌, ◌-◌, ◌*◌, ◌/◌, ◌%◌, ◌^◌, ◌≤◌, ◌<◌, ◌≡◌, ◌≢◌, ◌↔◌, ◌⊎◌, refl, sym, ap, ap₂, ◌∙◌,
  subst, Bool, true, false, not, ◌&&◌, ◌||◌, List, [], ◌∷◌, ◌++◌, append_assoc, append-nil, Option,
  none, some, inl, inr, arith, Bytes, codes, length, set, get_or, take, drop, replicate,
  length-append, length-set, length-take, length-drop, length-replicate, drop-append, take-append,
  take-append-drop, set-append, take_all, drop-drop_one, ltb, leb, ◌==◌, if◌then◌else◌, Bool-cases,
  Option-cases, le→leb, lt→leb_false, lt→ltb, le→ltb_false, ==_iff, ==_refl, Result, Result-cases,
  ok, fault, Fault, read_overrun, write_overrun, use_after_free, null_dereference, ◌>>=◌, >>=-eq-ok,
}
use netfilter.Memory.{
  c_str, strlen, advance, starts_with, equal, strcmp_is_zero, search, strstr, write, write_text,
  put, padded, strncpy, strcat,
}
use netfilter.Base.Int.{ℤ, pos, negsuc}
use netfilter.Kernel.{Unicast, Kernel, nlmsghdr_size, nlmsg_space, u8_at, le16_at, le32_at}
use netfilter.DealConf.Extract.{literal}

-- src/netLink.h
abbrev pub netlink_test_connect : ℕ
netlink_test_connect = 0x10

abbrev pub netlink_test_disconnect : ℕ
netlink_test_disconnect = 0x11

abbrev pub netlink_test_command : ℕ
netlink_test_command = 0x12

abbrev pub netlink_test_reply : ℕ
netlink_test_reply = 0x13

-- The globals of the file. `nl_sk` tells whether the pointer is set, and `live` whether the socket
-- that it points to exists; `sent` lists the messages handed on, the newest last, and `skbs` counts
-- the buffers that were allocated and neither handed on nor freed.
pub record Netlink : Type 0 where
  pub nl_sk : Bool
  pub live : Bool
  pub pid : ℕ
  pub operatorflag : ℕ
  pub sent : List Unicast
  pub skbs : ℕ

-- How far a call of `sendMsgNetlink` comes before it looks at the client a second time.
pub data Attempt : Type 0 where
  refused : Attempt
  filled : Unicast → Attempt

-- `sendMsgNetlink` up to the second `read_lock_bh`: between the two looks at `pid` the lock is free.
unfoldable pub send_begin : Kernel → Bytes → Netlink → Result (Attempt × Netlink)
send_begin k message s = if not s.nl_sk || s.pid == 0 then ok (refused, s) else do
  text ← c_str message
  let message_size = length text + 1
  let total_size = nlmsg_space message_size
  if not (k.alloc_skb s.sent total_size) then ok (refused, s) else do
    payload ← write_text (k.skb_payload s.sent (total_size - nlmsghdr_size)) text
    ok (
      filled (record {
        portid = 0;
        nlmsg_type = netlink_test_reply;
        nlmsg_len = message_size + nlmsghdr_size;
        total_size = total_size;
        payload = payload;
      }),
      record s { skbs = s.skbs + 1 },
    )

-- The second look and the transmission. The early return leaves the buffer allocated.
unfoldable pub send_end : Kernel → Unicast → Netlink → Result (ℤ × Netlink)
send_end k u s =
    if s.pid == 0
    then ok (negsuc 0, s)
    else if not s.live
    then fault use_after_free
    else let message = record u { portid = s.pid } in
      ok (
        k.netlink_unicast s.sent message,
        record s { sent = s.sent ++ message ∷ []; skbs = s.skbs - 1 },
      )

abbrev pub finish_attempt : Kernel → Attempt × Netlink → Result (ℤ × Netlink)
finish_attempt k (refused, s) = ok (negsuc 0, s)
finish_attempt k (filled u, s) = send_end k u s

-- A call that no other thread gets in between. Every caller passes a message.
unfoldable pub send_msg_netlink : Kernel → Bytes → Netlink → Result (ℤ × Netlink)
send_msg_netlink k message s = send_begin k message s >>= finish_attempt k

-- The branches of `recvMsgNetlink` on a whole header.
abbrev pub dispatch : Kernel → Bytes → ℕ → ℕ → Netlink → Result Netlink
dispatch k skb nlmsg_type nlmsg_pid s =
    if nlmsg_type == netlink_test_connect
    then (do
      (ret, s') ←
          send_msg_netlink k (literal (codes "you have connected to the kernel!"))
            (record s { pid = nlmsg_pid })
      ok s')
    else if nlmsg_type == netlink_test_disconnect
    then (do
      (ret, s') ← send_msg_netlink k (literal (codes "you have disconnected to the kernel!")) s
      ok (record s' { pid = 0 }))
    else if nlmsg_type == netlink_test_command
    then (do
      nlh_new ← advance skb nlmsghdr_size
      shown ← c_str nlh_new
      drop_it ← strcmp_is_zero nlh_new (literal (codes "drop"))
      ok (record s { operatorflag = if drop_it then 2 else 1 }))
    else ok s

-- `skb` is the received data, so `skb->len` is its length.
unfoldable pub recv_msg_netlink : Kernel → Bytes → Netlink → Result Netlink
recv_msg_netlink k skb s =
    if leb (nlmsg_space 0) (length skb)
    then (do
      nlmsg_len ← le32_at skb 0
      nlmsg_type ← le16_at skb 4
      nlmsg_pid ← le32_at skb 12
      if leb nlmsghdr_size nlmsg_len && leb nlmsg_len (length skb)
          then dispatch k skb nlmsg_type nlmsg_pid s
          else ok s)
    else ok s

-- The return value, and the state.
unfoldable pub create_netlink : Kernel → Netlink → ℤ × Netlink
create_netlink k s =
    let s' = record s { nl_sk = k.netlink_kernel_create; live = k.netlink_kernel_create } in
    if not s'.nl_sk then (negsuc 0, s') else (pos 0, record s' { pid = 0 })

-- The pointer keeps its value when the socket is released.
unfoldable pub delete_netlink : Netlink → Netlink
delete_netlink s = if s.nl_sk then record s { live = false } else s
