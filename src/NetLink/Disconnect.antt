-- ===== src/NetLink/Disconnect.antt =====
-- src/netLink.c: a whole request to disconnect between the two looks of a call.
use netfilter.Base.{
  ℕ, ◌+◌, ◌^◌, ◌<◌, ◌≡◌, ◌≢◌, refl, sym, ap, ◌∙◌, true, List, [], ◌∷◌, ◌++◌, append-nil, arith,
  Bytes, codes, length, ok,
}
use netfilter.Base.Int.{negsuc}
use netfilter.Memory.Text.{IsText, holding}
use netfilter.Kernel.{Unicast, Kernel, nlmsghdr_size}
use netfilter.NetLink.{
  Netlink, Attempt, filled, send_begin, finish_attempt, recv_msg_netlink, netlink_test_disconnect,
}
use netfilter.NetLink.Deliver.{ready, delivery, told_open}
use netfilter.NetLink.Wire.{nlmsghdr}
use netfilter.NetLink.Receive.{disconnect, serve, recv_msg_netlink-serve}
use netfilter.NetLink.Interleave.{send_begin-ready, send_end-gone}
use netfilter.Gate.Sent.{IsDelivery}

abbrev pub farewell : Bytes
farewell = codes "you have disconnected to the kernel!"

farewell-IsDelivery :
    (k : Kernel) (s : Netlink) → IsDelivery (s.pid, farewell) (delivery k s farewell)
unfolding delivery
farewell-IsDelivery k s = (refl, refl, _, refl)

is_ready :
    (k : Kernel) (s : Netlink) (text : Bytes)
    (memory : (h : List Unicast) (n : ℕ) → k.alloc_skb h n ≡ true)
    → s.nl_sk ≡ true
    → s.pid ≢ 0
    → ready k s text ≡ true
is_ready k s text memory is_set client = rw (is_set, memory) (ground (arith, client))

-- With a socket, a client and memory, a kernel whose fresh buffers have the size asked for, a text to
-- send, and a process number of 32 bits: if `recvMsgNetlink` runs on a message to disconnect between the
-- two looks of a call of `sendMsgNetlink`, it ends, has told the client farewell and has none after it;
-- the call then returns -1 and changes nothing, so that the farewell is all that was sent, and one
-- buffer more than before the call is left unfreed.
pub disconnect-loses :
    (k : Kernel) (s : Netlink) (text rest : Bytes) (pid : ℕ)
    → ((h : List Unicast) (n : ℕ) → length (k.skb_payload h n) ≡ n)
    → ((h : List Unicast) (n : ℕ) → k.alloc_skb h n ≡ true)
    → IsText text
    → s.nl_sk ≡ true
    → s.live ≡ true
    → s.pid ≢ 0
    → pid < 2 ^ 32
    → (a : Attempt) × (t : Netlink) × (v : Netlink) × (u : Unicast) × (send_begin k
          (holding text rest)
          s
        ≡ ok (a, t))
      × (recv_msg_netlink k (nlmsghdr nlmsghdr_size netlink_test_disconnect pid) t ≡ ok v)
      × (finish_attempt k (a, v) ≡ ok (negsuc 0, v))
      × (v.pid ≡ 0)
      × (v.sent ≡ s.sent ++ u ∷ [])
      × IsDelivery (s.pid, farewell) u
      × (v.skbs ≡ s.skbs + 1)
unfolding serve
disconnect-loses k s text rest pid data_size memory is_text is_set alive client pid_fits =
    let a = filled (record (delivery k s text) { portid = 0 }) in
    let t = record s { skbs = s.skbs + 1 } in
    let u = delivery k t farewell in
    let v = record t { pid = 0; sent = s.sent ++ u ∷ [] } in
    let served : recv_msg_netlink k (nlmsghdr nlmsghdr_size netlink_test_disconnect pid) t ≡ ok v =
      ap (λ p. recv_msg_netlink k p t)
        (sym (append-nil (nlmsghdr nlmsghdr_size netlink_test_disconnect pid)))
      ∙ recv_msg_netlink-serve k t data_size (λ e. alive) disconnect nlmsghdr_size pid tt
          (omega arith) pid_fits (omega arith) (omega arith)
      ∙ ap (λ (n : Netlink). ok (record n { pid = 0 }))
          (told_open k memory t farewell is_set client) in
    (
      a,
      t,
      v,
      u,
      send_begin-ready k s text rest data_size is_text (is_ready k s text memory is_set client),
      served,
      send_end-gone k (record (delivery k s text) { portid = 0 })
          (record t { sent = s.sent ++ u ∷ [] }),
      refl,
      refl,
      farewell-IsDelivery k t,
      refl,
    )
