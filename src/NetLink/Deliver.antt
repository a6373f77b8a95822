-- ===== src/NetLink/Deliver.antt =====
-- src/netLink.c: what a call of `sendMsgNetlink` delivers, and what it leaves alone.
use netfilter.Base.{
  ℕ, suc, ◌+◌, ◌-◌, ◌<◌, ◌≡◌, ◌≢◌, refl, ◌∙◌, Bool, true, not, ◌&&◌, List, [], ◌∷◌, ◌++◌, inl, inr,
  arith, Bytes, length, drop, ◌==◌, if◌then◌else◌, Bool-cases, ok, >>=-eq-ok,
}
use netfilter.Memory.Text.{IsText, holding, c_str-holding, write_text-holding}
use netfilter.Base.Int.{ℤ, negsuc}
use netfilter.Kernel.{Unicast, Kernel, nlmsghdr_size, nlmsg_space}
use netfilter.NetLink.{
  Netlink, Attempt, refused, filled, send_begin, send_end, finish_attempt, send_msg_netlink,
  netlink_test_reply,
}

-- The part of the state that only `recvMsgNetlink` and the set-up change.
pub record SameControl (s t : Netlink) : Type 0 where
  pub same_pid : t.pid ≡ s.pid
  pub same_flag : t.operatorflag ≡ s.operatorflag
  pub same_nl_sk : t.nl_sk ≡ s.nl_sk
  pub same_live : t.live ≡ s.live

pub SameControl-refl : (s : Netlink) → SameControl s s
SameControl-refl s = record {
  same_pid = refl;
  same_flag = refl;
  same_nl_sk = refl;
  same_live = refl;
}

begin-SameControl :
    (k : Kernel) (message : Bytes) (s : Netlink) {a : Attempt} {t : Netlink}
    → send_begin k message s ≡ ok (a, t)
    → SameControl s t
unfolding send_begin
begin-SameControl k message s e = ground arith

end-SameControl :
    (k : Kernel) (u : Unicast) (s : Netlink) {r : ℤ} {t : Netlink}
    → send_end k u s ≡ ok (r, t)
    → SameControl s t
unfolding send_end
end-SameControl k u s e = ground arith

pub send-SameControl :
    (k : Kernel) (message : Bytes) (s : Netlink) {r : ℤ} {t : Netlink}
    → send_msg_netlink k message s ≡ ok (r, t)
    → SameControl s t
unfolding send_msg_netlink
send-SameControl k message s {r} {t} e =
    let (mid, first, second) = >>=-eq-ok (send_begin k message s) (finish_attempt k) e in
    finish mid.0 mid.1 (begin-SameControl k message s first) second
  where
    finish :
        (a : Attempt) (u : Netlink)
        → SameControl s u
        → finish_attempt k (a, u) ≡ ok (r, t)
        → SameControl s t
    finish refused u same h = ground arith
    finish (filled x) u same h = ground (arith, end-SameControl k x u h)

-- The message that a call hands on: the reply type, to the client connected now, with the text and
-- its terminator behind the header.
unfoldable pub delivery : Kernel → Netlink → Bytes → Unicast
delivery k s text = record {
  portid = s.pid;
  nlmsg_type = netlink_test_reply;
  nlmsg_len = length text + 1 + nlmsghdr_size;
  total_size = nlmsg_space (length text + 1);
  payload = holding text (
      drop (suc (length text))
        (k.skb_payload s.sent (nlmsg_space (length text + 1) - nlmsghdr_size)));
}

-- Nothing is sent without a socket, a client and memory.
abbrev pub ready : Kernel → Netlink → Bytes → Bool
ready k s text = s.nl_sk && (not (s.pid == 0) && k.alloc_skb s.sent (nlmsg_space (length text + 1)))

-- For a message that is a text, where the room behind a fresh buffer's header has the size asked for
-- and a set `nl_sk` points to a socket that exists: a call that no thread interrupts hands the text and
-- its terminator on once, to the connected client, if there are a socket, a client and memory;
-- otherwise it returns -1 and changes nothing. In both cases no buffer is lost.
pub send_msg_netlink_lem :
    (k : Kernel) (s : Netlink) (text rest : Bytes)
    → ((h : List Unicast) (n : ℕ) → length (k.skb_payload h n) ≡ n)
    → (s.nl_sk ≡ true → s.live ≡ true)
    → IsText text
    → send_msg_netlink k (holding text rest) s ≡ (
        if ready k s text
        then ok (
          k.netlink_unicast s.sent (delivery k s text),
          record s { sent = s.sent ++ delivery k s text ∷ [] },
        )
        else ok (negsuc 0, s))
unfolding send_msg_netlink send_begin send_end delivery
send_msg_netlink_lem k s text rest data_size alive t =
    let n = length text in
    let fits : n < length (k.skb_payload s.sent (nlmsg_space (n + 1) - nlmsghdr_size)) =
      omega (arith, data_size s.sent (nlmsg_space (n + 1) - nlmsghdr_size)) in
    ground (
      arith,
      c_str-holding text rest t,
      write_text-holding (k.skb_payload s.sent (nlmsg_space (n + 1) - nlmsghdr_size)) text fits,
      alive,
    )

-- The state after an attempt to send a text.
unfoldable pub told : Kernel → Netlink → Bytes → Netlink
told k s text = if ready k s text then record s { sent = s.sent ++ delivery k s text ∷ [] } else s

pub send-told :
    (k : Kernel) (s : Netlink) (text rest : Bytes)
    → ((h : List Unicast) (n : ℕ) → length (k.skb_payload h n) ≡ n)
    → (s.nl_sk ≡ true → s.live ≡ true)
    → IsText text
    → (r : ℤ) × (send_msg_netlink k (holding text rest) s ≡ ok (r, told k s text))
unfolding told
send-told k s text rest data_size alive t = elim (Bool-cases (ready k s text)) [
  | inl yes_ready ↦ (
    k.netlink_unicast s.sent (delivery k s text),
    send_msg_netlink_lem k s text rest data_size alive t ∙ rw yes_ready,
  )
  | inr not_ready ↦ (negsuc 0, send_msg_netlink_lem k s text rest data_size alive t ∙ rw not_ready)
]

-- With memory, an open channel tells its client, and nobody else.
pub told_open :
    (k : Kernel) (memory : (h : List Unicast) (n : ℕ) → k.alloc_skb h n ≡ true) (s : Netlink)
    (text : Bytes)
    → s.nl_sk ≡ true
    → s.pid ≢ 0
    → told k s text ≡ record s { sent = s.sent ++ delivery k s text ∷ [] }
unfolding told
told_open k memory s text is_set client =
    ground (arith, memory s.sent (nlmsg_space (length text + 1)))

pub told_nobody : (k : Kernel) (s : Netlink) (text : Bytes) → s.pid ≡ 0 → told k s text ≡ s
unfolding told
told_nobody k s text gone = ground arith
