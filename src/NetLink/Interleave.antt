-- ===== src/NetLink/Interleave.antt =====
-- src/netLink.c: several threads in `sendMsgNetlink` while requests come in. Each step is what happens
-- under one hold of the lock, or without it on a thread's own buffer.
use netfilter.Base.{
  ℕ, suc, ◌+◌, ◌-◌, ◌<◌, ◌≡◌, ◌≢◌, refl, ap, true, List, [], ◌∷◌, ◌++◌, arith, Bytes, length, ok,
}
use netfilter.Base.Int.{ℤ, negsuc}
use netfilter.Memory.Text.{IsText, holding, c_str-holding, write_text-holding}
use netfilter.Kernel.{Unicast, Kernel, nlmsghdr_size, nlmsg_space}
use netfilter.NetLink.{Netlink, refused, filled, send_begin, send_end, netlink_test_reply}
use netfilter.NetLink.Deliver.{ready, delivery}

-- The channel, and the messages of the threads that wait for the second look at the client.
pub record Threads : Type 0 where
  pub channel : Netlink
  pub waiting : List Unicast

abbrev pub threads : Netlink → List Unicast → Threads
threads s us = record { channel = s; waiting = us }

-- A call comes to its second look, or returns before; a waiting call sends, or finds no client; a
-- request writes the client's process or the operator's choice. The greeting and the farewell of a
-- request are calls like the others, and the steps leave their order with its writes open.
pub data Step (k : Kernel) : Threads → Threads → Type 0 where
  begins :
      (message : Bytes) (s t : Netlink) (u : Unicast) (us : List Unicast)
      → send_begin k message s ≡ ok (filled u, t)
      → Step k (threads s us) (threads t (u ∷ us))
  refuses :
      (message : Bytes) (s t : Netlink) (us : List Unicast)
      → send_begin k message s ≡ ok (refused, t)
      → Step k (threads s us) (threads t us)
  sends :
      (u : Unicast) (vs us : List Unicast) (s t : Netlink) (r : ℤ)
      → s.pid ≢ 0
      → send_end k u s ≡ ok (r, t)
      → Step k (threads s (vs ++ u ∷ us)) (threads t (vs ++ us))
  loses :
      (u : Unicast) (vs us : List Unicast) (s t : Netlink) (r : ℤ)
      → s.pid ≡ 0
      → send_end k u s ≡ ok (r, t)
      → Step k (threads s (vs ++ u ∷ us)) (threads t (vs ++ us))
  writes_pid :
      (pid : ℕ) (s : Netlink) (us : List Unicast)
      → Step k (threads s us) (threads (record s { pid = pid }) us)
  writes_flag :
      (flag : ℕ) (s : Netlink) (us : List Unicast)
      → Step k (threads s us) (threads (record s { operatorflag = flag }) us)

pub data Run (k : Kernel) (x : Threads) : Threads → Type 0 where
  here : Run k x x
  next : {y z : Threads} → Run k x y → Step k y z → Run k x z

-- How often a call found no client at its second look.
abbrev lost : {k : Kernel} {x y : Threads} → Step k x y → ℕ
lost (loses u vs us s t r gone e) = 1
lost _ = 0

unfoldable pub losses : {k : Kernel} {x y : Threads} → Run k x y → ℕ
losses here = 0
losses (next run step) = losses run + lost step

-- What was sent went to a client, as a reply.
abbrev pub AreReplies : List Unicast → Type 0
AreReplies [] = Unit
AreReplies (u ∷ us) = (u.portid ≢ 0) × (u.nlmsg_type ≡ netlink_test_reply) × AreReplies us

abbrev pub AreTyped : List Unicast → Type 0
AreTyped [] = Unit
AreTyped (u ∷ us) = (u.nlmsg_type ≡ netlink_test_reply) × AreTyped us

-- `n` calls found no client, and every other buffer that is not freed belongs to a waiting call.
pub record IsSound (n : ℕ) (x : Threads) : Type 0 where
  pub buffers : x.channel.skbs ≡ length x.waiting + n
  pub typed : AreTyped x.waiting
  pub replies : AreReplies x.channel.sent

AreReplies-append :
    (us : List Unicast) (u : Unicast)
    → AreReplies us
    → u.portid ≢ 0
    → u.nlmsg_type ≡ netlink_test_reply
    → AreReplies (us ++ u ∷ [])
AreReplies-append [] u h p t = (p, t, tt)
AreReplies-append (v ∷ us) u h p t = (h.0, h.1, AreReplies-append us u h.2 p t)

AreTyped-middle :
    (vs : List Unicast) (u : Unicast) (us : List Unicast)
    → AreTyped (vs ++ u ∷ us)
    → (u.nlmsg_type ≡ netlink_test_reply) × AreTyped (vs ++ us)
AreTyped-middle [] u us h = h
AreTyped-middle (v ∷ vs) u us h = let (t, rest) = AreTyped-middle vs u us h.1 in (t, (h.0, rest))

length-middle :
    (vs : List Unicast) (u : Unicast) (us : List Unicast)
    → length (vs ++ u ∷ us) ≡ suc (length (vs ++ us))
length-middle [] u us = refl
length-middle (v ∷ vs) u us = ap suc (length-middle vs u us)

begin-filled :
    (k : Kernel) (message : Bytes) (s : Netlink) {u : Unicast} {t : Netlink}
    → send_begin k message s ≡ ok (filled u, t)
    → (u.nlmsg_type ≡ netlink_test_reply) × (t ≡ record s { skbs = s.skbs + 1 })
unfolding send_begin
begin-filled k message s e = ground arith

begin-refused :
    (k : Kernel) (message : Bytes) (s : Netlink) {t : Netlink}
    → send_begin k message s ≡ ok (refused, t)
    → t ≡ s
unfolding send_begin
begin-refused k message s e = ground arith

end-sent :
    (k : Kernel) (u : Unicast) (s : Netlink) {r : ℤ} {t : Netlink}
    → s.pid ≢ 0
    → send_end k u s ≡ ok (r, t)
    → t ≡ record s { sent = s.sent ++ record u { portid = s.pid } ∷ []; skbs = s.skbs - 1 }
unfolding send_end
end-sent k u s client e = ground arith

end-lost :
    (k : Kernel) (u : Unicast) (s : Netlink) {r : ℤ} {t : Netlink}
    → s.pid ≡ 0
    → send_end k u s ≡ ok (r, t)
    → t ≡ s
unfolding send_end
end-lost k u s gone e = ground arith

Step-IsSound :
    {k : Kernel} {x y : Threads} {n : ℕ} (step : Step k x y)
    → IsSound n x
    → IsSound (n + lost step) y
Step-IsSound {k} (begins message s t u us e) h =
    let (typed, same) = begin-filled k message s e in
    record {
      buffers = rw same (omega (arith, h.buffers));
      typed = (typed, h.typed);
      replies = rw same h.replies;
    }
Step-IsSound {k} (refuses message s t us e) h =
    let same = begin-refused k message s e in
    record {
      buffers = rw same (omega (arith, h.buffers));
      typed = h.typed;
      replies = rw same h.replies;
    }
Step-IsSound {k} (sends u vs us s t r client e) h =
    let same = end-sent k u s client e in
    let (typed, rest) = AreTyped-middle vs u us h.typed in
    record {
      buffers = rw same (omega (arith, h.buffers, length-middle vs u us));
      typed = rest;
      replies =
          rw same (AreReplies-append s.sent (record u { portid = s.pid }) h.replies client typed);
    }
Step-IsSound {k} (loses u vs us s t r gone e) h =
    let same = end-lost k u s gone e in
    let (typed, rest) = AreTyped-middle vs u us h.typed in
    record {
      buffers = rw same (omega (arith, h.buffers, length-middle vs u us));
      typed = rest;
      replies = rw same h.replies;
    }
Step-IsSound (writes_pid pid s us) h = record {
  buffers = omega (arith, h.buffers);
  typed = h.typed;
  replies = h.replies;
}
Step-IsSound (writes_flag flag s us) h = record {
  buffers = omega (arith, h.buffers);
  typed = h.typed;
  replies = h.replies;
}

-- However calls of `sendMsgNetlink` and requests interleave, from a channel without buffers and sent
-- messages: what is sent goes to a client and is a reply, and the buffers that are not freed are
-- those of the waiting calls and one for every call that found no client at its second look.
pub Run-IsSound :
    (k : Kernel) (s : Netlink) (y : Threads)
    → s.skbs ≡ 0
    → s.sent ≡ []
    → (run : Run k (threads s []) y) → IsSound (losses run) y
unfolding losses
Run-IsSound k s y none_held none_sent here = record {
  buffers = none_held;
  typed = tt;
  replies = rw none_sent tt;
}
Run-IsSound k s y none_held none_sent (next {y = x} run step) =
    Step-IsSound step (Run-IsSound k s x none_held none_sent run)

pub send_begin-ready :
    (k : Kernel) (s : Netlink) (text rest : Bytes)
    → ((h : List Unicast) (n : ℕ) → length (k.skb_payload h n) ≡ n)
    → IsText text
    → ready k s text ≡ true
    → send_begin k (holding text rest) s
      ≡ ok (filled (record (delivery k s text) { portid = 0 }), record s { skbs = s.skbs + 1 })
unfolding send_begin delivery
send_begin-ready k s text rest data_size t room =
    let n = length text in
    let fits : n < length (k.skb_payload s.sent (nlmsg_space (n + 1) - nlmsghdr_size)) =
      omega (arith, data_size s.sent (nlmsg_space (n + 1) - nlmsghdr_size)) in
    ground (
      arith,
      c_str-holding text rest t,
      write_text-holding (k.skb_payload s.sent (nlmsg_space (n + 1) - nlmsghdr_size)) text fits,
    )

pub send_end-gone :
    (k : Kernel) (u : Unicast) (s : Netlink)
    → send_end k u (record s { pid = 0 }) ≡ ok (negsuc 0, record s { pid = 0 })
unfolding send_end
send_end-gone k u s = refl

-- A run of the steps in which a call loses its buffer.
pub step-loses :
    (k : Kernel) (s : Netlink) (text rest : Bytes) (us : List Unicast)
    → ((h : List Unicast) (n : ℕ) → length (k.skb_payload h n) ≡ n)
    → IsText text
    → ready k s text ≡ true
    → (run : Run k (threads s us) (threads (record s { pid = 0; skbs = s.skbs + 1 }) us)) × (losses
          run
        ≡ 1)
unfolding losses
step-loses k s text rest us data_size t room =
    let u = record (delivery k s text) { portid = 0 } in
    let held = record s { skbs = s.skbs + 1 } in
    (
      next
          (next
            (next here (
              begins (holding text rest) s held u us
                (send_begin-ready k s text rest data_size t room)))
            (writes_pid 0 held (u ∷ us)))
          (loses u [] us (record held { pid = 0 }) (record held { pid = 0 }) (negsuc 0) refl
            (send_end-gone k u held)),
      refl,
    )
