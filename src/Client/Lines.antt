-- ===== src/Client/Lines.antt =====
-- client/netlink_client.c and src/netLink.c: messages on their way to the client, and the client's loop on them.
use netfilter.Base.{
  ℕ, suc, ◌+◌, ◌-◌, ◌≤◌, ◌<◌, ◌≡◌, ◌≢◌, refl, sym, ap, ◌∙◌, subst, true, List, [], ◌∷◌, ◌++◌,
  append_assoc, append-nil, arith, Bytes, length, drop, length-append, length-drop, ok,
}
use netfilter.Base.Lists.{take_long}
use netfilter.Memory.{advance}
use netfilter.Memory.Text.{IsText, holding, c_str-holding, advance-append}
use netfilter.Memory.Receive.{write_fits}
use netfilter.Kernel.{Unicast, Kernel, nlmsghdr_size, nlmsg_space}
use netfilter.NetLink.{Netlink}
use netfilter.NetLink.Wire.{nlmsghdr, length-nlmsghdr}
use netfilter.NetLink.Deliver.{told_open, delivery, told}
use netfilter.Client.{maxmsg, recv_buf_size, Client, Received, message, receive, receive_all}

-- A message on its way: the header that `nlmsg_put` made, with the length set, and what is behind it.
abbrev pub unicast_bytes : Unicast → Bytes
unicast_bytes u = nlmsghdr u.nlmsg_len u.nlmsg_type 0 ++ u.payload

-- A round of the loop on a message that carries a text.
receive-text :
    (c : Client) (head text rest : Bytes)
    → IsText text
    → length head ≡ nlmsghdr_size
    → length (head ++ holding text rest) ≤ length c.recv_buf
    → receive (message (head ++ holding text rest)) c
      ≡ ok (record c {
        recv_buf =
            (head ++ holding text rest) ++ drop (length (head ++ holding text rest)) c.recv_buf;
        printed = c.printed ++ text ∷ [];
      })
unfolding receive
receive-text c head text rest t size fits =
    let bytes = head ++ holding text rest in
    let back = drop (length bytes) c.recv_buf in
    let behind : advance (bytes ++ back) nlmsghdr_size ≡ ok (holding text (rest ++ back)) =
      subst (λ n. advance (bytes ++ back) n ≡ ok (holding text (rest ++ back))) size
        (ap (λ p. advance p (length head))
            (append_assoc head (holding text rest) back
              ∙ ap (λ p. head ++ p) (append_assoc text (0 ∷ rest) back))
          ∙ advance-append head (holding text (rest ++ back))) in
    rw
      (
        take_long (length c.recv_buf) bytes fits,
        write_fits c.recv_buf bytes fits,
        behind,
        c_str-holding text (rest ++ back) t,
      )
      refl

-- Texts that the client has room for.
abbrev pub AreLines : List Bytes → Type 0
AreLines [] = Unit
AreLines (t ∷ ts) = IsText t × (length t < maxmsg) × AreLines ts

-- The channel after calls of `sendMsgNetlink`, and the messages that they hand on.
unfoldable pub told_all : Kernel → Netlink → List Bytes → Netlink
told_all k s [] = s
told_all k s (t ∷ ts) = told_all k (told k s t) ts

pub deliveries : Kernel → Netlink → List Bytes → List Unicast
deliveries k s [] = []
deliveries k s (t ∷ ts) = delivery k s t ∷ deliveries k (told k s t) ts

-- `recvfrom` returns the messages in the order in which they were sent.
pub arrivals : List Unicast → List Received
arrivals [] = []
arrivals (u ∷ us) = message (unicast_bytes u) ∷ arrivals us

module _ (k : Kernel) (data_size : (h : List Unicast) (n : ℕ) → length (k.skb_payload h n) ≡ n)
    (memory : (h : List Unicast) (n : ℕ) → k.alloc_skb h n ≡ true) where
  pub sent-told_all :
      (s : Netlink) (ts : List Bytes)
      → s.nl_sk ≡ true
      → s.pid ≢ 0
      → (told_all k s ts).sent ≡ s.sent ++ deliveries k s ts
  unfolding told_all deliveries
  sent-told_all s [] is_set client = sym (append-nil s.sent)
  sent-told_all s (t ∷ ts) is_set client =
      let now = told_open k memory s t is_set client in
      let is_set' : (told k s t).nl_sk ≡ true = ap (λ (n : Netlink). n.nl_sk) now ∙ is_set in
      let client' : (told k s t).pid ≢ 0 =
        λ e. client (sym (ap (λ (n : Netlink). n.pid) now) ∙ e) in
      sent-told_all (told k s t) ts is_set' client'
      ∙ ap (λ (n : Netlink). n.sent ++ deliveries k (told k s t) ts) now
      ∙ append_assoc s.sent (delivery k s t ∷ []) (deliveries k (told k s t) ts)

  receive-delivery :
      (s : Netlink) (c : Client) (t : Bytes)
      → IsText t
      → length t < maxmsg
      → length c.recv_buf ≡ recv_buf_size
      → (c' : Client) × (receive (message (unicast_bytes (delivery k s t))) c ≡ ok c')
        × (c'.printed ≡ c.printed ++ t ∷ [])
        × (c'.sent ≡ c.sent)
        × (length c'.recv_buf ≡ recv_buf_size)
  unfolding delivery
  receive-delivery s c t text short size =
      let total = nlmsg_space (length t + 1) in
      let rest = drop (suc (length t)) (k.skb_payload s.sent (total - nlmsghdr_size)) in
      let head = nlmsghdr (length t + 1 + nlmsghdr_size) (delivery k s t).nlmsg_type 0 in
      let head_size : length head ≡ nlmsghdr_size =
        ap length (sym (append-nil head))
        ∙ length-nlmsghdr (length t + 1 + nlmsghdr_size) (delivery k s t).nlmsg_type 0 [] in
      let bytes = head ++ holding t rest in
      let fits : length bytes ≤ length c.recv_buf = omega (
        arith,
        size,
        length-append head (holding t rest),
        head_size,
        length-append t (0 ∷ rest),
        length-drop (suc (length t)) (k.skb_payload s.sent (total - nlmsghdr_size)),
        data_size s.sent (total - nlmsghdr_size),
      ) in
      (
        _,
        receive-text c head t rest text head_size fits,
        refl,
        refl,
        omega (
          arith,
          fits,
          size,
          length-append bytes (drop (length bytes) c.recv_buf),
          length-drop (length bytes) c.recv_buf,
        ),
      )

  pub receive_all-deliveries :
      (s : Netlink) (ts : List Bytes) (c : Client)
      → AreLines ts
      → length c.recv_buf ≡ recv_buf_size
      → (c' : Client) × (receive_all (arrivals (deliveries k s ts)) c ≡ ok c')
        × (c'.printed ≡ c.printed ++ ts)
        × (c'.sent ≡ c.sent)
  unfolding receive_all deliveries arrivals
  receive_all-deliveries s [] c lines size = (c, refl, sym (append-nil c.printed), refl)
  receive_all-deliveries s (t ∷ ts) c (text, short, lines) size =
      let (c1, first, printed1, sent1, size1) = receive-delivery s c t text short size in
      let (c2, others, printed2, sent2) = receive_all-deliveries (told k s t) ts c1 lines size1 in
      (
        c2,
        rw first others,
        printed2 ∙ ap (λ p. p ++ ts) printed1 ∙ append_assoc c.printed (t ∷ []) ts,
        sent2 ∙ sent1,
      )
