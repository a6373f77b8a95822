-- ===== src/NetLink/Receive.antt =====
-- src/netLink.c: what `recvMsgNetlink` makes of each request, and of a message that is cut short.
use netfilter.Base.{
  ℕ, ◌+◌, ◌^◌, ◌≤◌, ◌<◌, ◌≡◌, true, ◌&&◌, List, [], ◌++◌, arith, Bytes, codes, length, leb,
  if◌then◌else◌, le→leb, ok,
}
use netfilter.Memory.{advance, equal}
use netfilter.Memory.Text.{IsText, holding, c_str-holding}
use netfilter.Kernel.{Unicast, Kernel, nlmsghdr_size, nlmsg_space}
use netfilter.NetLink.{
  Netlink, netlink_test_connect, netlink_test_disconnect, netlink_test_command, dispatch,
  recv_msg_netlink,
}
use netfilter.NetLink.Deliver.{told, send-told}
use netfilter.NetLink.Wire.{
  nlmsghdr, length-nlmsghdr, drop-nlmsghdr, nlmsghdr_len, nlmsghdr_type, nlmsghdr_pid,
}

-- What a client may ask for; the rest is the bytes behind the NUL of a command.
pub data Request : Type 0 where
  connect : Request
  disconnect : Request
  command : (text rest : Bytes) → Request

abbrev pub type_of : Request → ℕ
type_of connect = netlink_test_connect
type_of disconnect = netlink_test_disconnect
type_of (command text rest) = netlink_test_command

abbrev pub payload_of : Request → Bytes
payload_of connect = []
payload_of disconnect = []
payload_of (command text rest) = holding text rest

abbrev pub IsRequest : Request → Type 0
IsRequest (command text rest) = IsText text
IsRequest _ = Unit

-- A connection is answered when it is made, and a disconnection before it is; a command sets the
-- operator's choice, and any text but "drop" lets packets pass.
unfoldable pub serve : Kernel → ℕ → Request → Netlink → Netlink
serve k pid connect s = told k (record s { pid = pid }) (codes "you have connected to the kernel!")
serve k pid disconnect s = record (told k s (codes "you have disconnected to the kernel!")) {
  pid = 0;
}
serve k pid (command text rest) s = record s {
  operatorflag = if equal text (codes "drop") then 2 else 1;
}

advance_header :
    (len type pid : ℕ) (payload : Bytes)
    → advance (nlmsghdr len type pid ++ payload) nlmsghdr_size ≡ ok payload
unfolding advance
advance_header len type pid payload = rw (
  le→leb nlmsghdr_size (length (nlmsghdr len type pid ++ payload))
      (omega (arith, length-nlmsghdr len type pid payload)),
  drop-nlmsghdr len type pid payload,
)

-- A whole header is read, and the branch is chosen by its type.
recv_msg_netlink-dispatch :
    (k : Kernel) (s : Netlink) (len type pid : ℕ) (payload : Bytes)
    → len < 2 ^ 32
    → type < 2 ^ 16
    → pid < 2 ^ 32
    → recv_msg_netlink k (nlmsghdr len type pid ++ payload) s ≡ (
        if leb nlmsghdr_size len && leb len (nlmsghdr_size + length payload)
        then dispatch k (nlmsghdr len type pid ++ payload) type pid s
        else ok s)
unfolding recv_msg_netlink
recv_msg_netlink-dispatch k s len type pid payload hl ht hp = rw (
  length-nlmsghdr len type pid payload,
  le→leb (nlmsg_space 0) (nlmsghdr_size + length payload) (omega arith),
  nlmsghdr_len len type pid payload hl,
  nlmsghdr_type len type pid payload ht,
  nlmsghdr_pid len type pid payload hp,
)

module _ (k : Kernel) (s : Netlink)
    (data_size : (h : List Unicast) (n : ℕ) → length (k.skb_payload h n) ≡ n)
    (alive : s.nl_sk ≡ true → s.live ≡ true) where
  -- For a channel whose set pointer has a socket behind it, a kernel whose fresh buffers have the size
  -- asked for, and the bytes of a request to connect, to disconnect or with a command text: if its
  -- header gives a length from the header's own to that of the whole message, `recvMsgNetlink` ends
  -- and has served the request.
  pub recv_msg_netlink-serve :
      (r : Request) (len pid : ℕ)
      → IsRequest r
      → len < 2 ^ 32
      → pid < 2 ^ 32
      → nlmsghdr_size ≤ len
      → len ≤ nlmsghdr_size + length (payload_of r)
      → recv_msg_netlink k (nlmsghdr len (type_of r) pid ++ payload_of r) s ≡ ok (serve k pid r s)
  unfolding serve
  recv_msg_netlink-serve connect len pid h hl hp lo hi =
      let (ret, sent) =
        send-told k (record s { pid = pid }) (codes "you have connected to the kernel!") []
          data_size alive (omega arith) in
      rw (
        recv_msg_netlink-dispatch k s len netlink_test_connect pid [] hl (omega arith) hp,
        le→leb nlmsghdr_size len lo,
        le→leb len (nlmsghdr_size + 0) hi,
        sent,
      )
  recv_msg_netlink-serve disconnect len pid h hl hp lo hi =
      let (ret, sent) =
        send-told k s (codes "you have disconnected to the kernel!") [] data_size alive
          (omega arith) in
      rw (
        recv_msg_netlink-dispatch k s len netlink_test_disconnect pid [] hl (omega arith) hp,
        le→leb nlmsghdr_size len lo,
        le→leb len (nlmsghdr_size + 0) hi,
        sent,
      )
  recv_msg_netlink-serve (command text rest) len pid h hl hp lo hi =
      let payload = holding text rest in
      let skb = nlmsghdr len netlink_test_command pid ++ payload in
      rw (
        recv_msg_netlink-dispatch k s len netlink_test_command pid payload hl (omega arith) hp,
        le→leb nlmsghdr_size len lo,
        le→leb len (nlmsghdr_size + length payload) hi,
        advance_header len netlink_test_command pid payload,
        c_str-holding text rest h,
        c_str-holding (codes "drop") [] (omega arith),
      )
