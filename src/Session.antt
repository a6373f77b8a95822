-- ===== src/Session.antt =====
-- The module in use: requests of clients and packets, in any order (src/netLink.c and
-- src/netFilter.c together).
use netfilter.Base.{
  ℕ, ◌+◌, ◌^◌, ◌≤◌, ◌<◌, ◌≡◌, refl, sym, ap, ◌∙◌, true, List, [], ◌∷◌, ◌++◌, some, arith, codes,
  length, if◌then◌else◌, Result, ok, ◌>>=◌, >>=-eq-ok,
}
use netfilter.Memory.{equal}
use netfilter.Kernel.{Unicast, Kernel, nlmsghdr_size}
use netfilter.NetLink.{Netlink}
use netfilter.NetFilter.{Module, SkBuff, Frame, Verdict, nf_drop}
use netfilter.NetLink.{recv_msg_netlink}
use netfilter.NetLink.Wire.{nlmsghdr}
use netfilter.NetLink.Receive.{
  Request, connect, disconnect, command, type_of, payload_of, IsRequest, serve,
  recv_msg_netlink-serve,
}
use netfilter.NetLink.Deliver.{told}
use netfilter.NetFilter.Reasons.{hook_func-drop, hook_func-SameSettings}
use netfilter.NetFilter.Hook.{hook_func}

-- What happens to the module: a request from the process `pid`, with the length that its header
-- gives, or a packet.
pub data Event : Type 0 where
  request : (r : Request) (len pid : ℕ) → Event
  packet : Frame → SkBuff → Event

-- The event's bytes go to `recvMsgNetlink`, its packet to the hook.
unfoldable pub handle : Kernel → Event → Module → Result Module
handle k (request r len pid) m = do
  net ← recv_msg_netlink k (nlmsghdr len (type_of r) pid ++ payload_of r) m.net
  ok (record m { net = net })
handle k (packet fr skb) m = do (verdict, n) ← hook_func k fr (some skb) m; ok n

unfoldable pub run : Kernel → List Event → Module → Result Module
run k [] m = ok m
run k (e ∷ es) m = handle k e m >>= run k es

-- The choice that a request leaves the operator with.
abbrev pub chosen_by : Event → ℕ → ℕ
chosen_by (request (command text rest) len pid) flag = if equal text (codes "drop") then 2 else 1
chosen_by _ flag = flag

-- The last command decides; before the first it is the choice at the start.
pub chosen : List Event → ℕ → ℕ
chosen [] flag = flag
chosen (e ∷ es) flag = chosen es (chosen_by e flag)

-- Requests whose header is right.
abbrev pub IsEvent : Event → Type 0
IsEvent (request r len pid) =
    IsRequest r
    × (len < 2 ^ 32)
    × (pid < 2 ^ 32)
    × (nlmsghdr_size ≤ len)
    × (len ≤ nlmsghdr_size + length (payload_of r))
IsEvent (packet fr skb) = Unit

abbrev pub AreEvents : List Event → Type 0
AreEvents [] = Unit
AreEvents (e ∷ es) = IsEvent e × AreEvents es

-- The socket is there whenever the pointer to it is set.
abbrev pub IsAlive : Module → Type 0
IsAlive m = m.net.nl_sk ≡ true → m.net.live ≡ true

serve-flag :
    (k : Kernel) (pid : ℕ) (r : Request) (s : Netlink) (len : ℕ)
    → (serve k pid r s).operatorflag ≡ chosen_by (request r len pid) s.operatorflag
unfolding serve told
serve-flag k pid connect s len = ground arith
serve-flag k pid disconnect s len = ground arith
serve-flag k pid (command text rest) s len = refl

serve-alive :
    (k : Kernel) (pid : ℕ) (r : Request) (s : Netlink)
    → ((serve k pid r s).nl_sk ≡ s.nl_sk) × ((serve k pid r s).live ≡ s.live)
unfolding serve told
serve-alive k pid connect s = ground arith
serve-alive k pid disconnect s = ground arith
serve-alive k pid (command text rest) s = (refl, refl)

module _ (k : Kernel)
    (data_size : (h : List Unicast) (n : ℕ) → length (k.skb_payload h n) ≡ n) where
  handle-chosen :
      (e : Event) (m n : Module)
      → IsEvent e
      → IsAlive m
      → handle k e m ≡ ok n
      → (n.net.operatorflag ≡ chosen_by e m.net.operatorflag) × IsAlive n
  unfolding handle
  handle-chosen (request r len pid) m n (h, hl, hp, lo, hi) alive e =
      let served = recv_msg_netlink-serve k m.net data_size alive r len pid h hl hp lo hi in
      ground (arith, served, serve-flag k pid r m.net len, serve-alive k pid r m.net)
  handle-chosen (packet fr skb) m n h alive e =
      let ((v, n'), hooked, last) =
        >>=-eq-ok (hook_func k fr (some skb) m) (λ (r : Verdict × Module). ok (r.1)) e in
      let same = hook_func-SameSettings k fr (some skb) m n' v hooked in ground (arith, same)

  -- From a channel whose set pointer has a socket behind it, with a kernel whose fresh buffers have the
  -- size asked for: when a sequence of requests with right headers and of any packets has run to its
  -- end, the operator's choice is the one that the last command asked for, or the one at the start if
  -- there was no command.
  pub run-chosen :
      (es : List Event) (m n : Module)
      → AreEvents es
      → IsAlive m
      → run k es m ≡ ok n
      → n.net.operatorflag ≡ chosen es m.net.operatorflag
  unfolding run chosen
  run-chosen [] m n h alive e = ground arith
  run-chosen (e ∷ es) m n (h, hs) alive r =
      let (mid, first, rest) = >>=-eq-ok (handle k e m) (run k es) r in
      let (flag, still) = handle-chosen e m mid h alive first in
      run-chosen es mid n hs still rest ∙ ap (chosen es) flag

  -- From a channel whose set pointer has a socket behind it, with a kernel whose fresh buffers have the
  -- size asked for: if the hook drops a packet after a sequence of requests with right headers and of
  -- any packets has run to its end, then the choice that the sequence leaves is to drop: its last
  -- command was "drop", or it had none and that was the choice at the start.
  pub dropped-chosen :
      (es : List Event) (m n o : Module) (fr : Frame) (skb : SkBuff)
      → AreEvents es
      → IsAlive m
      → run k es m ≡ ok n
      → hook_func k fr (some skb) n ≡ ok (nf_drop, o)
      → chosen es m.net.operatorflag ≡ 2
  dropped-chosen es m n o fr skb h alive r d =
      let (iph, there, reason) = (hook_func-drop k fr skb n o d).reason in
      sym (run-chosen es m n h alive r) ∙ reason.told_to_drop
