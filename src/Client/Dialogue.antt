-- ===== src/Client/Dialogue.antt =====
-- client/netlink_client.c and src/netLink.c: what the client prints is what the module sent.
use netfilter.Base.{Result, ◌>>=◌, List, [], ◌∷◌, Bytes, codes, ok}
use netfilter.Memory.Text.{IsText, holding}
use netfilter.Kernel.{Kernel}
use netfilter.NetLink.{Netlink, send_msg_netlink}
use netfilter.Client.{Client}

-- Calls of `sendMsgNetlink`, one after another, each with a text and what stands behind it in memory.
unfoldable pub send_all : Kernel → List (Bytes × Bytes) → Netlink → Result Netlink
send_all k [] s = ok s
send_all k ((text, rest) ∷ ms) s = do
  (ret, s') ← send_msg_netlink k (holding text rest) s
  send_all k ms s'

abbrev pub texts : List (Bytes × Bytes) → List Bytes
texts [] = []
texts ((text, rest) ∷ ms) = text ∷ texts ms

abbrev AreTexts : List (Bytes × Bytes) → Type 0
AreTexts [] = Unit
AreTexts ((text, rest) ∷ ms) = IsText text × AreTexts ms

abbrev pub greeting : Bytes
greeting = codes "you have connected to the kernel!"
