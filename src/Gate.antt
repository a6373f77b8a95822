-- ===== src/Gate.antt =====
-- src/netFilter.c and src/netLink.c: what the module promises, as a gate that knows a client and a
-- choice.
pub mod Arrivals
pub mod Sent
pub mod Refine
use netfilter.Base.{
  ℕ, zero, suc, ◌+◌, ◌-◌, ◌*◌, ◌/◌, ◌%◌, ◌^◌, ◌≤◌, ◌<◌, ◌≡◌, ◌≢◌, ◌↔◌, ◌⊎◌, refl, sym, ap, ap₂, ◌∙◌,
  subst, Bool, true, false, not, ◌&&◌, ◌||◌, List, [], ◌∷◌, ◌++◌, append_assoc, append-nil, Option,
  none, some, inl, inr, arith, Bytes, codes, length, set, get_or, take, drop, replicate,
  length-append, length-set, length-take, length-drop, length-replicate, drop-append, take-append,
  take-append-drop, set-append, take_all, drop-drop_one, ltb, leb, ◌==◌, if◌then◌else◌, Bool-cases,
  Option-cases, le→leb, lt→leb_false, lt→ltb, le→ltb_false, ==_iff, ==_refl, Result, Result-cases,
  ok, fault, Fault, read_overrun, write_overrun, use_after_free, null_dereference, ◌>>=◌, >>=-eq-ok,
  Ensures, >>=-Ensures,
}
use netfilter.Memory.{equal}
use netfilter.Kernel.{Kernel}
use netfilter.DealConf.Address.Quad.{quoted_quad}
use netfilter.NetLink.{recv_msg_netlink}
use netfilter.NetLink.Wire.{nlmsghdr}
use netfilter.NetLink.Receive.{
  Request, connect, disconnect, command, type_of, payload_of, IsRequest,
}
use netfilter.NetFilter.{
  Module, Frame, Verdict, nf_accept, nf_drop, packet_broadcast, ipproto_tcp, ipproto_udp,
}
use netfilter.NetFilter.Hook.{hook_func}
use netfilter.NetFilter.Labels.{labels, label_in}
use netfilter.NetFilter.Log.{IsFrame, line}
use netfilter.NetFilter.Datagram.{Datagram, datagram_bytes, IsDatagram, says_b}
use netfilter.NetFilter.Udp.{udp_line}
use netfilter.NetFilter.Tcp.{Segment, segment_bytes, IsSegment, tcp_line}
use netfilter.NetFilter.Header.{IpHeader, IsIpHeader}
use netfilter.NetFilter.Packet.{on_route, skb_of}
use netfilter.Session.{request, IsEvent}

-- What a whole IP packet carries.
pub data Body : Type 0 where
  udp : Datagram → Body
  tcp : Segment → Body
  other : Bytes → Body

abbrev pub body_bytes : Body → Bytes
body_bytes (udp d) = datagram_bytes d
body_bytes (tcp g) = segment_bytes g
body_bytes (other p) = p

abbrev pub IsBody : IpHeader → Body → Type 0
IsBody ip (udp d) = (ip.protocol ≡ ipproto_udp) × IsDatagram d
IsBody ip (tcp g) =
    (ip.protocol ≡ ipproto_tcp)
    × IsSegment g
    × (ip.tot_len ≡ ip.ihl * 4 + (g.doff * 4 + length g.payload))
IsBody ip (other p) =
    (ip.protocol < 256) × (ip.protocol ≢ ipproto_tcp) × (ip.protocol ≢ ipproto_udp)

-- A packet that comes to the hook, with the locals that the hook finds.
pub record Arrival : Type 0 where
  pub locals : Frame
  pub pkt_type : ℕ
  pub eth : Bytes
  pub ip : IpHeader
  pub body : Body

pub record IsArrival (a : Arrival) : Type 0 where
  pub whole_locals : IsFrame a.locals
  pub whole_ip : IsIpHeader a.ip
  pub whole_body : IsBody a.ip a.body

pub data Happening : Type 0 where
  asked : (r : Request) (len pid : ℕ) → Happening
  arrived : Arrival → Happening

abbrev pub IsHappening : Happening → Type 0
IsHappening (asked r len pid) = IsEvent (request r len pid)
IsHappening (arrived a) = IsArrival a

abbrev pub AreHappenings : List Happening → Type 0
AreHappenings [] = Unit
AreHappenings (h ∷ hs) = IsHappening h × AreHappenings hs

-- The program on happenings, one after another, with the verdicts of the hook.
unfoldable pub handle : Kernel → Happening → Module → Result (List Verdict × Module)
handle k (asked r len pid) m = do
  net ← recv_msg_netlink k (nlmsghdr len (type_of r) pid ++ payload_of r) m.net
  ok ([], record m { net = net })
handle k (arrived a) m = do
  (verdict, n) ← hook_func k a.locals (some (skb_of a.pkt_type a.eth a.ip (body_bytes a.body))) m
  ok (verdict ∷ [], n)

unfoldable pub handle_all : Kernel → List Happening → Module → Result (List Verdict × Module)
handle_all k [] m = ok ([], m)
handle_all k (h ∷ hs) m = do
  (verdicts, m') ← handle k h m
  (rest, n) ← handle_all k hs m'
  ok (verdicts ++ rest, n)

-- The gate: the process to tell, 0 if there is none, and the operator's choice.
pub record Gate : Type 0 where
  pub client : ℕ
  pub choice : ℕ

-- What a happening comes to: the gate after it, the verdicts, and who is told what.
pub record Outcome : Type 0 where
  pub after : Gate
  pub verdicts : List Verdict
  pub told : List (ℕ × Bytes)

-- Nobody is told where there is no client.
abbrev pub speak : ℕ → Bytes → List (ℕ × Bytes)
speak client text = if client == 0 then [] else (client, text) ∷ []

-- The log line of a body, if it gets one.
abbrev pub report : IpHeader → Body → Option Bytes
report ip (udp d) = if says_b d then some (udp_line ip.saddr ip.daddr d) else none
report ip (tcp g) = some (tcp_line ip.saddr ip.daddr g)
report ip (other p) = some (
    label_in labels ip.protocol
    ++ (quoted_quad ip.saddr ++ (codes " ---> " ++ quoted_quad ip.daddr)))

abbrev pub is_b : Body → Bool
is_b (udp d) = says_b d
is_b _ = false

abbrev pub tell : ℕ → Option Bytes → List (ℕ × Bytes)
tell client none = []
tell client (some text) = speak client (line text)

abbrev pub gate_request : Request → ℕ → Gate → Outcome
gate_request connect pid g = record {
  after = record g { client = pid };
  verdicts = [];
  told = speak pid (codes "you have connected to the kernel!");
}
gate_request disconnect pid g = record {
  after = record g { client = 0 };
  verdicts = [];
  told = speak g.client (codes "you have disconnected to the kernel!");
}
gate_request (command text rest) pid g = record {
  after = record g { choice = if equal text (codes "drop") then 2 else 1 };
  verdicts = [];
  told = [];
}

-- Only packets from the source to the target that are not broadcast are looked at.
abbrev pub looked_at : Kernel → Bytes → Bytes → ℕ → IpHeader → Bool
looked_at k source target pkt_type ip =
    not (pkt_type == packet_broadcast) && on_route k source target ip

abbrev pub gate_arrival : Bool → Arrival → Gate → Outcome
gate_arrival true a g = record {
  after = g;
  verdicts = (if is_b a.body && g.choice == 2 then nf_drop else nf_accept) ∷ [];
  told = tell g.client (report a.ip a.body);
}
gate_arrival false a g = record { after = g; verdicts = nf_accept ∷ []; told = [] }

abbrev pub gate_step : Kernel → Bytes → Bytes → Happening → Gate → Outcome
gate_step k source target (asked r len pid) g = gate_request r pid g
gate_step k source target (arrived a) g =
    gate_arrival (looked_at k source target a.pkt_type a.ip) a g

unfoldable pub gate_all : Kernel → Bytes → Bytes → List Happening → Gate → Outcome
gate_all k source target [] g = record { after = g; verdicts = []; told = [] }
gate_all k source target (h ∷ hs) g =
    let first = gate_step k source target h g in
    let rest = gate_all k source target hs first.after in
    record {
      after = rest.after;
      verdicts = first.verdicts ++ rest.verdicts;
      told = first.told ++ rest.told;
    }

-- Packets alone.
abbrev pub all_arrived : List Arrival → List Happening
all_arrived [] = []
all_arrived (a ∷ xs) = arrived a ∷ all_arrived xs

abbrev pub AreArrivals : List Arrival → Type 0
AreArrivals [] = Unit
AreArrivals (a ∷ xs) = IsArrival a × AreArrivals xs

pub all_arrived-AreHappenings :
    (xs : List Arrival) → AreArrivals xs → AreHappenings (all_arrived xs)
all_arrived-AreHappenings [] h = tt
all_arrived-AreHappenings (a ∷ xs) (h, hs) = (h, all_arrived-AreHappenings xs hs)
