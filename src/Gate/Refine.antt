-- ===== src/Gate/Refine.antt =====
-- src/netFilter.c and src/netLink.c: the module does what the gate does.
use netfilter.Base.{
  ℕ, ◌≡◌, refl, sym, ap, ◌∙◌, subst, Bool, true, false, ◌&&◌, List, [], ◌∷◌, ◌++◌, some, Bytes,
  length, ◌==◌, if◌then◌else◌, Result, ok,
}
use netfilter.Memory.{c_str}
use netfilter.Kernel.{Unicast, Kernel}
use netfilter.NetLink.{Netlink, recv_msg_netlink}
use netfilter.NetLink.Wire.{nlmsghdr}
use netfilter.NetLink.Receive.{
  Request, type_of, payload_of, connect, disconnect, command, serve, recv_msg_netlink-serve,
}
use netfilter.NetFilter.{Module, Verdict, nf_accept, nf_drop}
use netfilter.NetFilter.Hook.{hook_func}
use netfilter.NetFilter.Datagram.{IsSized}
use netfilter.NetFilter.Frames.{SameSettings}
use netfilter.NetFilter.Reasons.{hook_func-SameSettings}
use netfilter.NetFilter.SizedHook.{hook_func-IsSized}
use netfilter.NetFilter.Packet.{Route, skb_of}
use netfilter.Gate.{
  body_bytes, Arrival, Happening, asked, arrived, IsHappening, AreHappenings, handle, handle_all,
  Gate, Outcome, tell, report, is_b, gate_request, looked_at, gate_arrival, gate_step, gate_all,
}
use netfilter.Gate.Sent.{IsOpen, Sends, Sends-none, Sends-append, serve-Sends, tell_net-Sends}
use netfilter.Gate.Arrivals.{tell_net, Seen, hook_func-Seen}

-- A module and the gate that it implements.
pub record Shows (source target : Bytes) (m : Module) (g : Gate) : Type 0 where
  pub channel : IsOpen m.net g
  pub sized : IsSized m
  pub route : Route m source target

-- The buffers and the addresses do not depend on the channel.
pub same_sized : (m : Module) (t : Netlink) → IsSized m → IsSized (record m { net = t })
same_sized m t s = record {
  newcontent_size = s.newcontent_size;
  xmldest_size = s.xmldest_size;
  body_size = s.body_size;
  line_size = s.line_size;
}

pub same_route :
    {source target : Bytes} (m : Module) (t : Netlink)
    → Route m source target
    → Route (record m { net = t }) source target
same_route m t r = record { source_read = r.source_read; target_read = r.target_read }

module _ (k : Kernel) (memory : (h : List Unicast) (n : ℕ) → k.alloc_skb h n ≡ true)
    (data_size : (h : List Unicast) (n : ℕ) → length (k.skb_payload h n) ≡ n)
    (source target : Bytes) where
  -- A happening on both sides.
  abbrev Agree : Outcome → Module → Result (List Verdict × Module) → Type 0
  Agree o m r =
      (n : Module) × (r ≡ ok (o.verdicts, n))
      × Sends o.told m.net n.net
      × Shows source target n o.after

  kept_route : (m n : Module) → Route m source target → SameSettings m n → Route n source target
  kept_route m n r same = record {
    source_read = ap c_str same.same_sourceip ∙ r.source_read;
    target_read = ap c_str same.same_targetip ∙ r.target_read;
  }

  -- The hook on a packet that is looked at, or is not.
  arrival-Agree :
      (a : Arrival) (m : Module) (g : Gate) (looked : Bool)
      → Shows source target m g
      → Seen k m a.locals a.pkt_type a.eth a.ip a.body looked
      → Agree (gate_arrival looked a g) m (handle k (arrived a) m)
  unfolding handle
  arrival-Agree a m g looked s (n, run, net) =
      let skb = skb_of a.pkt_type a.eth a.ip (body_bytes a.body) in
      let same = hook_func-SameSettings k a.locals (some skb) m n _ run in
      let sized = hook_func-IsSized k a.locals skb m s.sized (_, n) run in
      let route = kept_route m n s.route same in said looked net run sized route
    where
      said :
          (looked : Bool)
          → n.net ≡ (if looked then tell_net k m.net (report a.ip a.body) else m.net)
          → hook_func k a.locals (some (skb_of a.pkt_type a.eth a.ip (body_bytes a.body))) m
            ≡ ok (
              if looked && (is_b a.body && m.net.operatorflag == 2) then nf_drop else nf_accept,
              n,
            )
          → IsSized n
          → Route n source target
          → Agree (gate_arrival looked a g) m (handle k (arrived a) m)
      said true net run sized route =
          let (sends, still) = tell_net-Sends k memory m.net g (report a.ip a.body) s.channel in
          (
            n,
            rw run (
                ap (λ f. ok ((if is_b a.body && f == 2 then nf_drop else nf_accept) ∷ [], n))
                  s.channel.same_choice),
            subst (Sends (tell g.client (report a.ip a.body)) m.net) (sym net) sends,
            record {
              channel = subst (λ t. IsOpen t g) (sym net) still;
              sized = sized;
              route = route;
            },
          )
      said false net run sized route = (
        n,
        rw run refl,
        Sends-none m.net n.net (ap (λ (t : Netlink). t.sent) net),
        record {
          channel = subst (λ t. IsOpen t g) (sym net) s.channel;
          sized = sized;
          route = route;
        },
      )

  asked_run :
      (r : Request) (len pid : ℕ) (m : Module) (g : Gate) {t : Netlink}
      → recv_msg_netlink k (nlmsghdr len (type_of r) pid ++ payload_of r) m.net ≡ ok t
      → handle k (asked r len pid) m ≡ ok ((gate_request r pid g).verdicts, record m { net = t })
  unfolding handle
  asked_run connect len pid m g e = rw e refl
  asked_run disconnect len pid m g e = rw e refl
  asked_run (command text rest) len pid m g e = rw e refl

  handle-Agree :
      (h : Happening) (m : Module) (g : Gate)
      → IsHappening h
      → Shows source target m g
      → Agree (gate_step k source target h g) m (handle k h m)
  handle-Agree (asked r len pid) m g (h, hl, hp, lo, hi) s =
      let served =
        recv_msg_netlink-serve k m.net data_size (λ e. s.channel.alive) r len pid h hl hp lo hi in
      let (sends, still) = serve-Sends k memory r pid m.net g s.channel in
      (
        record m { net = serve k pid r m.net },
        asked_run r len pid m g served,
        sends,
        record { channel = still; sized = same_sized m _ s.sized; route = same_route m _ s.route },
      )
  handle-Agree (arrived a) m g whole s =
      arrival-Agree a m g (looked_at k source target a.pkt_type a.ip) s (
        hook_func-Seen k m source target data_size (λ e. s.channel.alive) s.sized s.route a.locals
          a.pkt_type a.eth a.ip whole.whole_locals whole.whole_ip a.body whole.whole_body)

  handle_all_none : (m : Module) → handle_all k [] m ≡ ok ([], m)
  unfolding handle_all
  handle_all_none m = refl

  handle_all_step :
      (h : Happening) (hs : List Happening) (m n o : Module) {vs ws : List Verdict}
      → handle k h m ≡ ok (vs, n)
      → handle_all k hs n ≡ ok (ws, o)
      → handle_all k (h ∷ hs) m ≡ ok (vs ++ ws, o)
  unfolding handle_all
  handle_all_step h hs m n o e f = rw (e, f) refl

  -- For a module whose buffers have the declared sizes, which reads the source and the target, and
  -- whose channel is open, a kernel that has memory and whose fresh buffers have the size asked
  -- for, and any sequence of requests with right headers and of whole packets of any protocol: the
  -- module handles all of them, with the verdicts of the gate, the messages that it sends carry the
  -- texts of the gate, in their order and to the same processes, and the module then shows the
  -- gate's state.
  pub handle_all-gate_all :
      (hs : List Happening) (m : Module) (g : Gate)
      → AreHappenings hs
      → Shows source target m g
      → (n : Module) × (handle_all k hs m ≡ ok ((gate_all k source target hs g).verdicts, n))
        × Sends (gate_all k source target hs g).told m.net n.net
        × Shows source target n (gate_all k source target hs g).after
  unfolding gate_all
  handle_all-gate_all [] m g whole s = (m, handle_all_none m, Sends-none m.net m.net refl, s)
  handle_all-gate_all (h ∷ hs) m g (whole, wholes) s =
      let first = gate_step k source target h g in
      let (n, run, sends, shows) = handle-Agree h m g whole s in
      let (o, others, rest, last) = handle_all-gate_all hs n first.after wholes shows in
      (
        o,
        handle_all_step h hs m n o run others,
        Sends-append first.told (gate_all k source target hs first.after).told m.net n.net o.net
            sends rest,
        last,
      )
