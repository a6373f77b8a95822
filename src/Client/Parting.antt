-- ===== src/Client/Parting.antt =====
-- client/netlink_client.c, src/netLink.c and src/netFilter.c: when the client ends, it is told nothing more.
use netfilter.Base.{
  ℕ, ◌^◌, ◌<◌, ◌≡◌, refl, sym, ap, ◌∙◌, true, List, [], ◌∷◌, ◌++◌, append-nil, Option, none, some,
  inl, inr, arith, Bytes, length, Bool-cases, ok,
}
use netfilter.Kernel.{Unicast, Kernel, nlmsghdr_size}
use netfilter.NetLink.{Netlink, recv_msg_netlink, netlink_test_disconnect}
use netfilter.NetLink.Wire.{nlmsghdr}
use netfilter.NetLink.Receive.{disconnect, recv_msg_netlink-serve, serve}
use netfilter.NetLink.Disconnect.{farewell}
use netfilter.NetFilter.{Module, Verdict}
use netfilter.Client.{System, Client, disconnect_message, quit}
use netfilter.Gate.{
  all_arrived, AreArrivals, all_arrived-AreHappenings, Arrival, Gate, speak, tell, report,
  looked_at, gate_all, handle_all,
}
use netfilter.Gate.Sent.{Sends, serve-Sends}
use netfilter.Gate.Refine.{same_sized, same_route, Shows, handle_all-gate_all}

tell_nobody : (said : Option Bytes) → tell 0 said ≡ []
tell_nobody none = refl
tell_nobody (some text) = refl

-- Without a client, packets are reported to nobody.
gate_all_silent :
    (k : Kernel) (source target : Bytes) (xs : List Arrival) (choice : ℕ)
    → (gate_all k source target (all_arrived xs) (record { client = 0; choice = choice })).told ≡ []
unfolding gate_all
gate_all_silent k source target [] choice = refl
gate_all_silent k source target (a ∷ xs) choice =
    elim (Bool-cases (looked_at k source target a.pkt_type a.ip)) [
      | inl looked ↦
          rw (looked, tell_nobody (report a.ip a.body)) (gate_all_silent k source target xs choice)
      | inr passed ↦ rw passed (gate_all_silent k source target xs choice)
    ]

Sends-nothing : (xs : List (ℕ × Bytes)) (s t : Netlink) → xs ≡ [] → Sends xs s t → t.sent ≡ s.sent
Sends-nothing [] s t e ([], grown, all_there) = grown ∙ append-nil s.sent
Sends-nothing [] s t e (u ∷ us, grown, all_there) = absurd all_there
Sends-nothing (x ∷ xs) s t e sends = cc

quit_sends :
    (sys : System) (c : Client)
    → ((p : Bytes) → sys.sendto p ≡ true)
    → (quit sys c).sent ≡ c.sent ++ disconnect_message sys.getpid ∷ []
unfolding quit
quit_sends sys c sends = rw (sends (disconnect_message sys.getpid)) refl

module _ (k : Kernel) (memory : (h : List Unicast) (n : ℕ) → k.alloc_skb h n ≡ true)
    (data_size : (h : List Unicast) (n : ℕ) → length (k.skb_payload h n) ≡ n)
    (source target : Bytes) where
  disconnect_message-serve :
      (pid : ℕ) (s : Netlink)
      → pid < 2 ^ 32
      → s.live ≡ true
      → recv_msg_netlink k (disconnect_message pid) s ≡ ok (serve k pid disconnect s)
  unfolding disconnect_message
  disconnect_message-serve pid s fits alive =
      ap (λ p. recv_msg_netlink k p s)
        (sym (append-nil (nlmsghdr nlmsghdr_size netlink_test_disconnect pid)))
      ∙ recv_msg_netlink-serve k s data_size (λ e. alive) disconnect nlmsghdr_size pid tt
          (omega arith) fits (omega arith) (omega arith)

  -- For a module whose buffers have the declared sizes, which reads the source and the target, and whose
  -- channel is open, a kernel that has memory and whose fresh buffers have the size asked for, and a
  -- process number of 32 bits: `quit`, of a client whose `sendto` succeeds, sends one message;
  -- `recvMsgNetlink` ends on that message, and sends the farewell to the client that there was, if any; and
  -- whatever whole packets come then, the module handles them all and sends nothing for them.
  pub quit-silent :
      (sys : System) (c : Client) (m : Module) (g : Gate) (xs : List Arrival)
      → Shows source target m g
      → sys.getpid < 2 ^ 32
      → ((p : Bytes) → sys.sendto p ≡ true)
      → AreArrivals xs
      → (message : Bytes) × (t : Netlink) × (verdicts : List Verdict) × (n : Module) × ((quit sys
            c).sent
          ≡ c.sent ++ message ∷ [])
        × (recv_msg_netlink k message m.net ≡ ok t)
        × Sends (speak g.client farewell) m.net t
        × (handle_all k (all_arrived xs) (record m { net = t }) ≡ ok (verdicts, n))
        × (n.net.sent ≡ t.sent)
  quit-silent sys c m g xs shows fits sends arrive =
      let t = serve k sys.getpid disconnect m.net in
      let (parted, still) = serve-Sends k memory disconnect sys.getpid m.net g shows.channel in
      let after : Shows source target (record m { net = t }) (record g { client = 0 }) = record {
        channel = still;
        sized = same_sized m t shows.sized;
        route = same_route m t shows.route;
      } in
      let (n, run, sent, _) =
        handle_all-gate_all k memory data_size source target (all_arrived xs) (record m { net = t })
          (record g { client = 0 }) (all_arrived-AreHappenings xs arrive) after in
      (
        disconnect_message sys.getpid,
        t,
        _,
        n,
        quit_sends sys c sends,
        disconnect_message-serve sys.getpid m.net fits shows.channel.alive,
        parted,
        run,
        Sends-nothing _ t n.net (gate_all_silent k source target xs g.choice) sent,
      )
