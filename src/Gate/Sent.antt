-- ===== src/Gate/Sent.antt =====
-- src/netLink.c: whom the channel tells what, against the gate.
use netfilter.Base.{
  ℕ, ◌≡◌, ◌≢◌, refl, sym, ap, ◌∙◌, subst, true, List, [], ◌∷◌, ◌++◌, append_assoc, append-nil,
  Option, none, some, inl, inr, arith, Bytes, codes, ◌==◌, if◌then◌else◌, Bool-cases,
}
use netfilter.Memory.{equal}
use netfilter.Memory.Text.{holding}
use netfilter.Kernel.{Unicast, Kernel}
use netfilter.NetLink.{Netlink, netlink_test_reply}
use netfilter.NetLink.Deliver.{told, delivery, told_open, told_nobody}
use netfilter.NetLink.Receive.{Request, connect, disconnect, command, serve}
use netfilter.NetFilter.Log.{line}
use netfilter.Gate.{Gate, speak, tell, gate_request}
use netfilter.Gate.Arrivals.{tell_net}

-- A message that carries a text to a process.
abbrev pub IsDelivery : ℕ × Bytes → Unicast → Type 0
IsDelivery (pid, text) u =
    (u.portid ≡ pid)
    × (u.nlmsg_type ≡ netlink_test_reply)
    × (rest : Bytes) × (u.payload ≡ holding text rest)

-- One message for each text, in their order.
abbrev pub Delivers : List (ℕ × Bytes) → List Unicast → Type 0
Delivers [] [] = Unit
Delivers [] (u ∷ us) = ⊥
Delivers (x ∷ xs) [] = ⊥
Delivers (x ∷ xs) (u ∷ us) = IsDelivery x u × Delivers xs us

Delivers-append :
    (xs ys : List (ℕ × Bytes)) (us vs : List Unicast)
    → Delivers xs us
    → Delivers ys vs
    → Delivers (xs ++ ys) (us ++ vs)
Delivers-append [] ys [] vs a b = b
Delivers-append [] ys (u ∷ us) vs a b = absurd a
Delivers-append (x ∷ xs) ys [] vs a b = absurd a
Delivers-append (x ∷ xs) ys (u ∷ us) vs (h, a) b = (h, Delivers-append xs ys us vs a b)

-- The channel is open, and has the client and the choice of the gate.
pub record IsOpen (s : Netlink) (g : Gate) : Type 0 where
  pub socket : s.nl_sk ≡ true
  pub alive : s.live ≡ true
  pub same_client : s.pid ≡ g.client
  pub same_choice : s.operatorflag ≡ g.choice

-- What the channel sent on the way from `s` to `t`.
abbrev pub Sends : List (ℕ × Bytes) → Netlink → Netlink → Type 0
Sends xs s t = (us : List Unicast) × (t.sent ≡ s.sent ++ us) × Delivers xs us

pub Sends-none : (s t : Netlink) → t.sent ≡ s.sent → Sends [] s t
Sends-none s t e = ([], e ∙ sym (append-nil s.sent), tt)

pub Sends-append :
    (xs ys : List (ℕ × Bytes)) (s t u : Netlink)
    → Sends xs s t
    → Sends ys t u
    → Sends (xs ++ ys) s u
Sends-append xs ys s t u (us, e, a) (vs, f, b) =
    (us ++ vs, f ∙ ap (λ l. l ++ vs) e ∙ append_assoc s.sent us vs, Delivers-append xs ys us vs a b)

-- What a text that is told comes to.
abbrev Told : Kernel → Netlink → Gate → Bytes → Netlink → Type 0
Told k s g text t = Sends (speak g.client text) s t × IsOpen t g

told-Told :
    (k : Kernel) (memory : (h : List Unicast) (n : ℕ) → k.alloc_skb h n ≡ true) (s : Netlink)
    (g : Gate) (text : Bytes)
    → IsOpen s g
    → Told k s g text (told k s text)
unfolding delivery
told-Told k memory s g text o = elim (Bool-cases (g.client == 0)) [
  | inl nobody ↦
      let gone : s.pid ≡ 0 = ground (arith, o.same_client) in
      subst (Told k s g text) (sym (told_nobody k s text gone)) (rw nobody (Sends-none s s refl), o)
  | inr client ↦
      let here : s.pid ≢ 0 = ground (arith, o.same_client) in
      subst (Told k s g text) (sym (told_open k memory s text o.socket here)) (
        rw client (delivery k s text ∷ [], refl, ((o.same_client, refl, _, refl), tt)),
        record {
          socket = o.socket;
          alive = o.alive;
          same_client = o.same_client;
          same_choice = o.same_choice;
        },
      )
]

module _ (k : Kernel) (memory : (h : List Unicast) (n : ℕ) → k.alloc_skb h n ≡ true) where
  pub serve-Sends :
      (r : Request) (pid : ℕ) (s : Netlink) (g : Gate)
      → IsOpen s g
      → Sends (gate_request r pid g).told s (serve k pid r s)
        × IsOpen (serve k pid r s) (gate_request r pid g).after
  unfolding serve
  serve-Sends connect pid s g o =
      told-Told k memory (record s { pid = pid }) (record g { client = pid }) _
        (record {
          socket = o.socket;
          alive = o.alive;
          same_client = refl;
          same_choice = o.same_choice;
        })
  serve-Sends disconnect pid s g o =
      let (sends, still) =
        told-Told k memory s g (codes "you have disconnected to the kernel!") o in
      (
        sends,
        record {
          socket = still.socket;
          alive = still.alive;
          same_client = refl;
          same_choice = still.same_choice;
        },
      )
  serve-Sends (command text rest) pid s g o = (
    Sends-none s (record s { operatorflag = if equal text (codes "drop") then 2 else 1 }) refl,
    record { socket = o.socket; alive = o.alive; same_client = o.same_client; same_choice = refl },
  )

  pub tell_net-Sends :
      (s : Netlink) (g : Gate) (said : Option Bytes)
      → IsOpen s g
      → Sends (tell g.client said) s (tell_net k s said) × IsOpen (tell_net k s said) g
  tell_net-Sends s g none o = (Sends-none s s refl, o)
  tell_net-Sends s g (some text) o = told-Told k memory s g (line text) o
