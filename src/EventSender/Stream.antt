-- ===== src/EventSender/Stream.antt =====
-- udpTest_dhy/uclient.c and src/netFilter.c: the hook on the stream of the packets, one after another.
use netfilter.Base.{
  ℕ, zero, suc, ◌+◌, ◌-◌, ◌≤◌, ◌<◌, ◌≡◌, refl, sym, ap, ap₂, ◌∙◌, subst, Bool, true, false, List,
  [], ◌∷◌, arith, Bytes, codes, length, take, drop, if◌then◌else◌, ok,
}
use netfilter.Memory.{equal}
use netfilter.Kernel.{Unicast, Kernel}
use netfilter.NetFilter.{Module, Verdict, nf_accept, nf_drop, ipproto_udp}
use netfilter.NetFilter.Log.{IsFrame}
use netfilter.NetFilter.Header.{IsIpHeader}
use netfilter.EventSender.Packets.{event_of, next_event, below_eleven}
use netfilter.EventSender.Rounds.{Series}
use netfilter.EventSender.Filtered.{packet_datagram, message-packet}
use netfilter.Gate.{
  IsBody, all_arrived, AreArrivals, all_arrived-AreHappenings, udp, Arrival, Gate, looked_at,
  gate_arrival, gate_all, handle_all,
}
use netfilter.Gate.Refine.{Shows, handle_all-gate_all}

-- A UDP packet that brings those bytes to the hook, on the route and not broadcast. The header, the ports
-- and what the hook finds in its locals may be others for each packet.
pub record IsCarrier (k : Kernel) (source target : Bytes) (p : Bytes) (a : Arrival) : Type 0 where
  pub whole_locals : IsFrame a.locals
  pub whole_ip : IsIpHeader a.ip
  pub is_udp : a.ip.protocol ≡ ipproto_udp
  pub looked : looked_at k source target a.pkt_type a.ip ≡ true
  pub port : ℕ
  pub port_fits : port < 65536
  pub checksum : ℕ
  pub brings : a.body ≡ udp (packet_datagram port checksum p)

abbrev pub AreCarriers : Kernel → Bytes → Bytes → List Bytes → List Arrival → Type 0
AreCarriers k source target [] [] = Unit
AreCarriers k source target [] (a ∷ xs) = ⊥
AreCarriers k source target (p ∷ ps) [] = ⊥
AreCarriers k source target (p ∷ ps) (a ∷ xs) =
    IsCarrier k source target p a × AreCarriers k source target ps xs

abbrev pub drops : List Verdict → Bool
drops [] = false
drops (nf_drop ∷ vs) = true
drops (nf_accept ∷ vs) = drops vs

abbrev verdict_on : ℕ → Verdict
verdict_on i = if equal (event_of i) (codes "B") then nf_drop else nf_accept

verdicts_from : ℕ → ℕ → List Verdict
verdicts_from i zero = []
verdicts_from i (suc n) = verdict_on i ∷ verdicts_from (next_event i) n

abbrev after : ℕ → ℕ → ℕ
after zero i = i
after (suc j) i = after j (next_event i)

after-lt : (j i : ℕ) → i < 11 → after j i < 11
after-lt zero i h = h
after-lt (suc j) i h = after-lt j (next_event i) (omega arith)

length-verdicts_from : (i n : ℕ) → length (verdicts_from i n) ≡ n
unfolding verdicts_from
length-verdicts_from i zero = refl
length-verdicts_from i (suc n) = ap suc (length-verdicts_from (next_event i) n)

drop-verdicts_from :
    (j i n m : ℕ) → j + n ≡ m → drop j (verdicts_from i m) ≡ verdicts_from (after j i) n
unfolding verdicts_from
drop-verdicts_from zero i n m e = let same : m ≡ n = omega arith in ap (verdicts_from i) same
drop-verdicts_from (suc j) i n zero e = absurd (omega arith)
drop-verdicts_from (suc j) i n (suc m) e = drop-verdicts_from j (next_event i) n m (omega arith)

take-verdicts_from : (j i n m : ℕ) → j + n ≡ m → take j (verdicts_from i m) ≡ verdicts_from i j
unfolding verdicts_from
take-verdicts_from zero i n m e = refl
take-verdicts_from (suc j) i n zero e = absurd (omega arith)
take-verdicts_from (suc j) i n (suc m) e =
    ap (◌∷◌ (verdict_on i)) (take-verdicts_from j (next_event i) n m (omega arith))

-- Eight events in a row have a "B".
drops_soon : (i : ℕ) → i < 11 → drops (verdicts_from i 8) ≡ true
unfolding verdicts_from equal
drops_soon =
    below_eleven (λ i. drops (verdicts_from i 8) ≡ true) refl refl refl refl refl refl refl refl
      refl refl refl

drops_within : (i j n : ℕ) → i < 11 → j + 8 ≤ n → drops (take 8 (drop j (verdicts_from i n))) ≡ true
drops_within i j n small fits =
    ap (λ vs. drops (take 8 vs)) (drop-verdicts_from j i (n - j) n (omega arith))
    ∙ ap drops (take-verdicts_from 8 (after j i) (n - j - 8) (n - j) (omega arith))
    ∙ drops_soon (after j i) (after-lt j i small)

module _ (k : Kernel) (source target : Bytes) where
  AreCarriers-AreArrivals :
      (i : ℕ) (ps : List Bytes) (xs : List Arrival)
      → Series i ps
      → AreCarriers k source target ps xs
      → AreArrivals xs
  AreCarriers-AreArrivals i [] [] series h = tt
  AreCarriers-AreArrivals i [] (a ∷ xs) series h = absurd h
  AreCarriers-AreArrivals i (p ∷ ps) [] series h = absurd h
  AreCarriers-AreArrivals i (p ∷ ps) (a ∷ xs) (packet, series) (h, hs) = (
    record {
      whole_locals = h.whole_locals;
      whole_ip = h.whole_ip;
      whole_body = subst (IsBody a.ip) (sym h.brings) (
        h.is_udp,
        record {
          source_fits = h.port_fits;
          dest_fits = omega arith;
          length_fits = omega (arith, packet.packet_size);
        },
      );
    },
    AreCarriers-AreArrivals (next_event i) ps xs series hs,
  )

  gate_all-verdicts_from :
      (i : ℕ) (ps : List Bytes) (xs : List Arrival) (client : ℕ)
      → i < 11
      → Series i ps
      → AreCarriers k source target ps xs
      → (gate_all k source target
          (all_arrived xs)
          (record { client = client; choice = 2 })).verdicts
        ≡ verdicts_from i (length ps)
  unfolding gate_all verdicts_from
  gate_all-verdicts_from i [] [] client small series h = refl
  gate_all-verdicts_from i [] (a ∷ xs) client small series h = absurd h
  gate_all-verdicts_from i (p ∷ ps) [] client small series h = absurd h
  gate_all-verdicts_from i (p ∷ ps) (a ∷ xs) client small (packet, series) (h, hs) =
      let says = message-packet i h.port h.checksum p small packet in
      let rest = gate_all-verdicts_from (next_event i) ps xs client (omega arith) series hs in
      rw (h.looked, h.brings, says) (ap₂ (λ v vs. v ∷ vs) (ground arith) rest)

  arrival_keeps : (looked : Bool) (a : Arrival) (g : Gate) → (gate_arrival looked a g).after ≡ g
  arrival_keeps true a g = refl
  arrival_keeps false a g = refl

  kept_choice :
      (xs : List Arrival) (g : Gate) → (gate_all k source target (all_arrived xs) g).after ≡ g
  unfolding gate_all
  kept_choice [] g = refl
  kept_choice (a ∷ xs) g =
      ap (λ h. (gate_all k source target (all_arrived xs) h).after)
        (arrival_keeps (looked_at k source target a.pkt_type a.ip) a g)
      ∙ kept_choice xs g

  -- For a module whose buffers have the declared sizes, which reads the source and the target, whose
  -- channel is open, and whose operator chose to drop, and a kernel that has memory and whose fresh
  -- buffers have the size asked for: the packets that the program sends one after another come to the
  -- hook as UDP packets from the source to the target that are not broadcast; the hook, run on them one
  -- after another, each time in the module that it left before, ends on all of them, among its verdicts on
  -- any eight packets in a row there is a drop, and the choice is still to drop.
  pub handle_all-Series :
      (memory : (h : List Unicast) (n : ℕ) → k.alloc_skb h n ≡ true)
      (data_size : (h : List Unicast) (n : ℕ) → length (k.skb_payload h n) ≡ n) (m : Module)
      (client i : ℕ) (ps : List Bytes) (xs : List Arrival) (j : ℕ)
      → Shows source target m (record { client = client; choice = 2 })
      → i < 11
      → Series i ps
      → AreCarriers k source target ps xs
      → j + 8 ≤ length ps
      → (verdicts : List Verdict) × (n : Module) × (handle_all k (all_arrived xs) m
          ≡ ok (verdicts, n))
        × (length verdicts ≡ length ps)
        × (drops (take 8 (drop j verdicts)) ≡ true)
        × (n.net.operatorflag ≡ 2)
  handle_all-Series memory data_size m client i ps xs j shows small series carry fits =
      let g : Gate = record { client = client; choice = 2 } in
      let arrive = all_arrived-AreHappenings xs (AreCarriers-AreArrivals i ps xs series carry) in
      let (n, run, sent, shown) =
        handle_all-gate_all k memory data_size source target (all_arrived xs) m g arrive shows in
      let same = gate_all-verdicts_from i ps xs client small series carry in
      (
        verdicts_from i (length ps),
        n,
        run ∙ ap (λ vs. ok (vs, n)) same,
        length-verdicts_from i (length ps),
        drops_within i j (length ps) small fits,
        shown.channel.same_choice ∙ ap (λ (o : Gate). o.choice) (kept_choice xs g),
      )
