-- ===== src/EventSender/Rounds.antt =====
-- udpTest_dhy/uclient.c: the rounds of `main` are calls of `func`, one after another.
use netfilter.Base.{
  ◌<◌, ◌⊎◌, inl, inr, Bool-cases, false, ℕ, zero, suc, ◌+◌, ◌*◌, ◌≡◌, refl, sym, ap, ◌∙◌, Bool,
  true, List, [], ◌∷◌, ◌++◌, append_assoc, append-nil, arith, Bytes, length, set, length-set,
  Result, ok, fault,
}
use mathlib.Core.Path.{fun_ext}
use netfilter.Memory.Copy.{put_fits}
use netfilter.EventSender.{
  buffer_size, Sender, Run, running, exited, ◌then_call◌, func, test1, test2, test3, func1, func2,
  func3, rounds, main,
}
use netfilter.EventSender.Packets.{event_of, next_event, Carries, func_lem}

then_call-running : (r : Result Run) → (r then_call (λ s. ok (running s))) ≡ r
then_call-running (fault why) = refl
then_call-running (ok (running s)) = refl
then_call-running (ok (exited s)) = refl

then_call_assoc :
    (r : Result Run) (f g : Sender → Result Run)
    → ((r then_call f) then_call g) ≡ (r then_call (λ s. f s then_call g))
then_call_assoc (fault why) f g = refl
then_call_assoc (ok (running s)) f g = refl
then_call_assoc (ok (exited s)) f g = refl

module _ (sendto : List Bytes → Bytes → Bool) where
  -- That many calls of `func`.
  pub sends : ℕ → Sender → Result Run
  sends zero s = ok (running s)
  sends (suc n) s = func sendto s then_call sends n

  sends_none : (s : Sender) → ok (running s) ≡ sends 0 s
  unfolding sends
  sends_none s = refl

  sends-then_call : (a b c : ℕ) (s : Sender) → a + b ≡ c → (sends a s then_call sends b) ≡ sends c s
  unfolding sends
  sends-then_call zero b c s e = let same : b ≡ c = omega arith in ap (λ n. sends n s) same
  sends-then_call (suc a) b zero s e = absurd (omega arith)
  sends-then_call (suc a) b (suc c) s e =
      then_call_assoc (func sendto s) (sends a) (sends b)
      ∙ ap (λ f. func sendto s then_call f) (fun_ext (λ s'. sends-then_call a b c s' (omega arith)))

  test1-sends : (s : Sender) → test1 sendto s ≡ sends 1 s
  unfolding test1 sends
  test1-sends s = sym (then_call-running (func sendto s))

  test2-sends : (s : Sender) → test2 sendto s ≡ sends 2 s
  unfolding test2 sends
  test2-sends s = ap (λ f. func sendto s then_call f) (fun_ext test1-sends)

  test3-sends : (s : Sender) → test3 sendto s ≡ sends 3 s
  unfolding test3 sends
  test3-sends s = ap (λ f. func sendto s then_call f) (fun_ext test2-sends)

  func1-sends : (s : Sender) → func1 sendto s ≡ sends 1 s
  unfolding func1 sends
  func1-sends s = sym (then_call-running (func sendto s))

  func2-sends : (s : Sender) → func2 sendto s ≡ sends 2 s
  unfolding func2 sends
  func2-sends s = ap (λ f. func sendto s then_call f) (fun_ext func1-sends)

  func3-sends : (s : Sender) → func3 sendto s ≡ sends 3 s
  unfolding func3 sends
  func3-sends s = ap (λ f. func sendto s then_call f) (fun_ext func2-sends)

  rounds-sends : (n : ℕ) (s : Sender) → rounds sendto n s ≡ sends (9 * n) s
  unfolding rounds
  rounds-sends zero s = sends_none s
  rounds-sends (suc n) s =
      rw
        (
          test1-sends s,
          fun_ext test2-sends,
          fun_ext test3-sends,
          fun_ext func3-sends,
          fun_ext (rounds-sends n),
          sends-then_call 1 2 3 s (omega arith),
          sends-then_call 3 3 6 s (omega arith),
          sends-then_call 6 3 9 s (omega arith),
        )
        (sends-then_call 9 (9 * n) (9 * suc n) s (omega arith))

-- Packets with one event after the other, from the place `i` in the array on.
abbrev pub Series : ℕ → List Bytes → Type 0
Series i [] = Unit
Series i (p ∷ ps) = Carries (event_of i) p × Series (next_event i) ps

-- What `n` calls of `func` come to: all packets are sent, or the program exits at one that is refused.
abbrev pub Outcome : (List Bytes → Bytes → Bool) → ℕ → Sender → Result Run → Type 0
Outcome sendto n s r =
    (s' : Sender) × (ps : List Bytes) × (s'.sent ≡ s.sent ++ ps)
    × Series (next_event s.ievent) ps
    × (((r ≡ ok (running s')) × (length ps ≡ n))
        ⊎ ((r ≡ ok (exited s')) × (length ps < n) × (sendto s'.sent s'.packet_data ≡ false)))

module _ (sendto : List Bytes → Bytes → Bool) where
  sends-Outcome :
      (n : ℕ) (s : Sender)
      → length s.packet_data ≡ buffer_size
      → Outcome sendto n s (sends sendto n s)
  unfolding sends
  sends-Outcome zero s ready = (s, [], sym (append-nil s.sent), tt, inl (refl, refl))
  sends-Outcome (suc n) s ready =
      let (d, packet, run) = func_lem sendto s ready in
      let i = next_event s.ievent in
      let s0 = record s { ievent = i; packet_data = d } in
      let s1 = record s0 { sent = s.sent ++ d ∷ [] } in
      elim (Bool-cases (sendto s.sent d)) [
        | inl taken ↦
            let (s2, ps, sent, series, how) = sends-Outcome n s1 packet.packet_size in
            let first : func sendto s ≡ ok (running s1) = run ∙ rw taken refl in
            (
              s2,
              d ∷ ps,
              sent ∙ append_assoc s.sent (d ∷ []) ps,
              (packet, series),
              elim how [
                | inl (r, all_sent) ↦ inl (rw first r, ap suc all_sent)
                | inr (r, some_sent, refused) ↦ inr (rw first r, omega (arith, some_sent), refused)
              ],
            )
        | inr refused ↦
            let first : func sendto s ≡ ok (exited s0) = run ∙ rw refused refl in
            (s0, [], sym (append-nil s.sent), tt, inr (rw first refl, omega arith, refused))
      ]

  -- With a socket and an array of the declared size, whichever calls of `sendto` fail: in `n`
  -- rounds of its loop, each of which ends, the program sends packets of 1024 bytes, each with the
  -- head, the note, the title and an event, and the events follow one another through the array of
  -- events and round again; either it sends 9 * n and runs on, or it has sent fewer and exits at
  -- the packet that `sendto` refuses.
  pub main-Outcome :
      (n : ℕ) (s : Sender)
      → length s.packet_data ≡ buffer_size
      → Outcome sendto (9 * n) s (main true sendto n s)
  unfolding main
  main-Outcome n s ready =
      let d = set s.packet_data 0 0 in
      let size : length d ≡ buffer_size = length-set s.packet_data 0 0 ∙ ready in
      let s0 = record s { packet_data = d } in
      let start : main true sendto n s ≡ sends sendto (9 * n) s0 =
        rw (put_fits s.packet_data 0 0 (omega arith), rounds-sends sendto n s0) refl in
      let (s', ps, sent, series, how) = sends-Outcome (9 * n) s0 size in
      (
        s',
        ps,
        sent,
        series,
        elim how [
          | inl (r, all_sent) ↦ inl (start ∙ r, all_sent)
          | inr (r, some_sent, refused) ↦ inr (start ∙ r, some_sent, refused)
        ],
      )

  -- The packets, where none is refused.
  pub main-Series :
      (n : ℕ) (s : Sender)
      → ((sent : List Bytes) (p : Bytes) → sendto sent p ≡ true)
      → length s.packet_data ≡ buffer_size
      → (s' : Sender) × (ps : List Bytes) × (main true sendto n s ≡ ok (running s'))
        × (s'.sent ≡ s.sent ++ ps)
        × (length ps ≡ 9 * n)
        × Series (next_event s.ievent) ps
  main-Series n s sending ready =
      let (s', ps, sent, series, how) = main-Outcome n s ready in
      elim how [
        | inl (r, all_sent) ↦ (s', ps, r, sent, all_sent, series)
        | inr (r, some_sent, refused) ↦
            absurd (ground (arith, refused, sending s'.sent s'.packet_data))
      ]
