-- ===== src/UdpTest/Served.antt =====
-- udpTest/udpserver.c: what is counted, and the datagrams that overrun the array.
use netfilter.Base.Int.{increment_small}
use netfilter.Base.{
  sym, ◌^◌, ℕ, suc, ◌+◌, ◌%◌, ◌≤◌, ◌<◌, ◌≡◌, refl, ap, ◌∙◌, Bool, true, false, ◌||◌, List, [], ◌∷◌,
  ◌++◌, inl, inr, arith, Bytes, length, take, drop, ◌==◌, if◌then◌else◌, Bool-cases, ok, fault,
  write_overrun, >>=-eq-ok,
}
use netfilter.Base.Results.{>>=-fault}
use netfilter.Memory.{put, write}
use netfilter.Memory.Text.{text_of}
use netfilter.Memory.Receive.{ended, length-ended, c_str-text_of, recv-ended, recv_overrun}
use netfilter.UdpTest.Server.{
  recvline_size, Status, serving, done, Server, Received, datagram, says_quit, round, go_on, rounds,
  main,
}

abbrev pub arrivals : List Bytes → List Received
arrivals [] = []
arrivals (d ∷ ds) = datagram d ∷ arrivals ds

-- The datagrams up to the first "quit", counted, and whether there is one.
unfoldable pub counted : List Bytes → ℕ
counted [] = 0
counted (d ∷ ds) = let rest = counted ds in if says_quit (text_of d) then 1 else rest + 1

unfoldable pub quits : List Bytes → Bool
quits [] = false
quits (d ∷ ds) = says_quit (text_of d) || quits ds

abbrev pub AreSmall : List Bytes → Type 0
AreSmall [] = Unit
AreSmall (d ∷ ds) = (length d < recvline_size) × AreSmall ds

round-datagram :
    (d : Bytes) (s : Server)
    → length d < recvline_size
    → length s.recvline ≡ recvline_size
    → s.count + 1 < 2 ^ 31
    → (s' : Server) × (round (datagram d) s ≡ ok s')
      × (s'.count ≡ s.count + 1)
      × (length s'.recvline ≡ recvline_size)
      × (s'.status ≡ (if says_quit (text_of d) then done else serving))
unfolding round
round-datagram d s small size few =
    let (filled, w, e) =
      >>=-eq-ok (write s.recvline (take 1024 d)) (λ filled. put filled (length (take 1024 d)) 0)
        (recv-ended s.recvline d 1024 (omega arith) (omega arith)) in
    let s' : Server = record {
      recvline = ended d s.recvline;
      count = s.count + 1;
      printed = if (s.count + 1) % 1000 == 0 then s.printed ++ text_of d ∷ [] else s.printed;
      status = if says_quit (text_of d) then done else serving;
    } in
    (
      s',
      rw (w, e, increment_small s.count few, c_str-text_of d (drop (suc (length d)) s.recvline))
          refl,
      refl,
      length-ended d s.recvline (omega arith) ∙ size,
      refl,
    )

rounds_step :
    (r : Received) (rs : List Received) (s s1 : Server)
    → round r s ≡ ok s1
    → rounds (r ∷ rs) s ≡ go_on (rounds rs) s1.status s1
unfolding rounds
rounds_step r rs s s1 e = rw e refl

rounds_none : (s : Server) → rounds [] s ≡ ok s
unfolding rounds
rounds_none s = refl

counted_quit :
    (d : Bytes) (ds : List Bytes)
    → says_quit (text_of d) ≡ true
    → (counted (d ∷ ds) ≡ 1) × (quits (d ∷ ds) ≡ true)
unfolding counted quits
counted_quit d ds quit = (rw quit refl, rw quit refl)

counted_more :
    (d : Bytes) (ds : List Bytes)
    → says_quit (text_of d) ≡ false
    → (counted (d ∷ ds) ≡ counted ds + 1) × (quits (d ∷ ds) ≡ quits ds)
unfolding counted quits
counted_more d ds more = (rw more refl, rw more refl)

counted_some : (d : Bytes) (ds : List Bytes) → 1 ≤ counted (d ∷ ds)
unfolding counted
counted_some d ds = ground arith

nothing_counted : (counted [] ≡ 0) × (quits [] ≡ false)
unfolding counted quits
nothing_counted = (refl, refl)

abbrev ended_by : Bool → Status
ended_by quit = if quit then done else serving

rounds-counted :
    (ds : List Bytes) (s : Server)
    → AreSmall ds
    → length s.recvline ≡ recvline_size
    → s.status ≡ serving
    → s.count + counted ds < 2 ^ 31
    → (s' : Server) × (rounds (arrivals ds) s ≡ ok s')
      × (s'.count ≡ s.count + counted ds)
      × (s'.status ≡ ended_by (quits ds))
rounds-counted [] s small size on few =
    let (zero_yet, quiet) = nothing_counted in
    (s, rounds_none s, omega (arith, zero_yet), on ∙ ap ended_by (sym quiet))
rounds-counted (d ∷ ds) s (small, others) size on few =
    let (s1, first, count1, size1, status1) =
      round-datagram d s small size (omega (arith, counted_some d ds)) in
    let step = rounds_step (datagram d) (arrivals ds) s s1 first in
    elim (Bool-cases (says_quit (text_of d))) [
      | inl quit ↦
          let (one, ends) = counted_quit d ds quit in
          let now : s1.status ≡ done = status1 ∙ ap ended_by quit in
          (
            s1,
            step ∙ ap (λ t. go_on (rounds (arrivals ds)) t s1) now,
            omega (arith, count1, one),
            now ∙ ap ended_by (sym ends),
          )
      | inr more ↦
          let (one_more, goes_on) = counted_more d ds more in
          let now : s1.status ≡ serving = status1 ∙ ap ended_by more in
          let (s2, run, count2, status2) =
            rounds-counted ds s1 others size1 now (omega (arith, count1, one_more)) in
          (
            s2,
            step ∙ ap (λ t. go_on (rounds (arrivals ds)) t s1) now ∙ run,
            omega (arith, count1, count2, one_more),
            status2 ∙ ap ended_by (sym goes_on),
          )
    ]

pub main-counted :
    (recvline : Bytes) (ds : List Bytes)
    → length recvline ≡ recvline_size
    → AreSmall ds
    → counted ds < 2 ^ 31
    → (s : Server) × (main true true recvline (arrivals ds) ≡ ok s)
      × (s.count ≡ counted ds)
      × (s.status ≡ (if quits ds then done else serving))
unfolding main
main-counted recvline ds size small few =
    let (s, run, count, status) =
      rounds-counted ds (record { recvline = recvline; count = 0; printed = []; status = serving })
        small size refl (omega (arith, few)) in
    (s, run, omega (arith, count), status)

round_overrun :
    (d : Bytes) (s : Server)
    → recvline_size ≤ length d
    → length s.recvline ≡ recvline_size
    → round (datagram d) s ≡ fault write_overrun
unfolding round
round_overrun d s long size =
    >>=-fault (write s.recvline (take 1024 d)) (λ filled. put filled (length (take 1024 d)) 0) _
      (recv_overrun s.recvline d 1024 (omega arith) (omega arith))

rounds_overrun :
    (s : Server) (d : Bytes) (rs : List Received)
    → length s.recvline ≡ recvline_size
    → recvline_size ≤ length d
    → rounds (datagram d ∷ rs) s ≡ fault write_overrun
unfolding rounds
rounds_overrun s d rs size long = rw (round_overrun d s long size) refl

-- After datagrams that fit and are not "quit".
rounds_long_datagram :
    (ds : List Bytes) (d : Bytes) (es : List Bytes) (s : Server)
    → AreSmall ds
    → quits ds ≡ false
    → recvline_size ≤ length d
    → length s.recvline ≡ recvline_size
    → s.count + length ds < 2 ^ 31
    → rounds (arrivals (ds ++ d ∷ es)) s ≡ fault write_overrun
unfolding quits
rounds_long_datagram [] d es s small going long size few =
    rounds_overrun s d (arrivals es) size long
rounds_long_datagram (c ∷ ds) d es s (small, others) going long size few =
    let (s1, first, count1, size1, status1) = round-datagram c s small size (omega arith) in
    let not_quit : says_quit (text_of c) ≡ false = ground (arith, going) in
    let still : quits ds ≡ false = ground (arith, going) in
    let on : s1.status ≡ serving = rw not_quit at status1 in
    rounds_step (datagram c) (arrivals (ds ++ d ∷ es)) s s1 first
    ∙ ap (λ t. go_on (rounds (arrivals (ds ++ d ∷ es))) t s1) on
    ∙ rounds_long_datagram ds d es s1 others still long size1 (omega (arith, count1))

-- With a socket that is made and bound, and a local array of 200 bytes: after less than 2 ^ 31
-- datagrams of less than 200 bytes without a "quit" among them, the first of 200 bytes or more
-- makes the program write behind its array, although `recvfrom` lets up to 1024 bytes in.
pub main_long_datagram :
    (recvline : Bytes) (ds : List Bytes) (d : Bytes) (es : List Bytes)
    → length recvline ≡ recvline_size
    → AreSmall ds
    → quits ds ≡ false
    → recvline_size ≤ length d
    → length ds < 2 ^ 31
    → main true true recvline (arrivals (ds ++ d ∷ es)) ≡ fault write_overrun
unfolding main
main_long_datagram recvline ds d es size small going long few =
    rounds_long_datagram ds d es
      (record { recvline = recvline; count = 0; printed = []; status = serving }) small going long
      size (omega (arith, few))
