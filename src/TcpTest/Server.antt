-- ===== src/TcpTest/Server.antt =====
-- tcpTest/tcpserver.c
use netfilter.Base.Int.{increment, increment_small}
use netfilter.Base.{
  ◌<◌, ◌^◌, ℕ, suc, ◌+◌, ◌%◌, ◌≤◌, ◌≡◌, refl, ◌∙◌, subst, Bool, true, false, not, List, [], ◌∷◌,
  ◌++◌, Option, none, some, arith, Bytes, length, take, drop, length-take, ◌==◌, if◌then◌else◌,
  Result, ok, ◌>>=◌, >>=-eq-ok,
}
use netfilter.Base.Lists.{take_long}
use netfilter.Memory.{c_str, put, write}
use netfilter.Memory.Text.{text_of}
use netfilter.Memory.Receive.{ended, length-ended, c_str-text_of, recv-ended}

abbrev pub buffer_size : ℕ
buffer_size = 2000

-- A return of `recv`: an error, the end of the connection, or bytes, of which 1024 are taken at most.
pub data Received : Type 0 where
  recv_error : Received
  closed : Received
  bytes : Bytes → Received

-- The local variables, the texts that were printed, and whether the loop has ended.
pub record Server : Type 0 where
  pub buffer : Bytes
  pub count : ℕ
  pub printed : List Bytes
  pub ended_loop : Bool

-- The text is read only where it is printed.
abbrev pub shown : Bool → Bytes → List Bytes → Result (List Bytes)
shown true buffer printed = c_str buffer >>= λ text. ok (printed ++ text ∷ [])
shown false buffer printed = ok printed

-- A round of the loop.
unfoldable pub round : Received → Server → Result Server
round recv_error s = ok s
round closed s = ok (record s { ended_loop = true })
round (bytes b) s = do
  let got = take 1024 b
  filled ← write s.buffer got
  buffer ← put filled (length got) 0
  count ← increment s.count
  printed ← shown (count % 1000 == 0) buffer s.printed
  ok (record { buffer = buffer; count = count; printed = printed; ended_loop = false })

-- The loop, on what `recv` returns as long as the program runs.
unfoldable pub rounds : List Received → Server → Result Server
rounds [] s = ok s
rounds (r ∷ rs) s = round r s >>= λ s'. elim s'.ended_loop [ true ↦ ok s' | false ↦ rounds rs s' ]

-- `main`: -1 if a call before the loop fails. `buffer` is what the local array holds at the start.
unfoldable pub main : Bool → Bool → Bool → Bool → Bytes → List Received → Result (Option Server)
main socket bind listen accept buffer rs =
    if not socket
    then ok none
    else if not bind
    then ok none
    else if not listen
    then ok none
    else if not accept
    then ok none
    else do
      s ← rounds rs (record { buffer = buffer; count = 0; printed = []; ended_loop = false })
      ok (some s)

-- How many times bytes come before the connection ends, and whether it ends.
unfoldable pub arrivals : List Received → ℕ
arrivals [] = 0
arrivals (recv_error ∷ rs) = arrivals rs
arrivals (closed ∷ rs) = 0
arrivals (bytes b ∷ rs) = suc (arrivals rs)

pub closes : List Received → Bool
closes [] = false
closes (recv_error ∷ rs) = closes rs
closes (closed ∷ rs) = true
closes (bytes b ∷ rs) = closes rs

shown_lem :
    (printing : Bool) (p buffer : Bytes) (texts : List Bytes)
    → (texts' : List Bytes) × (shown printing (ended p buffer) texts ≡ ok texts')
shown_lem true p buffer texts =
    (texts ++ text_of p ∷ [], rw (c_str-text_of p (drop (suc (length p)) buffer)) refl)
shown_lem false p buffer texts = (texts, refl)

-- Bytes that come leave the buffer's size, and are counted.
round-bytes :
    (b : Bytes) (s : Server)
    → length s.buffer ≡ buffer_size
    → s.count + 1 < 2 ^ 31
    → (s' : Server) × (round (bytes b) s ≡ ok s')
      × (s'.count ≡ s.count + 1)
      × (length s'.buffer ≡ buffer_size)
      × (s'.ended_loop ≡ false)
unfolding round
round-bytes b s size few_yet =
    let got = take 1024 b in
    let few : length got ≤ 1024 = omega (arith, length-take 1024 b) in
    let same : take 1024 got ≡ got = take_long 1024 got few in
    let whole : (write s.buffer got >>= λ filled. put filled (length got) 0)
        ≡ ok (ended got s.buffer) =
      subst
        (λ g. (write s.buffer g >>= λ filled. put filled (length g) 0) ≡ ok (ended got s.buffer))
        same (recv-ended s.buffer got 1024 few (omega arith)) in
    let (filled, w, e) =
      >>=-eq-ok (write s.buffer got) (λ filled. put filled (length got) 0) whole in
    let (printed, p) = shown_lem ((s.count + 1) % 1000 == 0) got s.buffer s.printed in
    (
      record {
        buffer = ended got s.buffer;
        count = s.count + 1;
        printed = printed;
        ended_loop = false;
      },
      rw (w, e, increment_small s.count few_yet, p) refl,
      refl,
      length-ended got s.buffer (omega arith) ∙ size,
      refl,
    )

rounds_more :
    (r : Received) (rs : List Received) (s s1 : Server)
    → round r s ≡ ok s1
    → s1.ended_loop ≡ false
    → rounds (r ∷ rs) s ≡ rounds rs s1
unfolding rounds
rounds_more r rs s s1 e on = ground (arith, e, on)

rounds_last :
    (r : Received) (rs : List Received) (s s1 : Server)
    → round r s ≡ ok s1
    → s1.ended_loop ≡ true
    → rounds (r ∷ rs) s ≡ ok s1
unfolding rounds
rounds_last r rs s s1 e off = ground (arith, e, off)

rounds_none : (s : Server) → rounds [] s ≡ ok s
unfolding rounds
rounds_none s = refl

round_error : (s : Server) → round recv_error s ≡ ok s
unfolding round
round_error s = refl

round_closed : (s : Server) → round closed s ≡ ok (record s { ended_loop = true })
unfolding round
round_closed s = refl

rounds-arrivals :
    (rs : List Received) (s : Server)
    → length s.buffer ≡ buffer_size
    → s.ended_loop ≡ false
    → s.count + arrivals rs < 2 ^ 31
    → (s' : Server) × (rounds rs s ≡ ok s')
      × (s'.count ≡ s.count + arrivals rs)
      × (s'.ended_loop ≡ closes rs)
unfolding arrivals closes
rounds-arrivals [] s size on few = (s, rounds_none s, omega arith, on)
rounds-arrivals (recv_error ∷ rs) s size on few =
    let (s', run, count, last) = rounds-arrivals rs s size on few in
    (s', rounds_more recv_error rs s s (round_error s) on ∙ run, count, last)
rounds-arrivals (closed ∷ rs) s size on few = (
  record s { ended_loop = true },
  rounds_last closed rs s _ (round_closed s) refl,
  omega arith,
  refl,
)
rounds-arrivals (bytes b ∷ rs) s size on few =
    let (s1, first, count1, size1, on1) = round-bytes b s size (omega arith) in
    let (s2, run, count2, last) = rounds-arrivals rs s1 size1 on1 (omega (arith, count1)) in
    (s2, rounds_more (bytes b) rs s s1 first on1 ∙ run, omega (arith, count1, count2), last)

-- With every call before the loop successful and a local array of 2000 bytes, whatever it holds: on
-- everything that `recv` may return with bytes less than 2 ^ 31 times, the program stays inside the
-- array and its counter inside an `int`; it counts the times that bytes came before the connection
-- ended, errors in between left out; and its loop ends exactly if the connection ends.
pub main-arrivals :
    (buffer : Bytes) (rs : List Received)
    → length buffer ≡ buffer_size
    → arrivals rs < 2 ^ 31
    → (s : Server) × (main true true true true buffer rs ≡ ok (some s))
      × (s.count ≡ arrivals rs)
      × (s.ended_loop ≡ closes rs)
unfolding main
main-arrivals buffer rs size few =
    let (s, run, count, last) =
      rounds-arrivals rs (record { buffer = buffer; count = 0; printed = []; ended_loop = false })
        size refl (omega arith) in
    (s, rw run refl, omega (arith, count), last)
