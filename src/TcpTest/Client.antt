-- ===== src/TcpTest/Client.antt =====
-- tcpTest/tcpclient.c
use netfilter.Base.Int.{increment, increment_small}
use netfilter.Base.{
  codes, ◌%◌, ◌<◌, ◌^◌, ℕ, zero, suc, ◌+◌, ◌%◌, ◌≤◌, ◌≡◌, refl, sym, ap, ◌∙◌, subst, Bool, true,
  not, List, [], ◌∷◌, ◌++◌, append_assoc, append-nil, Option, none, some, arith, Bytes, length,
  take, drop, take-append, ◌==◌, if◌then◌else◌, Result, ok, ◌>>=◌,
}
use netfilter.Letters.{
  index_of, letters, length-letters, fill_letters, fill_letters_lem, length-filled, end_letters,
  end_letters_lem,
}

abbrev pub sends_total : ℕ
sends_total = 200000

-- The local variables, and what was passed to `send`.
pub record Client : Type 0 where
  pub sendbuf : Bytes
  pub count : ℕ
  pub sent : List Bytes

-- A round of the `for`. What `send` returns is not looked at.
unfoldable pub round : Client → Result Client
round c = do
  buf ← fill_letters c.sendbuf c.count
  let sent = c.sent ++ take (index_of c.count) buf ∷ []
  count ← increment c.count
  buf' ← end_letters buf c.count (count % 1000 == 0)
  ok (record { sendbuf = buf'; count = count; sent = sent })

-- The loop, by the rounds left.
unfoldable pub rounds : ℕ → Client → Result Client
rounds zero c = ok c
rounds (suc n) c = round c >>= rounds n

-- `main`: -1 without a socket or a connection. `sendbuf` is what the local array holds at the start.
unfoldable pub main : Bool → Bool → Bytes → Result (Option Client)
main socket connect sendbuf =
    if not socket
    then ok none
    else if not connect
    then ok none
    else do c ← rounds sends_total (record { sendbuf = sendbuf; count = 0; sent = [] }); ok (some c)

-- The texts from the `i`-th on.
pub texts : ℕ → ℕ → List Bytes
texts i zero = []
texts i (suc n) = take (i % 26 + 1) (codes "abcdefghijklmnopqrstuvwxyz") ∷ texts (i + 1) n

round_lem :
    (c : Client)
    → 27 ≤ length c.sendbuf
    → c.count + 1 < 2 ^ 31
    → (c' : Client) × (round c ≡ ok c')
      × (c'.count ≡ c.count + 1)
      × (c'.sent ≡ c.sent ++ letters c.count ∷ [])
      × (length c'.sendbuf ≡ length c.sendbuf)
unfolding round
round_lem c room few =
    let buf = letters c.count ++ drop (index_of c.count) c.sendbuf in
    let size = length-filled c.sendbuf c.count (omega arith) in
    let (buf', e, size') =
      end_letters_lem buf c.count ((c.count + 1) % 1000 == 0) (omega (arith, size)) in
    let text : take (index_of c.count) buf ≡ letters c.count =
      subst (λ n. take n buf ≡ letters c.count) (length-letters c.count)
        (take-append (letters c.count) (drop (index_of c.count) c.sendbuf)) in
    (
      record { sendbuf = buf'; count = c.count + 1; sent = c.sent ++ letters c.count ∷ [] },
      rw (fill_letters_lem c.sendbuf c.count (omega arith), text, increment_small c.count few, e)
          refl,
      refl,
      refl,
      size' ∙ size,
    )

rounds-texts :
    (n : ℕ) (c : Client)
    → 27 ≤ length c.sendbuf
    → c.count + n < 2 ^ 31
    → (c' : Client) × (rounds n c ≡ ok c')
      × (c'.count ≡ c.count + n)
      × (c'.sent ≡ c.sent ++ texts c.count n)
unfolding rounds texts
rounds-texts zero c room few = (c, refl, omega arith, sym (append-nil c.sent))
rounds-texts (suc n) c room few =
    let (c1, first, count1, sent1, size1) = round_lem c room (omega arith) in
    let (c2, others, count2, sent2) =
      rounds-texts n c1 (omega (arith, size1)) (omega (arith, count1)) in
    (
      c2,
      rw first others,
      omega (arith, count1, count2),
      sent2
          ∙ ap (λ s. s ++ texts c1.count n) sent1
          ∙ ap (λ i. (c.sent ++ letters c.count ∷ []) ++ texts i n) count1
          ∙ append_assoc c.sent (letters c.count ∷ []) (texts (c.count + 1) n),
    )

-- With a socket and a connection, and a local array of 100 bytes, whatever it holds: the program
-- ends after 200000 sends, and the i-th of them, counted from 0, passes the first i % 26 + 1
-- letters of the alphabet.
pub main-texts :
    (sendbuf : Bytes)
    → length sendbuf ≡ 100
    → (c : Client) × (main true true sendbuf ≡ ok (some c))
      × (c.count ≡ 200000)
      × (c.sent ≡ texts 0 200000)
unfolding main
main-texts sendbuf size =
    let (c, run, count, sent) =
      rounds-texts sends_total (record { sendbuf = sendbuf; count = 0; sent = [] }) (omega arith)
        (omega arith) in
    (c, rw run refl, count, sent)
