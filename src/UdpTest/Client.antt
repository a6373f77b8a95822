-- ===== src/UdpTest/Client.antt =====
-- udpTest/udpclient.c
use netfilter.Base.Int.{increment, increment_small}
use netfilter.Base.{
  ℕ, suc, ◌+◌, ◌%◌, ◌<◌, ◌≡◌, ◌⊎◌, refl, sym, ap, ◌∙◌, subst, Bool, true, false, not, ◌&&◌, List,
  [], ◌∷◌, ◌++◌, Option, none, some, inl, inr, arith, Bytes, codes, length, take, drop, leb, ◌==◌,
  if◌then◌else◌, Bool-cases, Result, ok, ◌>>=◌,
}
use netfilter.Base.Int.{ℤ, pos, negsuc}
use netfilter.Letters.{
  alphabet, index_of, letters, fill_letters, fill_letters_lem, length-filled, end_letters,
  end_letters_lem,
}

abbrev pub sends_total : ℕ
sends_total = 10000000

abbrev pub sendbuf_size : ℕ
sendbuf_size = 100

-- `clientSocket = socket(…) < 0` stores the comparison, not the descriptor.
abbrev pub client_socket : ℤ → ℕ
client_socket (pos fd) = 0
client_socket (negsuc n) = 1

-- The local variables; `sent` has what was passed to `sendto` with success, and to `send`, with the
-- descriptor; `ended_loop` tells whether the loop has ended.
pub record Client : Type 0 where
  pub socket_fd : ℕ
  pub sendbuf : Bytes
  pub count : ℕ
  pub sent : List (ℕ × Bytes)
  pub ended_loop : Bool

-- A round of the loop; the argument tells whether `sendto` succeeds.
unfoldable pub round : Bool → Client → Result Client
round sending c = do
  buf ← fill_letters c.sendbuf c.count
  if not sending then ok (record c { sendbuf = buf }) else do
    count ← increment c.count
    buf' ← end_letters buf c.count (count % 1000 == 0)
    let sent = c.sent ++ (c.socket_fd, buf) ∷ []
    ok (record c {
      sendbuf = buf';
      count = count;
      sent = if count == sends_total then sent ++ (c.socket_fd, codes "quit") ∷ [] else sent;
      ended_loop = count == sends_total;
    })

-- The loop, on what `sendto` returns as long as the program runs.
unfoldable pub rounds : List Bool → Client → Result Client
rounds [] c = ok c
rounds (x ∷ xs) c = round x c >>= λ c'. if c'.ended_loop then ok c' else rounds xs c'

-- `main`: -1 where the stored value is not 0. `sendbuf` is what the local array holds at the start.
unfoldable pub main : ℤ → Bytes → List Bool → Result (Option Client)
main socket sendbuf xs = if not (client_socket socket == 0) then ok none else do
  c ← rounds xs (record {
    socket_fd = client_socket socket;
    sendbuf = sendbuf;
    count = 0;
    sent = [];
    ended_loop = false;
  })
  ok (some c)

pub successes : List Bool → ℕ
successes [] = 0
successes (true ∷ xs) = suc (successes xs)
successes (false ∷ xs) = successes xs

-- What goes out: the array, which starts with an "a", or the text at the end; always to descriptor 0.
abbrev pub IsSend : ℕ × Bytes → Type 0
IsSend (fd, p) =
    (fd ≡ 0) × ((p ≡ codes "quit") ⊎ ((length p ≡ sendbuf_size) × (take 1 p ≡ codes "a")))

abbrev pub AreSends : List (ℕ × Bytes) → Type 0
AreSends [] = Unit
AreSends (x ∷ xs) = IsSend x × AreSends xs

AreSends-append :
    (xs : List (ℕ × Bytes)) (x : ℕ × Bytes) → AreSends xs → IsSend x → AreSends (xs ++ x ∷ [])
AreSends-append [] x hs h = (h, tt)
AreSends-append (y ∷ xs) x (hy, hs) h = (hy, AreSends-append xs x hs h)

with_quit :
    (last : Bool) (out : List (ℕ × Bytes)) (fd : ℕ)
    → AreSends out
    → fd ≡ 0
    → AreSends (if last then out ++ (fd, codes "quit") ∷ [] else out)
with_quit true out fd h e = AreSends-append out (fd, codes "quit") h (e, inl refl)
with_quit false out fd h e = h

pub record IsGoing (c : Client) : Type 0 where
  pub fd : c.socket_fd ≡ 0
  pub size : length c.sendbuf ≡ sendbuf_size
  pub sends : AreSends c.sent

letters_first : (count : ℕ) (q : Bytes) → take 1 (letters count ++ q) ≡ codes "a"
letters_first count q =
    let some_letter : index_of count ≡ suc (count % 26) = omega arith in
    ap (λ n. take 1 (take n alphabet ++ q)) some_letter

-- A round, whatever `sendto` returns.
round_lem :
    (x : Bool) (c : Client)
    → IsGoing c
    → c.ended_loop ≡ false
    → c.count < sends_total
    → (c' : Client) × (round x c ≡ ok c')
      × IsGoing c'
      × (c'.count ≡ c.count + (if x then 1 else 0))
      × (c'.ended_loop ≡ (x && (c.count + 1 == sends_total)))
unfolding round
round_lem false c h on few =
    let buf = letters c.count ++ drop (index_of c.count) c.sendbuf in
    let size = length-filled c.sendbuf c.count (omega (arith, h.size)) in
    (
      record c { sendbuf = buf },
      rw (fill_letters_lem c.sendbuf c.count (omega (arith, h.size))) refl,
      record { fd = h.fd; size = size ∙ h.size; sends = h.sends },
      omega arith,
      on,
    )
round_lem true c h on few =
    let buf = letters c.count ++ drop (index_of c.count) c.sendbuf in
    let size = length-filled c.sendbuf c.count (omega (arith, h.size)) in
    let (buf', e, size') =
      end_letters_lem buf c.count ((c.count + 1) % 1000 == 0) (omega (arith, size, h.size)) in
    let out = c.sent ++ (c.socket_fd, buf) ∷ [] in
    let good : AreSends out =
      AreSends-append c.sent (c.socket_fd, buf) h.sends
        (h.fd, inr (size ∙ h.size, letters_first c.count (drop (index_of c.count) c.sendbuf))) in
    let c' : Client = record c {
      sendbuf = buf';
      count = c.count + 1;
      sent = if c.count + 1 == sends_total then out ++ (c.socket_fd, codes "quit") ∷ [] else out;
      ended_loop = c.count + 1 == sends_total;
    } in
    (
      c',
      rw
          (
            fill_letters_lem c.sendbuf c.count (omega (arith, h.size)),
            increment_small c.count (omega arith),
            e,
          )
          refl,
      record {
        fd = h.fd;
        size = size' ∙ size ∙ h.size;
        sends = with_quit (c.count + 1 == sends_total) out c.socket_fd good h.fd;
      },
      refl,
      refl,
    )

rounds_step :
    (x : Bool) (xs : List Bool) (c c1 : Client)
    → round x c ≡ ok c1
    → rounds (x ∷ xs) c ≡ (if c1.ended_loop then ok c1 else rounds xs c1)
unfolding rounds
rounds_step x xs c c1 e = rw e refl

rounds_none : (c : Client) → rounds [] c ≡ ok c
unfolding rounds
rounds_none c = refl

successes_step :
    (x : Bool) (xs : List Bool) → successes (x ∷ xs) ≡ (if x then 1 else 0) + successes xs
unfolding successes
successes_step true xs = omega arith
successes_step false xs = omega arith

successes_none : successes [] ≡ 0
unfolding successes
successes_none = refl

-- The loop ends exactly when the number of successes reaches the total.
Counts : ℕ → Client → Type 0
Counts n c =
    (c.count ≡ (if leb sends_total n then sends_total else n)) × (c.ended_loop ≡ leb sends_total n)

Counts-last :
    (x : Bool) (count n : ℕ) (c1 : Client)
    → count < sends_total
    → c1.count ≡ count + (if x then 1 else 0)
    → (x && (count + 1 == sends_total)) ≡ true
    → c1.ended_loop ≡ true
    → Counts (count + ((if x then 1 else 0) + n)) c1
unfolding Counts
Counts-last true count n c1 few count1 last done = (ground arith, ground arith)
Counts-last false count n c1 few count1 last done = cc

Counts-none :
    (c : Client) → c.count < sends_total → c.ended_loop ≡ false → Counts (c.count + successes []) c
unfolding Counts
Counts-none c few on = (ground (arith, successes_none), ground (arith, successes_none))

still_few :
    (x : Bool) (count : ℕ) (c1 : Client)
    → count < sends_total
    → c1.count ≡ count + (if x then 1 else 0)
    → (x && (count + 1 == sends_total)) ≡ false
    → c1.count < sends_total
still_few true count c1 few count1 more = ground arith
still_few false count c1 few count1 more = omega arith

rounds-successes :
    (xs : List Bool) (c : Client)
    → IsGoing c
    → c.ended_loop ≡ false
    → c.count < sends_total
    → (c' : Client) × (rounds xs c ≡ ok c') × IsGoing c' × Counts (c.count + successes xs) c'
rounds-successes [] c h on few = (c, rounds_none c, h, Counts-none c few on)
rounds-successes (x ∷ xs) c h on few =
    let (c1, first, going, count1, ended1) = round_lem x c h on few in
    let step = rounds_step x xs c c1 first in
    let total : c.count + successes (x ∷ xs) ≡ c.count + ((if x then 1 else 0) + successes xs) =
      ap (λ n. c.count + n) (successes_step x xs) in
    elim (Bool-cases (x && (c.count + 1 == sends_total))) [
      | inl last ↦
          let done : c1.ended_loop ≡ true = ended1 ∙ last in
          (
            c1,
            step ∙ ap (λ b. if b then ok c1 else rounds xs c1) done,
            going,
            subst (λ n. Counts n c1) (sym total)
                (Counts-last x c.count (successes xs) c1 few count1 last done),
          )
      | inr more ↦
          let on1 : c1.ended_loop ≡ false = ended1 ∙ more in
          let (c2, run, going2, counts) =
            rounds-successes xs c1 going on1 (still_few x c.count c1 few count1 more) in
          (
            c2,
            step ∙ ap (λ b. if b then ok c1 else rounds xs c1) on1 ∙ run,
            going2,
            subst (λ n. Counts n c2) (omega (arith, count1, total)) counts,
          )
    ]

-- For a `socket` that does not fail, with a local array of 100 bytes, whatever it holds, and
-- whatever each `sendto` returns: the loop ends exactly if `sendto` succeeds ten million times, and
-- the count is that of the successes up to there; everything goes to descriptor 0, the standard
-- input, whichever descriptor `socket` gave, and is the array of 100 bytes, which starts with an
-- "a", or the text "quit".
pub main-successes :
    (fd : ℕ) (sendbuf : Bytes) (xs : List Bool)
    → length sendbuf ≡ 100
    → (c : Client) × (main (pos fd) sendbuf xs ≡ ok (some c))
      × (c.count ≡ (if leb 10000000 (successes xs) then 10000000 else successes xs))
      × (c.ended_loop ≡ leb 10000000 (successes xs))
      × AreSends c.sent
unfolding main Counts
main-successes fd sendbuf xs size =
    let c0 : Client = record {
      socket_fd = 0;
      sendbuf = sendbuf;
      count = 0;
      sent = [];
      ended_loop = false;
    } in
    let (c, run, going, counts) =
      rounds-successes xs c0 (record { fd = refl; size = size; sends = tt }) refl (omega arith) in
    let zero_add : 0 + successes xs ≡ successes xs = omega arith in
    let counts' = subst (λ n. Counts n c) zero_add counts in
    (c, rw run refl, counts'.0, counts'.1, going.sends)
