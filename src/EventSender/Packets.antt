-- ===== src/EventSender/Packets.antt =====
-- udpTest_dhy/uclient.c: the packets, one after another.
use netfilter.Base.{
  ℕ, zero, suc, ◌+◌, ◌%◌, ◌≤◌, ◌<◌, ◌≡◌, refl, sym, ap, ◌∙◌, Bool, List, [], ◌∷◌, ◌++◌,
  append_assoc, append-nil, arith, Bytes, codes, length, get_or, drop, length-append, length-drop,
  ok,
}
use netfilter.Memory.Text.{
  IsText, IsText-append, holding, c_str-holding, write_text-holding, strcat-holding,
}
use netfilter.EventSender.{
  appends, buffer_size, eventbuffer, head, Sender, pointer_at, send_packet, func,
}

abbrev pub event_of : ℕ → Bytes
event_of i = get_or eventbuffer i []

abbrev pub next_event : ℕ → ℕ
next_event i = (i + 1) % 11

-- The text of a packet with an event.
abbrev pub packet_text : Bytes → Bytes
packet_text event =
    codes "<?xml version='1.0' encoding='gb2312' ?><note id='3'><title>ProblemAck</title><message>"
    ++ (event ++ codes "</message></note>")

-- To prove something of every place in the array of events.
pub below_eleven :
    (P : ℕ → Type 0)
    → P 0
    → P 1
    → P 2
    → P 3
    → P 4
    → P 5
    → P 6
    → P 7
    → P 8
    → P 9
    → P 10
    → (i : ℕ) → i < 11
    → P i
below_eleven P a b c d e f g h j k l zero lt = a
below_eleven P a b c d e f g h j k l (suc zero) lt = b
below_eleven P a b c d e f g h j k l (suc (suc zero)) lt = c
below_eleven P a b c d e f g h j k l (suc (suc (suc zero))) lt = d
below_eleven P a b c d e f g h j k l (suc (suc (suc (suc zero)))) lt = e
below_eleven P a b c d e f g h j k l (suc (suc (suc (suc (suc zero))))) lt = f
below_eleven P a b c d e f g h j k l (suc (suc (suc (suc (suc (suc zero)))))) lt = g
below_eleven P a b c d e f g h j k l (suc (suc (suc (suc (suc (suc (suc zero))))))) lt = h
below_eleven P a b c d e f g h j k l (suc (suc (suc (suc (suc (suc (suc (suc zero)))))))) lt = j
below_eleven P a b c d e f g h j k l (suc (suc (suc (suc (suc (suc (suc (suc (suc zero))))))))) lt =
    k
below_eleven P a b c d e f g h j k l
      (suc (suc (suc (suc (suc (suc (suc (suc (suc (suc zero)))))))))) lt =
    l
below_eleven P a b c d e f g h j k l
      (suc (suc (suc (suc (suc (suc (suc (suc (suc (suc (suc n))))))))))) lt =
    absurd (omega arith)

abbrev pub EventText : ℕ → Type 0
EventText i = IsText (event_of i) × (length (event_of i) ≤ 2)

pub event_of-text : (i : ℕ) → i < 11 → EventText i
event_of-text =
    below_eleven EventText (omega arith) (omega arith) (omega arith) (omega arith) (omega arith)
      (omega arith) (omega arith) (omega arith) (omega arith) (omega arith) (omega arith)

pointer_at-event : (i : ℕ) → i < 11 → pointer_at eventbuffer i ≡ ok (event_of i)
pointer_at-event =
    below_eleven (λ i. pointer_at eventbuffer i ≡ ok (event_of i)) refl refl refl refl refl refl
      refl refl refl refl refl

abbrev joined : List Bytes → Bytes
joined [] = []
joined (t ∷ ts) = t ++ joined ts

abbrev AreTexts : List Bytes → Type 0
AreTexts [] = Unit
AreTexts (t ∷ ts) = IsText t × AreTexts ts

-- Calls of `strcat` that fit.
appends-holding :
    (s rest : Bytes) (ts : List Bytes)
    → IsText s
    → AreTexts ts
    → length (joined ts) ≤ length rest
    → (rest' : Bytes) × (appends (holding s rest) ts ≡ ok (holding (s ++ joined ts) rest'))
      × (length rest' + length (joined ts) ≡ length rest)
unfolding appends
appends-holding s rest [] hs hts fits =
    (rest, ap (λ p. ok (holding p rest)) (sym (append-nil s)), omega arith)
appends-holding s rest (t ∷ ts) hs (ht, hts) fits =
    let n = length-append t (joined ts) in
    let (rest', run, size) =
      appends-holding (s ++ t) (drop (length t) rest) ts (IsText-append s t hs ht) hts
        (omega (arith, n, length-drop (length t) rest)) in
    (
      rest',
      rw (strcat-holding s t rest hs (omega (arith, n)))
          (run ∙ ap (λ p. ok (holding p rest')) (append_assoc s t (joined ts))),
      omega (arith, n, size, length-drop (length t) rest),
    )

abbrev IsReady : Sender → Type 0
IsReady s = length s.packet_data ≡ buffer_size

-- The array with a packet.
pub record Carries (event packet : Bytes) : Type 0 where
  pub rest : Bytes
  pub is_packet : packet ≡ holding (packet_text event) rest
  pub packet_size : length packet ≡ buffer_size

abbrev pieces : Bytes → List Bytes
pieces event =
    codes "<note id='"
    ∷ codes "3"
    ∷ codes "'><title>"
    ∷ codes "ProblemAck"
    ∷ codes "</title><message>"
    ∷ event
    ∷ codes "</message></note>"
    ∷ []

pieces-AreTexts : (event : Bytes) → IsText event → AreTexts (pieces event)
pieces-AreTexts event t = (
  omega arith,
  (omega arith, (omega arith, (omega arith, (omega arith, (t, (omega arith, tt)))))),
)

length-pieces : (event : Bytes) → length (joined (pieces event)) ≡ length event + 64
length-pieces event = omega (arith, length-append event (codes "</message></note>"))

length-packet :
    (event rest : Bytes)
    → length (holding (packet_text event) rest) ≡ length rest + length event + 105
length-packet event rest = omega (
  arith,
  length-append event (codes "</message></note>" ++ 0 ∷ rest),
  ap length (append_assoc event (codes "</message></note>") (0 ∷ rest)),
)

head-IsText : IsText head
head-IsText = omega arith

-- The array after the calls.
built :
    (d event : Bytes)
    → length d ≡ buffer_size
    → IsText event
    → length event ≤ 2
    → (rest : Bytes) × (appends (holding head (drop 41 d)) (pieces event)
        ≡ ok (holding (packet_text event) rest))
      × (length (holding (packet_text event) rest) ≡ buffer_size)
built d event size text short =
    let n = length-pieces event in
    let r = drop 41 d in
    let left : length r ≡ 983 = omega (arith, size, length-drop 41 d) in
    let (rest, run, total) =
      appends-holding head r (pieces event) head-IsText (pieces-AreTexts event text)
        (omega (arith, left, n)) in
    (rest, run, omega (arith, length-packet event rest, total, left, n))

pub packet_text-IsText : (event : Bytes) → IsText event → IsText (packet_text event)
packet_text-IsText event t =
    IsText-append
      (codes
        "<?xml version='1.0' encoding='gb2312' ?><note id='3'><title>ProblemAck</title><message>")
      (event ++ codes "</message></note>") (omega arith)
      (IsText-append event (codes "</message></note>") t (omega arith))

-- One call: the next event, in a packet of 1024 bytes.
pub func_lem :
    (sendto : List Bytes → Bytes → Bool) (s : Sender)
    → IsReady s
    → (d : Bytes) × Carries (event_of (next_event s.ievent)) d
      × (func sendto s
          ≡ ok (send_packet sendto (record s { ievent = next_event s.ievent; packet_data = d })))
unfolding func
func_lem sendto s ready =
    let i = next_event s.ievent in
    let small : i < 11 = omega arith in
    let same : i % 11 ≡ i = omega arith in
    let (text, short) = event_of-text i small in
    let (rest, run, size) = built s.packet_data (event_of i) ready text short in
    (
      holding (packet_text (event_of i)) rest,
      record { rest = rest; is_packet = refl; packet_size = size },
      rw
          (
            same,
            pointer_at-event i small,
            write_text-holding s.packet_data head (omega arith),
            run,
            c_str-holding (packet_text (event_of i)) rest (packet_text-IsText (event_of i) text),
          )
          refl,
    )
