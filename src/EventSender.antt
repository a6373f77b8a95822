-- ===== src/EventSender.antt =====
-- udpTest_dhy/uclient.c: the program that sends the packets with events.
pub mod Packets
pub mod Rounds
pub mod Filtered
pub mod Stream
pub mod Legal
use netfilter.Base.{
  ℕ, zero, suc, ◌+◌, ◌-◌, ◌*◌, ◌/◌, ◌%◌, ◌^◌, ◌≤◌, ◌<◌, ◌≡◌, ◌≢◌, ◌↔◌, ◌⊎◌, refl, sym, ap, ap₂, ◌∙◌,
  subst, Bool, true, false, not, ◌&&◌, ◌||◌, List, [], ◌∷◌, ◌++◌, append_assoc, append-nil, Option,
  none, some, inl, inr, arith, Bytes, codes, length, set, get_or, take, drop, replicate,
  length-append, length-set, length-take, length-drop, length-replicate, drop-append, take-append,
  take-append-drop, set-append, take_all, drop-drop_one, ltb, leb, ◌==◌, if◌then◌else◌, Bool-cases,
  Option-cases, le→leb, lt→leb_false, lt→ltb, le→ltb_false, ==_iff, ==_refl, Result, Result-cases,
  ok, fault, Fault, read_overrun, write_overrun, use_after_free, null_dereference, ◌>>=◌, >>=-eq-ok,
  Ensures, >>=-Ensures,
}
use netfilter.Memory.{c_str, put, write_text, strcat}
use netfilter.Memory.Text.{holding}

abbrev pub buffer_size : ℕ
buffer_size = 1024

-- The titles that `main` puts in `buffer`.
abbrev pub titles : List Bytes
titles =
    codes "PollingData"
    ∷ codes "DataUpdate"
    ∷ codes "AlarmUpdate"
    ∷ codes "ProblemAck"
    ∷ codes "MdControl"
    ∷ codes "MdAction"
    ∷ []

abbrev pub eventbuffer : List Bytes
eventbuffer =
    codes "A2"
    ∷ codes "A3"
    ∷ codes "A5"
    ∷ codes "A2"
    ∷ codes "A3"
    ∷ codes "A5"
    ∷ codes "B"
    ∷ codes "A2"
    ∷ codes "A3"
    ∷ codes "B"
    ∷ codes "A5"
    ∷ []

abbrev pub head : Bytes
head = codes "<?xml version='1.0' encoding='gb2312' ?>"

abbrev pub countbuf : List Bytes
countbuf = codes "0" ∷ codes "1" ∷ codes "2" ∷ codes "3" ∷ codes "4" ∷ codes "5" ∷ []

-- Nothing changes it.
abbrev pub count : ℕ
count = 3

-- The globals that change, and the packets that were sent.
pub record Sender : Type 0 where
  pub ievent : ℕ
  pub packet_data : Bytes
  pub sent : List Bytes

-- The program goes on, or has called `exit(1)`.
pub data Run : Type 0 where
  running : Sender → Run
  exited : Sender → Run

-- The next call, unless the program has ended.
abbrev pub go_on : (Sender → Result Run) → Run → Result Run
go_on f (running s) = f s
go_on f (exited s) = ok (exited s)

infixl 5 ◌then_call◌
abbrev pub ◌then_call◌ : Result Run → (Sender → Result Run) → Result Run
r then_call f = r >>= go_on f

-- A pointer out of an array of pointers.
abbrev pub pointer_at : List Bytes → ℕ → Result Bytes
pointer_at [] i = fault read_overrun
pointer_at (p ∷ ps) zero = ok p
pointer_at (p ∷ ps) (suc i) = pointer_at ps i

-- `sendto` of the whole array, and the exit where it fails.
abbrev pub send_packet : (List Bytes → Bytes → Bool) → Sender → Run
send_packet sendto s =
    if sendto s.sent s.packet_data
    then running (record s { sent = s.sent ++ s.packet_data ∷ [] })
    else exited s

-- Calls of `strcat`, one after another.
unfoldable pub appends : Bytes → List Bytes → Result Bytes
appends d [] = ok d
appends d (t ∷ ts) = strcat d t >>= λ d'. appends d' ts

-- `func` does not look at its argument.
unfoldable pub func : (List Bytes → Bytes → Bool) → Sender → Result Run
func sendto s = do
  let ievent = (s.ievent + 1) % 11
  id ← pointer_at countbuf (count % 6)
  title ← pointer_at titles count
  event ← pointer_at eventbuffer (ievent % 11)
  started ← write_text s.packet_data head
  d ← appends started (
      codes "<note id='"
      ∷ id
      ∷ codes "'><title>"
      ∷ title
      ∷ codes "</title><message>"
      ∷ event
      ∷ codes "</message></note>"
      ∷ [])
  shown ← c_str d
  ok (send_packet sendto (record s { ievent = ievent; packet_data = d }))

module _ (sendto : List Bytes → Bytes → Bool) where
  unfoldable pub test1 : Sender → Result Run
  test1 s = func sendto s

  unfoldable pub test2 : Sender → Result Run
  test2 s = func sendto s then_call test1

  unfoldable pub test3 : Sender → Result Run
  test3 s = func sendto s then_call test2

  unfoldable pub func1 : Sender → Result Run
  func1 s = func sendto s

  unfoldable pub func2 : Sender → Result Run
  func2 s = func sendto s then_call func1

  unfoldable pub func3 : Sender → Result Run
  func3 s = func sendto s then_call func2

  -- The endless loop of `main`, cut off after a number of rounds.
  unfoldable pub rounds : ℕ → Sender → Result Run
  rounds zero s = ok (running s)
  rounds (suc n) s = test1 s then_call test2 then_call test3 then_call func3 then_call rounds n

-- `main`; without a socket it ends.
unfoldable pub main : Bool → (List Bytes → Bytes → Bool) → ℕ → Sender → Result Run
main socket sendto n s = do
  d ← put s.packet_data 0 0
  let s' = record s { packet_data = d }
  if not socket then ok (exited s') else rounds sendto n s'
