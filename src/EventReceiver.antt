-- ===== src/EventReceiver.antt =====
-- udpTest_dhy/udpserver.c: the program that prints the packets with events.
pub mod Served
use netfilter.Base.{
  ℕ, zero, suc, ◌+◌, ◌-◌, ◌*◌, ◌/◌, ◌%◌, ◌^◌, ◌≤◌, ◌<◌, ◌≡◌, ◌≢◌, ◌↔◌, ◌⊎◌, refl, sym, ap, ap₂, ◌∙◌,
  subst, Bool, true, false, not, ◌&&◌, ◌||◌, List, [], ◌∷◌, ◌++◌, append_assoc, append-nil, Option,
  none, some, inl, inr, arith, Bytes, codes, length, set, get_or, take, drop, replicate,
  length-append, length-set, length-take, length-drop, length-replicate, drop-append, take-append,
  take-append-drop, set-append, take_all, drop-drop_one, ltb, leb, ◌==◌, if◌then◌else◌, Bool-cases,
  Option-cases, le→leb, lt→leb_false, lt→ltb, le→ltb_false, ==_iff, ==_refl, Result, Result-cases,
  ok, fault, Fault, read_overrun, write_overrun, use_after_free, null_dereference, ◌>>=◌, >>=-eq-ok,
  Ensures, >>=-Ensures,
}
use netfilter.Memory.{c_str, put, starts_with, write}

abbrev pub buf_size : ℕ
buf_size = 1024

-- The program runs, or has ended with the code 0 or 1.
pub data Status : Type 0 where
  serving : Status
  stopped : Status
  failed : Status

-- The local buffer, and the texts that were printed.
pub record Receiver : Type 0 where
  pub buf : Bytes
  pub printed : List Bytes
  pub status : Status

-- A return of `recvfrom`: an error, or the bytes of a datagram.
pub data Received : Type 0 where
  recv_error : Received
  datagram : Bytes → Received

-- `strncmp(buf, "stop", 4) == 0`, for the text that `buf` holds.
abbrev pub says_stop : Bytes → Bool
says_stop text = starts_with (codes "stop") text

-- A round of the loop. `recvfrom` writes no more than 1024 bytes.
unfoldable pub round : Received → Receiver → Result Receiver
round recv_error r = ok (record r { status = failed })
round (datagram bytes) r = do
  let got = take buf_size bytes
  filled ← write r.buf got
  buf ← put filled (length got) 0
  text ← c_str buf
  ok (record {
    buf = buf;
    printed = r.printed ++ text ∷ [];
    status = if says_stop text then stopped else serving;
  })

-- The loop, on what `recvfrom` returns as long as the program runs.
unfoldable pub rounds : List Received → Receiver → Result Receiver
rounds [] r = ok r
rounds (x ∷ xs) r =
    round x r >>= λ r'. elim r'.status [ serving ↦ rounds xs r' | stopped ↦ ok r' | failed ↦ ok r' ]

-- `main`; `buf` is what the local array holds at the start.
unfoldable pub main : Bool → Bool → Bytes → List Received → Result Receiver
main socket bind buf xs =
    let r : Receiver = record { buf = buf; printed = []; status = serving } in
    if not socket
    then ok (record r { status = failed })
    else if not bind
    then ok (record r { status = failed })
    else rounds xs r
