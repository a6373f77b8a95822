-- ===== src/UdpTest/Server.antt =====
-- udpTest/udpserver.c
use netfilter.Base.Int.{increment}
use netfilter.Base.{
  ℕ, ◌%◌, Bool, not, List, [], ◌∷◌, ◌++◌, Bytes, codes, length, take, ◌==◌, if◌then◌else◌, Result,
  ok, ◌>>=◌,
}
use netfilter.Memory.{c_str, equal, put, write}

abbrev pub recvline_size : ℕ
recvline_size = 200

-- The loop goes on, has ended by "quit", or the program has returned -1.
pub data Status : Type 0 where
  serving : Status
  done : Status
  failed : Status

pub record Server : Type 0 where
  pub recvline : Bytes
  pub count : ℕ
  pub printed : List Bytes
  pub status : Status

-- A return of `recvfrom`: an error, or the bytes of a datagram.
pub data Received : Type 0 where
  recv_error : Received
  datagram : Bytes → Received

abbrev pub says_quit : Bytes → Bool
says_quit text = equal text (codes "quit")

-- A round of the loop. `recvfrom` may write 1024 bytes.
unfoldable pub round : Received → Server → Result Server
round recv_error s = ok (record s { status = failed })
round (datagram bytes) s = do
  let got = take 1024 bytes
  filled ← write s.recvline got
  recvline ← put filled (length got) 0
  count ← increment s.count
  text ← c_str recvline
  ok (record {
    recvline = recvline;
    count = count;
    printed = if count % 1000 == 0 then s.printed ++ text ∷ [] else s.printed;
    status = if says_quit text then done else serving;
  })

abbrev pub go_on : (Server → Result Server) → Status → Server → Result Server
go_on f serving s = f s
go_on f done s = ok s
go_on f failed s = ok s

-- The loop, on what `recvfrom` returns as long as the program runs.
unfoldable pub rounds : List Received → Server → Result Server
rounds [] s = ok s
rounds (r ∷ rs) s = round r s >>= λ s'. go_on (rounds rs) s'.status s'

-- `main`; `recvline` is what the local array holds at the start.
unfoldable pub main : Bool → Bool → Bytes → List Received → Result Server
main socket bind recvline rs =
    let s : Server = record { recvline = recvline; count = 0; printed = []; status = serving } in
    if not socket
    then ok (record s { status = failed })
    else if not bind
    then ok (record s { status = failed })
    else rounds rs s
