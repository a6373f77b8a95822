-- ===== src/EventReceiver/Served.antt =====
-- udpTest_dhy/udpserver.c: what is printed, and the packets that overrun the buffer.
use netfilter.Base.Results.{>>=-fault}
use netfilter.Base.{
  ℕ, ◌≤◌, ◌<◌, ◌≡◌, refl, Bool, true, false, ◌||◌, List, [], ◌∷◌, arith, Bytes, length, take,
  if◌then◌else◌, fault, write_overrun,
}
use netfilter.Memory.{put, write}
use netfilter.Memory.Text.{text_of}
use netfilter.Memory.Receive.{recv_overrun}
use netfilter.EventSender.Rounds.{Series}
use netfilter.EventReceiver.{
  buf_size, serving, Receiver, Received, datagram, says_stop, round, rounds, main,
}

abbrev pub arrivals : List Bytes → List Received
arrivals [] = []
arrivals (d ∷ ds) = datagram d ∷ arrivals ds

-- The texts up to the first that starts with "stop", and whether there is one.
pub served : List Bytes → List Bytes
served [] = []
served (d ∷ ds) = text_of d ∷ (if says_stop (text_of d) then [] else served ds)

pub stops : List Bytes → Bool
stops [] = false
stops (d ∷ ds) = says_stop (text_of d) || stops ds

abbrev pub AreSmall : List Bytes → Type 0
AreSmall [] = Unit
AreSmall (d ∷ ds) = (length d < buf_size) × AreSmall ds

round_overrun :
    (d : Bytes) (r : Receiver)
    → buf_size ≤ length d
    → length r.buf ≡ buf_size
    → round (datagram d) r ≡ fault write_overrun
unfolding round
round_overrun d r long size =
    >>=-fault (write r.buf (take buf_size d)) (λ filled. put filled (length (take buf_size d)) 0) _
      (recv_overrun r.buf d buf_size (omega arith) (omega arith))

-- With a socket that is made and bound, and a buffer of the declared size: the first packet of the
-- program that sends the events makes this program write behind its buffer.
pub main_overrun :
    (buf p : Bytes) (ps : List Bytes) (i : ℕ)
    → length buf ≡ buf_size
    → Series i (p ∷ ps)
    → main true true buf (arrivals (p ∷ ps)) ≡ fault write_overrun
unfolding main rounds
main_overrun buf p ps i size (c, series) =
    rw
      (round_overrun p (record { buf = buf; printed = []; status = serving })
        (omega (arith, c.packet_size)) size)
      refl
