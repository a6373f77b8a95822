-- ===== src/UdpTest/Exchange.antt =====
-- udpTest: what the server makes of the arrays that the client sends.
use netfilter.Base.{
  ◌<◌, ◌^◌, ◌≡◌, refl, ◌∙◌, true, false, List, [], ◌∷◌, arith, Bytes, codes, length, take, ok,
}
use netfilter.Memory.{equal}
use netfilter.Memory.Text.{text_of}
use netfilter.UdpTest.Server.{recvline_size, Server, serving, says_quit, main}
use netfilter.UdpTest.Served.{arrivals, counted, quits, AreSmall, main-counted}
use netfilter.UdpTest.Client.{sendbuf_size}

-- Arrays as the client's loop sends them.
abbrev pub AreArrays : List Bytes → Type 0
AreArrays [] = Unit
AreArrays (p ∷ ps) = (length p ≡ sendbuf_size) × (take 1 p ≡ codes "a") × AreArrays ps

array-not_quit : (p : Bytes) → take 1 p ≡ codes "a" → says_quit (text_of p) ≡ false
unfolding text_of equal
array-not_quit [] e = cc
array-not_quit (c ∷ p) e = ground arith

arrays-counted :
    (ps : List Bytes) → AreArrays ps → AreSmall ps × (counted ps ≡ length ps) × (quits ps ≡ false)
unfolding counted quits
arrays-counted [] h = (tt, refl, refl)
arrays-counted (p ∷ ps) (size, first, h) =
    let (small, count, quiet) = arrays-counted ps h in
    let not_quit = array-not_quit p first in
    ((omega arith, small), rw not_quit (omega (arith, count)), rw not_quit quiet)

-- With a socket that is made and bound, and a local array of 200 bytes: the server counts every
-- array of the kind that the client's loop sends, less than 2 ^ 31 of them, and does not end on any
-- of them.
pub main-arrays :
    (recvline : Bytes) (ps : List Bytes)
    → length recvline ≡ recvline_size
    → AreArrays ps
    → length ps < 2 ^ 31
    → (s : Server) × (main true true recvline (arrivals ps) ≡ ok s)
      × (s.count ≡ length ps)
      × (s.status ≡ serving)
main-arrays recvline ps size h few =
    let (small, count, quiet) = arrays-counted ps h in
    let (s, run, counts, status) = main-counted recvline ps size small (omega (arith, count)) in
    (s, run, counts ∙ count, status ∙ rw quiet refl)
