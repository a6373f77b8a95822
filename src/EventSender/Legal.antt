-- ===== src/EventSender/Legal.antt =====
-- udpTest_dhy/uclient.c and src/dealConf.c: the packets have the shape that `isLegal` asks for.
use netfilter.Base.{
  ℕ, ◌≤◌, ◌<◌, ◌≡◌, refl, ap, ◌∙◌, subst, true, Option, none, some, arith, Bytes, codes, length,
  drop, ok,
}
use netfilter.Memory.{starts_with}
use netfilter.Memory.Search.{split_on}
use netfilter.DealConf.Legal.{is_legal, legal, behind, has_title}
use netfilter.DealConf.Legal.Checks.{is_legal-legal}
use netfilter.EventSender.Packets.{
  event_of, packet_text, packet_text-IsText, below_eleven, event_of-text, Carries,
}

abbrev tail_length : Option (Bytes × Bytes) → ℕ
tail_length none = 4
tail_length (some (a, b)) = length b

abbrev TagFits : ℕ → Type 0
TagFits i = 4 ≤ tail_length (split_on (codes "<note id=") (drop 40 (packet_text (event_of i))))

tag_fits : (i : ℕ) → i < 11 → TagFits i
unfolding split_on starts_with
tag_fits =
    below_eleven TagFits (omega arith) (omega arith) (omega arith) (omega arith) (omega arith)
      (omega arith) (omega arith) (omega arith) (omega arith) (omega arith) (omega arith)

legal-packet_text : (i : ℕ) → i < 11 → legal (packet_text (event_of i)) ≡ true
unfolding legal behind has_title split_on starts_with
legal-packet_text =
    below_eleven (λ i. legal (packet_text (event_of i)) ≡ true) refl refl refl refl refl refl refl
      refl refl refl refl

-- `isLegal` says yes to every packet that the program sends.
pub is_legal-packet :
    (i : ℕ) (p : Bytes) → i < 11 → Carries (event_of i) p → is_legal (some p) ≡ ok true
is_legal-packet i p small c =
    ap (λ q. is_legal (some q)) c.is_packet
    ∙ is_legal-legal (packet_text (event_of i)) c.rest
        (packet_text-IsText (event_of i) (event_of-text i small).0)
        (λ a b e. subst (λ o. 4 ≤ tail_length o) e (tag_fits i small))
    ∙ ap ok (legal-packet_text i small)
