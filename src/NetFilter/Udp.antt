-- ===== src/NetFilter/Udp.antt =====
-- src/netFilter.c: the UDP case on a whole datagram, on every branch.
use netfilter.Base.{
  ℕ, suc, ◌+◌, ◌≤◌, ◌<◌, ◌≡◌, refl, sym, ap, ◌∙◌, subst, Bool, true, false, ◌&&◌, List, [], ◌++◌,
  inl, inr, arith, Bytes, codes, length, set, take, drop, ltb, ◌==◌, if◌then◌else◌, Bool-cases,
  Option-cases, Result, ok,
}
use netfilter.Memory.{equal, strcmp_is_zero}
use netfilter.Memory.Text.{holding, c_str-holding, strcmp_is_zero-holding}
use netfilter.Kernel.{Unicast, Kernel}
use netfilter.DealConf.Extract.{literal, extract}
use netfilter.NetLink.{Netlink}
use netfilter.NetFilter.{Module, Frame, Verdict, nf_accept, nf_drop}
use netfilter.NetFilter.Hook.{judge_udp, handle_udp}
use netfilter.DealConf.Spec.{content_of, or_empty}
use netfilter.DealConf.Content.{content_of-IsText, or_empty-IsText}
use netfilter.DealConf.Refine.{extract-content_of, extract_long_fits}
use netfilter.NetLink.Deliver.{told}
use netfilter.NetFilter.Log.{IsFrame, line, logged, ports_text, debug_ports-logged}
use netfilter.Memory.Text.{IsText, text_of-IsText}
use netfilter.Memory.Copy.{fill}
use netfilter.Base.Int.{pos, sub_ℕ}
use netfilter.NetFilter.Datagram.{
  text_in, body_after, IsSized, Datagram, datagram_bytes, IsDatagram, message_of, says_b,
  udp_source, udp_dest, udp_len, udp_body, copy_body-holding, long_not_b, long_is_not_b,
}

told-flag :
    (k : Kernel) (s : Netlink) (text : Bytes) → (told k s text).operatorflag ≡ s.operatorflag
unfolding told
told-flag k s text = ground arith

-- The line that the client gets for a message "B".
abbrev pub udp_line : ℕ → ℕ → Datagram → Bytes
udp_line saddr daddr d = ports_text (codes "UDP:") saddr d.source daddr d.dest (text_in d)

verdict_by_flag :
    (n : Module) (flag : ℕ)
    → n.net.operatorflag ≡ flag
    → ◌≡◌ {A = Result (Verdict × Module)}
        (if n.net.operatorflag == 2 then ok (nf_drop, n) else ok (nf_accept, n))
        (ok (if flag == 2 then nf_drop else nf_accept, n))
verdict_by_flag n flag e = ground arith

module _ (k : Kernel) (fr : Frame) (m : Module)
    (data_size : (h : List Unicast) (n : ℕ) → length (k.skb_payload h n) ≡ n)
    (alive : m.net.nl_sk ≡ true → m.net.live ≡ true) (frame : IsFrame fr) (sized : IsSized m)
    (d : Datagram) (valid : IsDatagram d) (saddr daddr : ℕ) where
  text_lem : IsText (text_in d) × (length (text_in d) ≤ length d.payload)
  text_lem = text_of-IsText d.payload

  -- What stands behind the text in the buffer for bodies.
  abbrev behind_text : Bytes
  behind_text = fill d.payload ++ drop (suc (length d.payload)) m.tcp_udp_body

  udp_length : sub_ℕ (length d.payload + 8) 8 ≡ pos (length d.payload)
  udp_length = ground arith

  -- The module behind `copy_body`.
  abbrev copied : Module
  copied = record m { tcp_udp_body = body_after d.payload m.tcp_udp_body }

  judged : (found : Bool) (x nc : Bytes) → Module
  judged true x nc =
      logged k (udp_line saddr daddr d)
        (record copied { conf = record m.conf { newcontent = nc }; xmldest = x })
  judged false x nc = record copied { conf = record m.conf { newcontent = nc }; xmldest = x }

  judge_udp_lem :
      (found : Bool) (x nc : Bytes)
      → judge_udp k fr
          (datagram_bytes d)
          saddr
          daddr
          found
          (record copied { conf = record m.conf { newcontent = nc }; xmldest = x })
        ≡ ok (if found && m.net.operatorflag == 2 then nf_drop else nf_accept, judged found x nc)
  unfolding judged
  judge_udp_lem false x nc = refl
  judge_udp_lem true x nc =
      rw
        (
          udp_source d,
          udp_dest d,
          debug_ports-logged k fr
              (record copied { conf = record m.conf { newcontent = nc }; xmldest = x }) data_size
              alive frame (codes "UDP:") saddr d.source daddr d.dest (text_in d) (omega arith)
              text_lem.0 valid.source_fits valid.dest_fits (c_str-holding (text_in d) _ text_lem.0)
              (omega (arith, sized.line_size, valid.length_fits, text_lem.1)),
        )
        (verdict_by_flag (judged true x nc) m.net.operatorflag
          (told-flag k m.net (line (udp_line saddr daddr d))))

  -- The result of the UDP case: the verdict, and a module whose channel is as told.
  abbrev pub UdpResult : Bytes → Type 0
  UdpResult p =
      (n : Module) × (handle_udp k fr p saddr daddr m
        ≡ ok (if says_b d && m.net.operatorflag == 2 then nf_drop else nf_accept, n))
      × (n.net ≡ (if says_b d then told k m.net (line (udp_line saddr daddr d)) else m.net))

  judged-net :
      (found : Bool) (x nc : Bytes)
      → (judged found x nc).net
        ≡ (if found then told k m.net (line (udp_line saddr daddr d)) else m.net)
  unfolding judged
  judged-net true x nc = refl
  judged-net false x nc = refl

  -- From the outcome of the extraction and of the comparison.
  udp_from :
      (x nc : Bytes)
      → extract m.conf.newcontent m.xmldest (literal (codes "message")) copied.tcp_udp_body 0 100
        ≡ ok (x, nc)
      → strcmp_is_zero x (literal (codes "B")) ≡ ok (says_b d)
      → UdpResult (datagram_bytes d)
  unfolding handle_udp
  udp_from x nc extracted compared = (
    judged (says_b d) x nc,
    rw
        (
          udp_len d,
          udp_body d,
          udp_length,
          copy_body-holding m d.payload d.trailer
              (omega (arith, sized.body_size, valid.length_fits)),
          extracted,
          compared,
        )
        (judge_udp_lem (says_b d) x nc),
    judged-net (says_b d) x nc,
  )

  fitting : length (message_of d) < 100 → UdpResult (datagram_bytes d)
  fitting short =
      let rest = behind_text in
      let (nc, extracted, size) =
        extract-content_of m.conf.newcontent m.xmldest (codes "message") [] (text_in d) rest 100
          (omega arith) text_lem.0 sized.newcontent_size (omega arith)
          (omega (arith, sized.xmldest_size)) short in
      udp_from (holding (message_of d) (drop (suc (length (message_of d))) m.xmldest)) nc extracted
        (strcmp_is_zero-holding (message_of d) (codes "B")
          (drop (suc (length (message_of d))) m.xmldest) []
          (or_empty-IsText (codes "message") (text_in d) text_lem.0) (omega arith))

  too_long : 100 ≤ length (message_of d) → UdpResult (datagram_bytes d)
  too_long long = elim (Option-cases (content_of (codes "message") (text_in d))) [
    | inl missing ↦ absurd (ground (arith, missing))
    | inr (body, there) ↦
        let rest = behind_text in
        let whole : message_of d ≡ body = ap or_empty there in
        let (text, within) = content_of-IsText (codes "message") (text_in d) there text_lem.0 in
        let size : 100 ≤ length body = subst (λ b. 100 ≤ length b) whole long in
        let room : length body < length m.xmldest =
          omega (arith, within, text_lem.1, sized.xmldest_size, valid.length_fits) in
        let (nc, extracted) =
          extract_long_fits m.conf.newcontent m.xmldest (codes "message") [] (text_in d) rest 100
            (omega arith) text_lem.0 sized.newcontent_size (omega arith) (omega arith) (omega arith)
            body there size room in
        udp_from (set (take 99 body ++ drop 99 m.xmldest) (length body) 0) nc extracted (
          long_not_b body m.xmldest text size room
          ∙ ap ok (sym (ap (λ v. equal v (codes "B")) whole ∙ long_is_not_b body size)))
  ]

  -- A whole datagram: the verdict is a drop exactly if the message is "B" and the operator
  -- chose to drop, and only then is the client told, of the text in the payload.
  pub handle_udp_lem : UdpResult (datagram_bytes d)
  handle_udp_lem = elim (Bool-cases (ltb (length (message_of d)) 100)) [
    | inl short ↦ fitting (ground arith)
    | inr long ↦ too_long (ground arith)
  ]
