-- ===== src/Samples/Dealing.antt =====
-- src/dealConf.c and src/main.c at concrete inputs.
use netfilter.DealConf.Legal.{head, is_legal}
use netfilter.DealConf.Legal.Checks.{is_legal_overrun}
use netfilter.DealConf.Legal.Notes.{IsNote, is_legal-IsNote}
use netfilter.Base.{
  ℕ, suc, ◌≤◌, ◌≡◌, ◌↔◌, refl, subst, Bool, true, false, [], ◌++◌, Option, none, some, arith, Bytes,
  codes, length, set, take, drop, ltb, if◌then◌else◌, ok, fault, read_overrun, write_overrun,
}
use netfilter.Base.Int.{pos}
use netfilter.Memory.{starts_with, equal}
use netfilter.Memory.Text.{holding}
use netfilter.Memory.Search.{split_on}
use netfilter.DealConf.Extract.{content_max_len, extract}
use netfilter.DealConf.Spec.{content_of, or_empty}
use netfilter.DealConf.Refine.{extract-content_of, extract_long}
use netfilter.DealConf.Settings.{setting, Reads, AreShort, parse_conf-Reads}
use netfilter.DealConf.Config.{Config, parse_conf}
use netfilter.DealConf.Address.{in_ntoa}
use netfilter.DealConf.Address.Quad.{quoted_quad, in_ntoa_lem}
use netfilter.NetLink.{create_netlink, delete_netlink}
use netfilter.NetFilter.{Module}
use netfilter.Main.{init, fini}
use netfilter.Main.Lifecycle.{init_lem}
use netfilter.Samples.{
  kernel, conf_text, clear_setting, clear-length, clear_conf, clear_conf-AreBuffers, loaded, frame,
  frame-IsFrame,
}

-- The content of `<message>hi</message>`.
abbrev message_text : Bytes
message_text = codes "<message>hi</message>"

message_text-content : content_of (codes "message") message_text ≡ some (codes "hi")
unfolding content_of split_on starts_with
message_text-content = refl

conf_text-AreShort : AreShort conf_text
unfolding content_of split_on starts_with
conf_text-AreShort = record {
  direction_fits = omega arith;
  content_flag_fits = omega arith;
  content_fits = omega arith;
  sourceip_fits = omega arith;
  targetip_fits = omega arith;
  action_fits = omega arith;
  titlecontent_fits = omega arith;
  isapi_fits = omega arith;
}

extract-content_of_example :
    (newcontent' : Bytes) × (extract clear_setting clear_setting
        (holding (codes "message") [])
        (holding message_text [])
        0
        100
      ≡ ok (
        holding (or_empty (content_of (codes "message") message_text)) (
            drop
              (suc (length (or_empty (content_of (codes "message") message_text))))
              clear_setting),
        newcontent',
      ))
    × (length newcontent' ≡ content_max_len)
extract-content_of_example =
    extract-content_of clear_setting clear_setting (codes "message") [] message_text [] 100
      (omega arith) (omega arith) clear-length (omega arith) (omega (arith, clear-length))
      (rw message_text-content (omega arith))

-- A limit of two bytes for the two bytes of "hi".
extract_long_example :
    (n : Bytes) × (extract clear_setting clear_setting
        (holding (codes "message") [])
        (holding message_text [])
        0
        2
      ≡ (if ltb 2 (length clear_setting)
          then ok (set (take 1 (codes "hi") ++ drop 1 clear_setting) 2 0, n)
          else fault write_overrun))
extract_long_example = (
  _,
  extract_long clear_setting clear_setting (codes "message") [] message_text [] 2 (omega arith)
      (omega arith) clear-length (omega arith) (omega arith) (omega arith) (codes "hi")
      message_text-content (omega arith),
)

parse_conf-Reads_example :
    (n : Config) × (parse_conf clear_conf (holding conf_text []) ≡ ok n) × Reads conf_text n
parse_conf-Reads_example =
    parse_conf-Reads clear_conf conf_text [] clear_conf-AreBuffers (omega arith) conf_text-AreShort

in_ntoa_lem_example :
    (rest : Bytes) × (in_ntoa frame.sip frame.str 16777226
      ≡ ok (holding (quoted_quad 16777226) rest))
in_ntoa_lem_example =
    in_ntoa_lem frame.sip frame.str 16777226 frame-IsFrame.sip_size frame-IsFrame.str_size

-- The module before `init`.
abbrev fresh : Module
fresh = record loaded { conf = clear_conf; registered = false }

init_lem_example :
    (n : Module) × (o : Module) × (init kernel fresh ≡ ok (pos 0, n))
    × Reads conf_text n.conf
    × (n.registered ≡ equal (setting conf_text (codes "direction")) (codes "=>"))
    × (n.net ≡ (create_netlink kernel fresh.net).1)
    × (fini n ≡ ok o)
    × (o.registered ≡ false)
    × (o.net ≡ delete_netlink n.net)
init_lem_example =
    init_lem kernel fresh conf_text refl refl refl (omega arith) clear_conf-AreBuffers (omega arith)
      conf_text-AreShort

-- The packet that a comment of the source shows.
abbrev note_text : Bytes
note_text = head ++ codes "<note id='13'><title>hello</title><message>world</message></note>"

abbrev tail_length : Option (Bytes × Bytes) → ℕ
tail_length none = 4
tail_length (some (a, b)) = length b

note_text-fits : 4 ≤ tail_length (split_on (codes "<note id=") (drop 40 note_text))
unfolding split_on starts_with
note_text-fits = omega arith

is_legal-IsNote_example :
    (b : Bool) × (is_legal (some (holding note_text [])) ≡ ok b) × ((b ≡ true) ↔ IsNote note_text)
is_legal-IsNote_example =
    is_legal-IsNote note_text [] (omega arith)
      (λ a b e. subst (λ o. 4 ≤ tail_length o) e note_text-fits)

-- A note tag that ends a text of 97 bytes.
abbrev filler : Bytes
filler = codes "................................................"

cut_text-split :
    split_on (codes "<note id=") (drop 40 (head ++ (filler ++ codes "<note id=")))
    ≡ some (filler, [])
unfolding split_on starts_with
cut_text-split = refl

cut_text-headed : starts_with head (head ++ (filler ++ codes "<note id=")) ≡ true
unfolding starts_with
cut_text-headed = refl

is_legal_overrun_example :
    is_legal (some (holding (head ++ (filler ++ codes "<note id=")) [])) ≡ fault read_overrun
is_legal_overrun_example =
    is_legal_overrun (head ++ (filler ++ codes "<note id=")) filler [] (omega arith) (omega arith)
      cut_text-headed cut_text-split (omega arith)
