-- ===== src/DealConf/Settings.antt =====
-- src/dealConf.c: `parseConf` finds every setting of a configuration text.
use netfilter.Base.{suc, ◌+◌, ◌≤◌, ◌<◌, ◌≡◌, refl, [], arith, Bytes, codes, length, drop, ok}
use netfilter.Memory.{c_str}
use netfilter.Memory.Text.{IsText, holding, c_str-holding}
use netfilter.DealConf.Extract.{content_max_len, extract, literal}
use netfilter.DealConf.Spec.{content_of, or_empty}
use netfilter.DealConf.Content.{or_empty-IsText}
use netfilter.DealConf.Refine.{extract-content_of}
use netfilter.DealConf.Config.{Config, printed, parse_conf}

-- What stands between the tags of that name.
abbrev pub setting : Bytes → Bytes → Bytes
setting t name = or_empty (content_of name t)

-- The buffers have the sizes of their declarations.
pub record AreBuffers (c : Config) : Type 0 where
  pub newcontent_size : length c.newcontent ≡ content_max_len
  pub direction_size : length c.direction ≡ content_max_len
  pub content_flag_size : length c.content_flag ≡ content_max_len
  pub content_size : length c.content ≡ content_max_len
  pub sourceip_size : length c.sourceip ≡ content_max_len
  pub targetip_size : length c.targetip ≡ content_max_len
  pub action_size : length c.action ≡ content_max_len
  pub titlecontent_size : length c.titlecontent ≡ content_max_len
  pub isapi_size : length c.isapi ≡ content_max_len

-- Every setting is shorter than its buffer.
pub record AreShort (t : Bytes) : Type 0 where
  pub direction_fits : length (setting t (codes "direction")) < content_max_len
  pub content_flag_fits : length (setting t (codes "content_flag")) < content_max_len
  pub content_fits : length (setting t (codes "content")) < content_max_len
  pub sourceip_fits : length (setting t (codes "sourceip")) < content_max_len
  pub targetip_fits : length (setting t (codes "targetip")) < content_max_len
  pub action_fits : length (setting t (codes "action")) < content_max_len
  pub titlecontent_fits : length (setting t (codes "titlecontent")) < content_max_len
  pub isapi_fits : length (setting t (codes "isapi")) < content_max_len

-- Every buffer holds its setting.
pub record Reads (t : Bytes) (c : Config) : Type 0 where
  pub direction_read : c_str c.direction ≡ ok (setting t (codes "direction"))
  pub content_flag_read : c_str c.content_flag ≡ ok (setting t (codes "content_flag"))
  pub content_read : c_str c.content ≡ ok (setting t (codes "content"))
  pub sourceip_read : c_str c.sourceip ≡ ok (setting t (codes "sourceip"))
  pub targetip_read : c_str c.targetip ≡ ok (setting t (codes "targetip"))
  pub action_read : c_str c.action ≡ ok (setting t (codes "action"))
  pub titlecontent_read : c_str c.titlecontent ≡ ok (setting t (codes "titlecontent"))
  pub isapi_read : c_str c.isapi ≡ ok (setting t (codes "isapi"))

-- A buffer that holds a setting.
abbrev stored : Bytes → Bytes → Bytes → Bytes
stored t name dest = holding (setting t name) (drop (suc (length (setting t name))) dest)

-- One call of `extract` on a buffer of the usual size, and what a reader of the buffer then sees.
stores :
    (newcontent dest name t rest : Bytes)
    → IsText name
    → IsText t
    → length newcontent ≡ content_max_len
    → length dest ≡ content_max_len
    → length name + 4 ≤ content_max_len
    → length (setting t name) < content_max_len
    → (newcontent' : Bytes) × (extract newcontent dest
          (literal name)
          (holding t rest)
          0
          content_max_len
        ≡ ok (stored t name dest, newcontent'))
      × (length newcontent' ≡ content_max_len)
      × (c_str (stored t name dest) ≡ ok (setting t name))
stores newcontent dest name t rest hn ht size size' short fits =
    let (next, run, kept) =
      extract-content_of newcontent dest name [] t rest content_max_len hn ht size short
        (omega arith) fits in
    (next, run, kept, c_str-holding (setting t name) _ (or_empty-IsText name t ht))

-- A name for a tag.
abbrev IsTag : Bytes → Type 0
IsTag name = IsText name × (length name + 4 ≤ content_max_len)

direction-IsTag : IsTag (codes "direction")
direction-IsTag = omega arith

content_flag-IsTag : IsTag (codes "content_flag")
content_flag-IsTag = omega arith

content-IsTag : IsTag (codes "content")
content-IsTag = omega arith

sourceip-IsTag : IsTag (codes "sourceip")
sourceip-IsTag = omega arith

targetip-IsTag : IsTag (codes "targetip")
targetip-IsTag = omega arith

action-IsTag : IsTag (codes "action")
action-IsTag = omega arith

titlecontent-IsTag : IsTag (codes "titlecontent")
titlecontent-IsTag = omega arith

isapi-IsTag : IsTag (codes "isapi")
isapi-IsTag = omega arith

-- For a configuration text whose settings are shorter than their buffers, and buffers of the declared
-- sizes: `parseConf` ends, and each of the eight buffers holds what stands between the tags of its
-- name, or the empty text where a tag is missing.
pub parse_conf-Reads :
    (c : Config) (t rest : Bytes)
    → AreBuffers c
    → IsText t
    → AreShort t
    → (n : Config) × (parse_conf c (holding t rest) ≡ ok n) × Reads t n
unfolding parse_conf printed
parse_conf-Reads c t rest sizes ht short =
    let (n1, e1, s1, r1) =
      stores c.newcontent c.direction (codes "direction") t rest direction-IsTag.0 ht
        sizes.newcontent_size sizes.direction_size direction-IsTag.1 short.direction_fits in
    let (n2, e2, s2, r2) =
      stores n1 c.content_flag (codes "content_flag") t rest content_flag-IsTag.0 ht s1
        sizes.content_flag_size content_flag-IsTag.1 short.content_flag_fits in
    let (n3, e3, s3, r3) =
      stores n2 c.content (codes "content") t rest content-IsTag.0 ht s2 sizes.content_size
        content-IsTag.1 short.content_fits in
    let (n4, e4, s4, r4) =
      stores n3 c.sourceip (codes "sourceip") t rest sourceip-IsTag.0 ht s3 sizes.sourceip_size
        sourceip-IsTag.1 short.sourceip_fits in
    let (n5, e5, s5, r5) =
      stores n4 c.targetip (codes "targetip") t rest targetip-IsTag.0 ht s4 sizes.targetip_size
        targetip-IsTag.1 short.targetip_fits in
    let (n6, e6, s6, r6) =
      stores n5 c.action (codes "action") t rest action-IsTag.0 ht s5 sizes.action_size
        action-IsTag.1 short.action_fits in
    let (n7, e7, s7, r7) =
      stores n6 c.titlecontent (codes "titlecontent") t rest titlecontent-IsTag.0 ht s6
        sizes.titlecontent_size titlecontent-IsTag.1 short.titlecontent_fits in
    let (n8, e8, s8, r8) =
      stores n7 c.isapi (codes "isapi") t rest isapi-IsTag.0 ht s7 sizes.isapi_size isapi-IsTag.1
        short.isapi_fits in
    (
      record c {
        direction = stored t (codes "direction") c.direction;
        content_flag = stored t (codes "content_flag") c.content_flag;
        content = stored t (codes "content") c.content;
        sourceip = stored t (codes "sourceip") c.sourceip;
        targetip = stored t (codes "targetip") c.targetip;
        action = stored t (codes "action") c.action;
        titlecontent = stored t (codes "titlecontent") c.titlecontent;
        isapi = stored t (codes "isapi") c.isapi;
        newcontent = n8;
      },
      rw (e1, e2, e3, e4, e5, e6, e7, e8, r1, r2, r3, r4, r5, r6, r7, r8) refl,
      record {
        direction_read = r1;
        content_flag_read = r2;
        content_read = r3;
        sourceip_read = r4;
        targetip_read = r5;
        action_read = r6;
        titlecontent_read = r7;
        isapi_read = r8;
      },
    )
