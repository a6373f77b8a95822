-- ===== src/DealConf/Config.antt =====
-- src/dealConf.c: the parsed configuration, `readConf` and `parseConf`.
use netfilter.Base.{
  ℕ, List, [], ◌∷◌, ◌++◌, Option, none, some, Bytes, codes, length, take, drop, Result, ok, ◌>>=◌,
}
use netfilter.Memory.{c_str}
use netfilter.Kernel.{Kernel}
use netfilter.DealConf.Extract.{content_max_len, literal, extract}

-- The globals of the file: the buffers of the eight settings, the static buffer of `extract`, and
-- `data`, which holds the file that was read.
pub record Config : Type 0 where
  pub direction : Bytes
  pub titlecontent : Bytes
  pub content_flag : Bytes
  pub isapi : Bytes
  pub content : Bytes
  pub action : Bytes
  pub sourceip : Bytes
  pub targetip : Bytes
  pub newcontent : Bytes
  pub file_data : Bytes

abbrev pub data_size : ℕ
data_size = 1000

-- `vfs_read` fills at most the buffer; the bytes behind what it read stay. The result is the pointer
-- that `readConf` returns, null if the file cannot be opened.
unfoldable pub read_conf : Kernel → Config → Option Bytes × Config
read_conf k c = elim k.conf_file [
  | none ↦ (none, c)
  | some file ↦
      let dat = take (length c.file_data) file ++ drop (length file) c.file_data in
      (some dat, record c { file_data = dat })
]

-- The strings that `printk` reads, each up to its zero.
unfoldable pub printed : List Bytes → Result (List Bytes)
printed [] = ok []
printed (p ∷ ps) = do s ← c_str p; rest ← printed ps; ok (s ∷ rest)

-- The eight calls, in the order of the code, and the message that shows what they found.
unfoldable pub parse_conf : Config → Bytes → Result Config
parse_conf c dat = do
  (direction, n1) ←
      extract c.newcontent c.direction (literal (codes "direction")) dat 0 content_max_len
  (content_flag, n2) ←
      extract n1 c.content_flag (literal (codes "content_flag")) dat 0 content_max_len
  (content, n3) ← extract n2 c.content (literal (codes "content")) dat 0 content_max_len
  (sourceip, n4) ← extract n3 c.sourceip (literal (codes "sourceip")) dat 0 content_max_len
  (targetip, n5) ← extract n4 c.targetip (literal (codes "targetip")) dat 0 content_max_len
  (action, n6) ← extract n5 c.action (literal (codes "action")) dat 0 content_max_len
  (titlecontent, n7) ←
      extract n6 c.titlecontent (literal (codes "titlecontent")) dat 0 content_max_len
  (isapi, n8) ← extract n7 c.isapi (literal (codes "isapi")) dat 0 content_max_len
  shown ← printed (
      titlecontent ∷ direction ∷ sourceip ∷ targetip ∷ action ∷ content_flag ∷ content ∷ isapi ∷ [])
  ok (record c {
    direction = direction;
    titlecontent = titlecontent;
    content_flag = content_flag;
    isapi = isapi;
    content = content;
    action = action;
    sourceip = sourceip;
    targetip = targetip;
    newcontent = n8;
  })
