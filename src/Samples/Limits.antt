-- ===== src/Samples/Limits.antt =====
-- src/dealConf.c and src/main.c at the largest inputs that fit, and those that do not.
use netfilter.Base.{
  ℕ, zero, suc, ◌≡◌, refl, sym, subst, [], some, arith, Bytes, take, replicate, length-replicate,
  ok, fault, read_overrun, write_overrun,
}
use netfilter.Base.Lists.{take_long}
use netfilter.Memory.{c_str, starts_with}
use netfilter.Memory.Text.{IsText, holding}
use netfilter.Memory.Search.{split_on}
use netfilter.DealConf.Extract.{open_tag, extract}
use netfilter.DealConf.Address.{in_ntoa}
use netfilter.DealConf.Address.Read.{read_quad, read_quad-in_ntoa}
use netfilter.DealConf.LongNames.{extract_tag_overrun}
use netfilter.DealConf.Config.{data_size}
use netfilter.Main.{init}
use netfilter.Main.Lifecycle.{init_overrun}
use netfilter.Samples.{kernel, loaded, clear_setting, clear-length}

read_quad-in_ntoa_example :
    (p text : Bytes) × (in_ntoa (replicate 100 0) (replicate 10 0) 4294967295 ≡ ok p)
    × (c_str p ≡ ok text)
    × (read_quad text ≡ 4294967295)
read_quad-in_ntoa_example =
    read_quad-in_ntoa (replicate 100 0) (replicate 10 0) 4294967295 (omega arith)
      (omega (arith, length-replicate {A = ℕ} 100 0)) (omega (arith, length-replicate {A = ℕ} 10 0))

-- Texts of the letter "a".
letters-IsText : (n : ℕ) → IsText (replicate n b'a')
unfolding replicate
letters-IsText zero = tt
letters-IsText (suc n) = (omega arith, letters-IsText n)

abbrev long_name : Bytes
long_name = replicate 97 b'a'

long_name-found : split_on (open_tag long_name) (open_tag long_name) ≡ some ([], [])
unfolding split_on starts_with replicate
long_name-found = refl

open_tag-IsText : IsText (open_tag long_name)
unfolding replicate
open_tag-IsText = omega arith

extract_tag_overrun_example :
    extract clear_setting clear_setting
      (holding long_name [])
      (holding (open_tag long_name) [])
      0
      100
    ≡ fault write_overrun
extract_tag_overrun_example =
    extract_tag_overrun clear_setting clear_setting long_name [] (open_tag long_name) [] 100 [] []
      clear-length (letters-IsText 97) open_tag-IsText (length-replicate {A = ℕ} 97 b'a')
      long_name-found

abbrev long_file : Bytes
long_file = replicate data_size b'a'

long_file-IsText : IsText (take data_size long_file)
long_file-IsText =
    subst IsText
      (sym (take_long data_size long_file (omega (arith, length-replicate {A = ℕ} data_size b'a'))))
      (letters-IsText data_size)

init_overrun_example :
    init (record kernel { conf_file = some long_file }) loaded ≡ fault read_overrun
init_overrun_example =
    init_overrun (record kernel { conf_file = some long_file }) loaded long_file refl
      (length-replicate {A = ℕ} data_size 0)
      (omega (arith, length-replicate {A = ℕ} data_size b'a')) long_file-IsText
