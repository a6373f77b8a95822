-- ===== src/DealConf/Refine.antt =====
-- src/dealConf.c: `extract` computes `content_of` on every branch, within its buffers.
use netfilter.Base.{
  ℕ, suc, ◌+◌, ◌-◌, ◌^◌, ◌≤◌, ◌<◌, ◌≡◌, ap, ◌∙◌, [], ◌∷◌, ◌++◌, append_assoc, none, some, inl, inr,
  arith, Bytes, length, set, take, drop, length-append, length-drop, ltb, if◌then◌else◌, Bool-cases,
  Option-cases, lt→ltb, le→ltb_false, ok, fault, write_overrun,
}
use netfilter.Memory.Text.{IsText, holding, c_str-holding, advance-append, write_text-holding}
use netfilter.Memory.Search.{split_on, split_on-eq-some, split_on-IsText, place, strstr-split_on}
use netfilter.Memory.Copy.{put_empty}
use netfilter.DealConf.Extract.{
  content_max_len, open_tag, close_tag, copy_content, at_open_tag, at_close_tag, extract,
}
use netfilter.DealConf.Spec.{
  content_of, or_empty, copy_content_empty, copy_content_fits, copy_content_long,
  copy_content_overrun,
}
use netfilter.DealConf.Content.{
  open_tag-IsText, close_tag-IsText, length-open_tag, length-close_tag, content_of-eq-some,
}

-- One call: its buffers, the tag's name and the data, both as texts in memory.
module _ (newcontent dest name name_rest t rest : Bytes) (maxlen : ℕ) (name_text : IsText name)
    (data_text : IsText t) (size : length newcontent ≡ content_max_len) where
  -- `newcontent` with the start tag, and then with the end tag.
  abbrev pub with_open : Bytes
  with_open = holding (open_tag name) (drop (suc (length (open_tag name))) newcontent)

  abbrev with_close : Bytes
  with_close = holding (close_tag name) (drop (suc (length (close_tag name))) with_open)

  length-with_open : length name + 3 ≤ content_max_len → length with_open ≡ content_max_len
  length-with_open h = omega (
    arith,
    size,
    length-open_tag name,
    length-append (open_tag name) (0 ∷ drop (suc (length (open_tag name))) newcontent),
    length-drop (suc (length (open_tag name))) newcontent,
  )

  length-with_close : length name + 4 ≤ content_max_len → length with_close ≡ content_max_len
  length-with_close h = omega (
    arith,
    length-with_open (omega arith),
    length-close_tag name,
    length-append (close_tag name) (0 ∷ drop (suc (length (close_tag name))) with_open),
    length-drop (suc (length (close_tag name))) with_open,
  )

  -- Up to the search for the start tag.
  pub extract-at_open_tag :
      length name + 3 ≤ content_max_len
      → extract newcontent dest (holding name name_rest) (holding t rest) 0 maxlen
        ≡ at_open_tag with_open dest
            (holding name name_rest)
            0
            maxlen
            (place (open_tag name) rest (split_on (open_tag name) t))
  unfolding extract
  extract-at_open_tag h = rw (
    c_str-holding name name_rest name_text,
    le→ltb_false content_max_len (length name + 3) h,
    write_text-holding newcontent (open_tag name) (omega (arith, length-open_tag name)),
    strstr-split_on (open_tag name) (drop (suc (length (open_tag name))) newcontent) t rest
        (open_tag-IsText name name_text) data_text,
  )

  -- From there to the search for the end tag.
  at_open_tag-at_close_tag :
      length name + 4 ≤ content_max_len
      → (b : Bytes) → IsText b
      → at_open_tag with_open dest
          (holding name name_rest)
          0
          maxlen
          (some (open_tag name ++ holding b rest))
        ≡ at_close_tag with_close dest
            (holding b rest)
            maxlen
            (place (close_tag name) rest (split_on (close_tag name) b))
  at_open_tag-at_close_tag h b hb = rw (
    c_str-holding (open_tag name) (drop (suc (length (open_tag name))) newcontent)
        (open_tag-IsText name name_text),
    advance-append (open_tag name) (holding b rest),
    c_str-holding name name_rest name_text,
    write_text-holding with_open (close_tag name)
        (omega (arith, length-close_tag name, length-with_open)),
    advance-append [] (holding b rest),
    strstr-split_on (close_tag name) (drop (suc (length (close_tag name))) with_open) b rest
        (close_tag-IsText name name_text) hb,
  )

  -- Both tags are there: the copy starts with the content.
  copied_from :
      length name + 4 ≤ content_max_len
      → (a b c d : Bytes) → split_on (open_tag name) t ≡ some (a, b)
      → split_on (close_tag name) b ≡ some (c, d)
      → extract newcontent dest (holding name name_rest) (holding t rest) 0 maxlen
        ≡ copy_content with_close dest
            (c ++ (close_tag name ++ holding d rest))
            (close_tag name ++ holding d rest)
            maxlen
  copied_from h a b c d opened closed =
      let tb = (split_on-IsText (open_tag name) t opened data_text).1 in
      let begin : holding b rest ≡ c ++ (close_tag name ++ holding d rest) =
        ap (λ s. holding s rest) (split_on-eq-some (close_tag name) b closed)
        ∙ append_assoc c (close_tag name ++ d) (0 ∷ rest)
        ∙ ap (λ s. c ++ s) (append_assoc (close_tag name) d (0 ∷ rest)) in
      rw (extract-at_open_tag (omega arith), opened, at_open_tag-at_close_tag h b tb, closed)
        (ap (λ s. copy_content with_close dest s (close_tag name ++ holding d rest) maxlen) begin)

  -- The same, told of the content.
  pub extract-copy_content :
      length name + 4 ≤ content_max_len
      → (body : Bytes) → content_of name t ≡ some body
      → (end : Bytes) × (extract newcontent dest (holding name name_rest) (holding t rest) 0 maxlen
          ≡ copy_content with_close dest (body ++ end) end maxlen)
        × IsText body
  extract-copy_content h body e =
      let (a, b, d, opened, closed) = content_of-eq-some name t e in
      let tb = (split_on-IsText (open_tag name) t opened data_text).1 in
      (
        close_tag name ++ holding d rest,
        copied_from h a b body d opened closed,
        (split_on-IsText (close_tag name) b closed tb).0,
      )

  -- The call ends well, `dest` holds the text `v`, and no more of it is changed.
  abbrev pub Gives : Bytes → Type 0
  Gives v =
      (newcontent' : Bytes) × (extract newcontent dest (holding name name_rest) (holding t rest) 0
          maxlen
        ≡ ok (holding v (drop (suc (length v)) dest), newcontent'))
      × (length newcontent' ≡ content_max_len)

  -- A tag that is missing leaves the empty text.
  Gives-empty :
      length name + 4 ≤ content_max_len → 0 < length dest → content_of name t ≡ none → Gives []
  unfolding content_of
  Gives-empty h l e = elim (Option-cases (split_on (open_tag name) t)) [
    | inl no_open ↦ (
      with_open,
      rw (extract-at_open_tag (omega arith), no_open, put_empty dest l),
      length-with_open (omega arith),
    )
    | inr ((a, b), opened) ↦ elim (Option-cases (split_on (close_tag name) b)) [
      | inl no_close ↦ (
        with_close,
        rw (
          extract-at_open_tag (omega arith),
          opened,
          at_open_tag-at_close_tag h b (split_on-IsText (open_tag name) t opened data_text).1,
          no_close,
          put_empty dest l,
        ),
        length-with_close h,
      )
      | inr ((c, d), closed) ↦ ground (arith, opened, closed)
    ]
  ]

  Gives-body :
      length name + 4 ≤ content_max_len
      → maxlen ≤ length dest
      → (body : Bytes) → content_of name t ≡ some body
      → length body < maxlen
      → Gives body
  Gives-body h l [] e fits =
      let (end, run, body_text) = extract-copy_content h [] e in
      (
        with_close,
        run ∙ copy_content_empty with_close dest end maxlen (omega arith),
        length-with_close h,
      )
  Gives-body h l (c ∷ body) e fits =
      let (end, run, body_text) = extract-copy_content h (c ∷ body) e in
      (
        with_close,
        run
            ∙ copy_content_fits with_close dest (c ∷ body) end maxlen body_text (omega arith) fits
                l,
        length-with_close h,
      )

  -- For a tag's name of at most 96 bytes, a text as data, a destination of at least `maxlen` bytes and
  -- a content shorter than `maxlen`: `extract` ends; the destination holds the content between the
  -- first start tag of that name and the first end tag behind it, or the empty text if one is missing;
  -- its bytes behind that text are as before; and the tag buffer keeps its size.
  pub extract-content_of :
      length name + 4 ≤ content_max_len
      → maxlen ≤ length dest
      → length (or_empty (content_of name t)) < maxlen
      → Gives (or_empty (content_of name t))
  extract-content_of h l fits = elim (Option-cases (content_of name t)) [
    | inl missing ↦ rw missing (Gives-empty h (omega arith) missing)
    | inr (body, there) ↦ rw there (Gives-body h l body there (rw there at fits))
  ]

  -- For a tag's name of at most 96 bytes, a text as data, and a content of `maxlen` bytes or more: the
  -- terminator goes to the index of the whole content's length, so that a destination with room for it
  -- keeps its old bytes between the `maxlen - 1` copied ones and the terminator, and a destination
  -- without room is overrun.
  pub extract_long :
      length name + 4 ≤ content_max_len
      → 0 < maxlen
      → maxlen < 2 ^ 64
      → (body : Bytes) → content_of name t ≡ some body
      → maxlen ≤ length body
      → extract newcontent dest (holding name name_rest) (holding t rest) 0 maxlen ≡ (
          if ltb (length body) (length dest)
          then ok
              (set (take (maxlen - 1) body ++ drop (maxlen - 1) dest) (length body) 0, with_close)
          else fault write_overrun)
  extract_long h p w body e long =
      let (end, run, body_text) = extract-copy_content h body e in
      elim (Bool-cases (ltb (length body) (length dest))) [
        | inl room ↦ rw room (
            run
            ∙ copy_content_long with_close dest body end maxlen body_text p w long (ground arith))
        | inr short ↦ rw short (
            run
            ∙ copy_content_overrun with_close dest body end maxlen body_text p w long
                (ground arith))
      ]

  -- The same where the destination has room.
  pub extract_long_fits :
      length name + 4 ≤ content_max_len
      → 0 < maxlen
      → maxlen < 2 ^ 64
      → (body : Bytes) → content_of name t ≡ some body
      → maxlen ≤ length body
      → length body < length dest
      → (newcontent' : Bytes) × (extract newcontent dest
            (holding name name_rest)
            (holding t rest)
            0
            maxlen
          ≡ ok
              (set (take (maxlen - 1) body ++ drop (maxlen - 1) dest) (length body) 0, newcontent'))
  extract_long_fits h p w body e long room =
      (with_close, extract_long h p w body e long ∙ rw (lt→ltb (length body) (length dest) room))
