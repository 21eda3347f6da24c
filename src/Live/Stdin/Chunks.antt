-- ===== src/Live/Stdin/Chunks.antt =====
-- How the input is cut into reads does not matter to StdinLineDecoder.
use samara.Prelude.{
  not_both, ◌≡◌, refl, sym, subst, ◌∙◌, ap, Bool, true, false, not, List, [], ◌∷◌, ◌++◌, any,
  if_ind, option_ind, if◌then◌else◌, Bool-cases, inl, inr,
}
use samara.Live.Stdin.{
  Bytes, StdinReaderEvent, split_last, strip_return, is_terminal_event, decode_lines, settle_lines,
  push_bytes,
}
use samara.Live.Stdin.Feed.{
  feed, HasNoNewline, feed-none, feed-some, feed-append, feed-HasNoNewline, cut_lines-prefix,
}

module _ (utf8 : Bytes → Bool) where
  decode_lines-failure :
      (lines : List Bytes)
      → any is_terminal_event (decode_lines utf8 lines).1 ≡ not (decode_lines utf8 lines).0
  unfolding decode_lines
  decode_lines-failure [] = refl
  decode_lines-failure (l ∷ rest) = elim (Bool-cases (utf8 (strip_return l))) [
    | inl h ↦ rw h (decode_lines-failure rest)
    | inr h ↦ rw h
  ]

  decode_lines-append :
      (ls ms : List Bytes)
      → (decode_lines utf8 ls).0 ≡ true
      → decode_lines utf8 (ls ++ ms)
        ≡ ((decode_lines utf8 ms).0, (decode_lines utf8 ls).1 ++ (decode_lines utf8 ms).1)
  unfolding decode_lines
  decode_lines-append [] ms e = refl
  decode_lines-append (l ∷ rest) ms e = elim (Bool-cases (utf8 (strip_return l))) [
    | inl h ↦ rw h (
        ap (λ r. (r.0, StdinReaderEvent.line (strip_return l) ∷ r.1))
          (decode_lines-append rest ms (rw h at e)))
    | inr h ↦ absurd (not_both (rw h at e) refl)
  ]

  decode_lines-stops :
      (ls ms : List Bytes)
      → (decode_lines utf8 ls).0 ≡ false
      → decode_lines utf8 (ls ++ ms) ≡ decode_lines utf8 ls
  unfolding decode_lines
  decode_lines-stops [] ms e = cc
  decode_lines-stops (l ∷ rest) ms e = elim (Bool-cases (utf8 (strip_return l))) [
    | inl h ↦ rw h (
        ap (λ r. (r.0, StdinReaderEvent.line (strip_return l) ∷ r.1))
          (decode_lines-stops rest ms (rw h at e)))
    | inr h ↦ rw h
  ]

  -- `push` is the reference decoder with the lines checked.
  push_bytes-feed :
      (p bytes : Bytes)
      → HasNoNewline p
      → push_bytes utf8 p bytes ≡ settle_lines utf8 (feed p bytes).1 (feed p bytes).0
  unfolding push_bytes settle_lines
  push_bytes-feed p bytes f =
      option_ind (λ r. r ≡ settle_lines utf8 (feed p bytes).1 (feed p bytes).0) (split_last bytes)
        (λ e. sym (ap (λ r. settle_lines utf8 r.1 r.0) (feed-none p bytes e)))
        λ s e.
          ap (λ lines. settle_lines utf8 lines s.1) (cut_lines-prefix [] p s.0 f)
          ∙ sym (ap (λ r. settle_lines utf8 r.1 r.0) (feed-some p bytes s e))

  -- What a second read adds to the first: nothing once a line was refused.
  abbrev pub then_push : Bytes × List StdinReaderEvent → Bytes → Bytes × List StdinReaderEvent
  then_push first bytes =
      if any is_terminal_event first.1
      then first
      else ((push_bytes utf8 first.0 bytes).0, first.1 ++ (push_bytes utf8 first.0 bytes).1)

  settled : (ls : List Bytes) (q : Bytes) → HasNoNewline q → HasNoNewline (settle_lines utf8 ls q).0
  unfolding settle_lines
  settled ls q f = if_ind HasNoNewline (decode_lines utf8 ls).0 (λ _. f) (λ _. tt)

  -- The lines of both reads, after a first read whose lines are all well formed.
  both_clean :
      (ls ms : List Bytes) (q r : Bytes) (b : Bytes)
      → (decode_lines utf8 ls).0 ≡ true
      → push_bytes utf8 q b ≡ settle_lines utf8 ms r
      → settle_lines utf8 (ls ++ ms) r ≡ then_push (settle_lines utf8 ls q) b
  unfolding settle_lines
  both_clean ls ms q r b e h =
      let quiet = decode_lines-failure ls ∙ ap not e in
      let first : settle_lines utf8 ls q ≡ (q, (decode_lines utf8 ls).1) =
        ap (λ t. (if t then q else [], (decode_lines utf8 ls).1)) e in
      ap (λ d. (if d.0 then r else [], d.1)) (decode_lines-append ls ms e)
      ∙ sym (
          ap (λ f. then_push f b) first
          ∙ ap
              (λ t.
                if t
                then (q, (decode_lines utf8 ls).1)
                else ((push_bytes utf8 q b).0, (decode_lines utf8 ls).1 ++ (push_bytes utf8 q b).1))
              quiet
          ∙ ap (λ t. (t.0, (decode_lines utf8 ls).1 ++ t.1)) h)

  -- Nothing of a second read counts once a line of the first was refused.
  first_failed :
      (ls ms : List Bytes) (q r : Bytes) (b : Bytes)
      → (decode_lines utf8 ls).0 ≡ false
      → settle_lines utf8 (ls ++ ms) r ≡ then_push (settle_lines utf8 ls q) b
  unfolding settle_lines
  first_failed ls ms q r b e =
      let loud = decode_lines-failure ls ∙ ap not e in
      let first : settle_lines utf8 ls q ≡ ([], (decode_lines utf8 ls).1) =
        ap (λ t. (if t then q else [], (decode_lines utf8 ls).1)) e in
      ap (λ d. (if d.0 then r else [], d.1)) (decode_lines-stops ls ms e)
      ∙ ap (λ t. (if t then r else [], (decode_lines utf8 ls).1)) e
      ∙ sym (
          ap (λ f. then_push f b) first
          ∙ ap
              (λ t. if t then ([], (decode_lines utf8 ls).1) else (
                (push_bytes utf8 [] b).0,
                (decode_lines utf8 ls).1 ++ (push_bytes utf8 [] b).1,
              ))
              loud)

  -- The decoder does not depend on how its input is cut: what it makes of two reads in a row, the
  -- events and the pending bytes, is what it makes of one read of both, whichever bytes are valid
  -- UTF-8. After a line that is not, nothing more is decoded. The pending bytes have no newline, and
  -- that stays so.
  pub push_bytes-append :
      (p a b : Bytes)
      → HasNoNewline p
      → (push_bytes utf8 p (a ++ b) ≡ then_push (push_bytes utf8 p a) b)
        × HasNoNewline (push_bytes utf8 p a).0
  push_bytes-append p a b f =
      let q = (feed p a).0 in
      let ls = (feed p a).1 in
      let fed = feed-HasNoNewline p a f in
      let whole =
        push_bytes-feed p (a ++ b) f ∙ ap (λ r. settle_lines utf8 r.1 r.0) (feed-append p a b) in
      let second = push_bytes-feed q b fed in
      let joined : settle_lines utf8 (ls ++ (feed q b).1) (feed q b).0
          ≡ then_push (settle_lines utf8 ls q) b =
        (elim (Bool-cases (decode_lines utf8 ls).0) [
          | inl e ↦ both_clean ls (feed q b).1 q (feed q b).0 b e second
          | inr e ↦ first_failed ls (feed q b).1 q (feed q b).0 b e
        ]) in
      (
        whole ∙ joined ∙ sym (ap (λ r. then_push r b) (push_bytes-feed p a f)),
        subst (λ r. HasNoNewline r.0) (sym (push_bytes-feed p a f)) (settled ls q fed),
      )
