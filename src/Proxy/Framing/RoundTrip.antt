-- ===== src/Proxy/Framing/RoundTrip.antt =====
-- A response as loopWriteHead and loopWriteBody write it, read back from its bytes.
use i_filter_imitation.Common.{
  ℕ, ◌<◌, [], ◌++◌, append_assoc, length, not, true, false, Option, none, some, ◌==◌, if◌then◌else◌,
  Text, ◌≡◌, refl, sym, ap, ◌∙◌, subst, All, Bool-cases, inl, inr, Option-cases,
}
use i_filter_imitation.Proxy.Chunked.{flatten, crlf}
use i_filter_imitation.Proxy.Framing.{
  UpResponse, BodyFraming, switching, until_close, by_chunks, by_length, framing, framing_line,
  reason, header_lines, write_lines, write_fields, loop_write_head, loop_write_body,
}
use i_filter_imitation.Proxy.Framing.Laws.{
  receive, HonestFor, IsHonest, delimited_by, is_delimited, framing_known, framing_unknown,
  header_lines-is_dropped, receive-loop_write_body,
}
use i_filter_imitation.Proxy.Framing.Message.{
  note_line, note_field, split_line, read_head, read_message,
}
use i_filter_imitation.Proxy.Framing.Head.{
  IsInline, IsField, read_head-write_lines, read_head-empty,
}
use i_filter_imitation.Proxy.Framing.StatusLine.{
  status_line, length_line, read_head-status_line, read_head-length,
}

-- The body that the upstream sends, if its reads come to an end.
abbrev pub upstream_body : UpResponse → Option Text
upstream_body resp = if resp.fails then none else some (flatten resp.reads)

-- A response that does not switch protocols, with a reason and fields that are one line each, as
-- net/http gives them.
pub record IsPlainHead (status_text : ℕ → Text) (resp : UpResponse) : Type 0 where
  pub no_switch : (resp.status_code == 101) ≡ false
  pub inline_reason : All IsInline (reason status_text resp)
  pub inline_fields : All IsField (header_lines resp.header)

-- what is known of the end of the body behind the framing line
abbrev told : BodyFraming → BodyFraming → BodyFraming
told f switching = f
told f until_close = until_close
told f by_chunks = by_chunks
told f (by_length n) = by_length n

read_head-framing_line :
    (f g : BodyFraming) (s : Text)
    → read_head f [] (framing_line g ++ (crlf ++ s)) ≡ some (told f g, s)
unfolding read_head framing_line note_line note_field split_line
read_head-framing_line f switching s = read_head-empty f s
read_head-framing_line f until_close s = refl
read_head-framing_line f by_chunks s = refl
read_head-framing_line f (by_length n) s =
    ap (read_head f []) (append_assoc (length_line n) crlf (crlf ++ s))
    ∙ read_head-length n f (crlf ++ s)
    ∙ read_head-empty (by_length n) s

framing-told :
    (resp : UpResponse) (f : BodyFraming)
    → (resp.status_code == 101) ≡ false
    → told f (framing resp) ≡ framing resp
framing-told resp f plain = elim (Option-cases resp.content_length) [
  | inl e ↦ elim (Bool-cases resp.close) [
    | inl c ↦ same until_close (framing_unknown resp plain e ∙ rw c refl) refl
    | inr c ↦ same by_chunks (framing_unknown resp plain e ∙ rw c refl) refl
  ]
  | inr (n, e) ↦ same (by_length n) (framing_known resp n plain e) refl
]
  where
    same :
        (g : BodyFraming) → framing resp ≡ g → told f g ≡ g → told f (framing resp) ≡ framing resp
    same g e t = ap (told f) e ∙ t ∙ sym e

module _ (status_text : ℕ → Text) (resp : UpResponse) (head : IsPlainHead status_text resp) where
  -- The head is read up to its empty line, and tells the framing that was chosen.
  pub read_head-loop_write_head :
      (s : Text)
      → read_head until_close [] (loop_write_head status_text resp ++ s) ≡ some (framing resp, s)
  unfolding loop_write_head write_fields
  read_head-loop_write_head s =
      let line = status_line resp.status_code (reason status_text resp) in
      let fields = write_lines (header_lines resp.header) in
      let told_line = framing_line (framing resp) in
      ap (read_head until_close []) (
        append_assoc (line ++ crlf ++ fields ++ told_line) crlf s
        ∙ append_assoc (line ++ crlf ++ fields) told_line (crlf ++ s)
        ∙ append_assoc (line ++ crlf) fields (told_line ++ (crlf ++ s))
        ∙ append_assoc line crlf (fields ++ (told_line ++ (crlf ++ s))))
      ∙ read_head-status_line resp.status_code (reason status_text resp) until_close _
          head.inline_reason
      ∙ read_head-write_lines (header_lines resp.header) until_close _ head.inline_fields
          (header_lines-is_dropped resp.header)
      ∙ read_head-framing_line until_close (framing resp) s
      ∙ ap (λ f. some (f, s)) (framing-told resp until_close head.no_switch)

  read_message-receive :
      (fuel : ℕ) (s : Text)
      → read_message fuel (loop_write_head status_text resp ++ s) ≡ receive fuel (framing resp) s
  unfolding read_message
  read_message-receive fuel s = rw (read_head-loop_write_head s, read_message) refl

  -- Where a read of a body of unknown length fails and the connection is kept, for a response that does
  -- not switch protocols and whose reason and fields are one line each, a client that reads the bytes
  -- written sees a whole message all the same: what was read before the error is told as the complete
  -- body, and the next response follows it.
  pub read_message-cut :
      (fuel : ℕ) (t : Text)
      → resp.fails ≡ true
      → resp.content_length ≡ none
      → resp.close ≡ false
      → length resp.reads < fuel
      → (upstream_body resp ≡ none)
        × (read_message fuel (loop_write_head status_text resp ++ (loop_write_body resp ++ t))
            ≡ some (flatten resp.reads, t))
  unfolding IsHonest is_delimited
  read_message-cut fuel t failed unknown kept h = (
    rw failed refl,
    read_message-receive fuel (loop_write_body resp ++ t)
        ∙ receive-loop_write_body fuel resp t head.no_switch
            (subst (λ o. HonestFor o (flatten resp.reads)) (sym unknown) tt)
            (ap (λ o. delimited_by o resp.close) unknown ∙ ap not kept) h,
  )
