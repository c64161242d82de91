-- ===== src/Proxy/Framing/Laws.antt =====
-- What a client that reads as HTTP/1.1 says gets from the bytes that are written.
use i_filter_imitation.Common.{
  ℕ, ◌<◌, List, [], ◌∷◌, ◌++◌, length, take, drop, Bool, true, false, not, Option, none, some, leb,
  ◌==◌, if◌then◌else◌, Text, ◌≡◌, refl, sym, ap, ◌∙◌, arith, All, subst, take_of_append,
  drop_of_append, length-append, inl, inr, Option-cases, if_intro,
}
use i_filter_imitation.Proxy.Chunked.{flatten, write_chunks}
use i_filter_imitation.Proxy.Chunked.Laws.{decode, decode-write_chunks}
use i_filter_imitation.Proxy.Framing.{
  UpResponse, BodyFraming, switching, until_close, by_chunks, by_length, framing, is_dropped,
  values, header_lines, loop_write_body,
}

-- The body of a message in the bytes behind its head, and the bytes behind the body.
pub receive : ℕ → BodyFraming → Text → Option (Text × Text)
receive fuel switching s = none
receive fuel until_close s = some (s, [])
receive fuel by_chunks s = decode fuel s
receive fuel (by_length n) s = if leb n (length s) then some (take n s, drop n s) else none

abbrev pub HonestFor : Option ℕ → Text → Type 0
HonestFor none body = Unit
HonestFor (some n) body = length body ≡ n

-- The upstream body has the length that was announced.
unfoldable pub IsHonest : UpResponse → Type 0
IsHonest resp = HonestFor resp.content_length (flatten resp.reads)

abbrev pub delimited_by : Option ℕ → Bool → Bool
delimited_by none close = not close
delimited_by (some _) close = true

-- The end of the body can be told without closing the connection.
unfoldable pub is_delimited : UpResponse → Bool
is_delimited resp = delimited_by resp.content_length resp.close

receive-length :
    (fuel : ℕ) (body t : Text) → receive fuel (by_length (length body)) (body ++ t) ≡ some (body, t)
unfolding receive
receive-length fuel body t =
    if_intro (λ (o : Option (Text × Text)). o ≡ some (body, t))
      (leb (length body) (length (body ++ t))) _ _
      (λ _. rw (take_of_append body t, drop_of_append body t) refl)
      (λ h. absurd (ground (arith, h, length-append body t)))

length-nil : (s : Text) → length s ≡ 0 → s ≡ []
length-nil [] h = refl
length-nil (c ∷ s) h = absurd (omega arith)

pub framing_known :
    (resp : UpResponse) (n : ℕ)
    → (resp.status_code == 101) ≡ false
    → resp.content_length ≡ some n
    → framing resp ≡ by_length n
unfolding framing
framing_known resp n plain e = rw (plain, e, framing) refl

pub framing_unknown :
    (resp : UpResponse)
    → (resp.status_code == 101) ≡ false
    → resp.content_length ≡ none
    → framing resp ≡ (if resp.close then until_close else by_chunks)
unfolding framing
framing_unknown resp plain e = rw (plain, e, framing) refl

body_known :
    (resp : UpResponse) (n : ℕ)
    → resp.content_length ≡ some n
    → length (flatten resp.reads) ≡ n
    → loop_write_body resp ≡ flatten resp.reads
unfolding loop_write_body
body_known resp n e honest =
    rw (e, loop_write_body)
      (if_intro (λ s. s ≡ flatten resp.reads) (n == 0) _ _
        (λ h. sym (length-nil (flatten resp.reads) (ground (arith, h, honest)))) (λ _. refl))

body_unknown :
    (resp : UpResponse)
    → resp.content_length ≡ none
    → loop_write_body resp ≡ write_chunks resp.reads
unfolding loop_write_body write_chunks
body_unknown resp e = rw (e, loop_write_body) refl

honest_length :
    (resp : UpResponse) (n : ℕ)
    → resp.content_length ≡ some n
    → IsHonest resp
    → length (flatten resp.reads) ≡ n
unfolding IsHonest
honest_length resp n e honest = subst (λ o. HonestFor o (flatten resp.reads)) e honest

delimited_open :
    (resp : UpResponse) → resp.content_length ≡ none → is_delimited resp ≡ true → resp.close ≡ false
unfolding is_delimited
delimited_open resp e ends = opened resp.close (ap (λ o. delimited_by o resp.close) (sym e) ∙ ends)
  where
    opened : (b : Bool) → not b ≡ true → b ≡ false
    opened b h = ground arith

-- If the response does not switch protocols, what was read of its body has the length announced, and
-- its end can be told without closing the connection, then a client that reads the body by the chosen
-- framing gets what was read, and the bytes of the next response are untouched.
pub receive-loop_write_body :
    (fuel : ℕ) (resp : UpResponse) (t : Text)
    → (resp.status_code == 101) ≡ false
    → IsHonest resp
    → is_delimited resp ≡ true
    → length resp.reads < fuel
    → receive fuel (framing resp) (loop_write_body resp ++ t) ≡ some (flatten resp.reads, t)
unfolding receive
receive-loop_write_body fuel resp t plain honest ends h = elim (Option-cases resp.content_length) [
  | inl e ↦
      ap (λ f. receive fuel f (loop_write_body resp ++ t))
        (framing_unknown resp plain e
          ∙ ap (λ b. if b then until_close else by_chunks) (delimited_open resp e ends))
      ∙ ap (λ s. decode fuel (s ++ t)) (body_unknown resp e)
      ∙ decode-write_chunks fuel resp.reads t h
  | inr (n, e) ↦
      let whole = honest_length resp n e honest in
      ap (λ f. receive fuel f (loop_write_body resp ++ t))
        (framing_known resp n plain e ∙ ap by_length (sym whole))
      ∙ ap (λ s. receive fuel (by_length (length (flatten resp.reads))) (s ++ t))
          (body_known resp n e whole)
      ∙ receive-length fuel (flatten resp.reads) t
]

values-kept :
    (k : Text) (vs : List Text) (rest : List (Text × Text))
    → is_dropped k ≡ false
    → All (λ line. is_dropped line.0 ≡ false) rest
    → All (λ line. is_dropped line.0 ≡ false) (values k vs rest)
values-kept k [] rest h hs = hs
values-kept k (v ∷ vs) rest h hs = (h, values-kept k vs rest h hs)

-- No hop-by-hop header and no length of the upstream response is among the lines that are written.
pub header_lines-is_dropped :
    (header : List (Text × List Text))
    → All (λ line. is_dropped line.0 ≡ false) (header_lines header)
unfolding header_lines
header_lines-is_dropped [] = tt
header_lines-is_dropped ((k, vs) ∷ header) =
    if_intro (All (λ line. is_dropped line.0 ≡ false)) (is_dropped k) _ _
      (λ _. header_lines-is_dropped header)
      (λ h. values-kept k vs _ h (header_lines-is_dropped header))
