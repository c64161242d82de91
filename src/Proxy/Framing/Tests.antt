-- ===== src/Proxy/Framing/Tests.antt =====
-- Responses of known and of unknown length.
use i_filter_imitation.Common.{
  ℕ, [], ◌∷◌, List, Bool, true, false, Option, none, some, Text, codes, ◌≡◌, ◌++◌, refl, arith,
  print_number, digits, digit, text_eq, to_lower, lower,
}
use i_filter_imitation.Proxy.Framing.{
  UpResponse, framing, framing_line, loop_write_head, loop_write_body, header_lines, write_lines,
  write_fields, reason, is_dropped, is_member, equal_fold,
}
use i_filter_imitation.Proxy.Framing.Message.{read_message}
use i_filter_imitation.Proxy.Framing.RoundTrip.{IsPlainHead, upstream_body, read_message-cut}

abbrev header : List (Text × List Text)
header =
    (codes "Connection", codes "close" ∷ [])
    ∷ (codes "Set-Cookie", codes "a" ∷ codes "b" ∷ [])
    ∷ (codes "content-length", codes "7" ∷ [])
    ∷ []

abbrev response : Option ℕ → Bool → Bool → UpResponse
response len close fails = record {
  status_code = 200;
  status = codes "OK";
  header = header;
  content_length = len;
  close = close;
  reads = codes "ab" ∷ codes "c" ∷ [];
  fails = fails;
}

abbrev no_text : ℕ → Text
no_text _ = []

loop_write_head_known :
    loop_write_head no_text (response (some 3) false false)
    ≡ codes "HTTP/1.1 200 OK\r\nSet-Cookie: a\r\nSet-Cookie: b\r\nContent-Length: 3\r\n\r\n"
unfolding loop_write_head write_fields reason header_lines write_lines framing framing_line
    is_dropped is_member equal_fold text_eq to_lower lower print_number digits digit
loop_write_head_known = refl

plain_head : (len : Option ℕ) (fails : Bool) → IsPlainHead no_text (response len false fails)
unfolding reason header_lines is_dropped is_member equal_fold text_eq to_lower lower
plain_head len fails = record {
  no_switch = refl;
  inline_reason = ground arith;
  inline_fields = ground arith;
}

-- The upstream body is cut behind `abc`.
read_message-cut_example :
    (upstream_body (response none false true) ≡ none)
    × (read_message 9 (
          loop_write_head no_text (response none false true)
          ++ (loop_write_body (response none false true) ++ codes "HTTP"))
        ≡ some (codes "abc", codes "HTTP"))
read_message-cut_example =
    read_message-cut no_text (response none false true) (plain_head none true) 9 (codes "HTTP") refl
      refl refl (omega arith)
