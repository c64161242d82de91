-- ===== src/Proxy/Framing/StatusLine.antt =====
-- The numbers of a head: the status and the length.
use i_filter_imitation.Common.{
  ℕ, zero, suc, ◌+◌, ◌*◌, ◌/◌, ◌%◌, ◌<◌, [], ◌∷◌, ◌++◌, true, some, ◌==◌, Text, codes, text_eq, ◌≡◌,
  refl, ap, ◌∙◌, arith, All, Bool-cases, inl, inr, digit, digits, print_number,
}
use i_filter_imitation.Proxy.Chunked.{crlf}
use i_filter_imitation.Proxy.Framing.{BodyFraming, by_length}
use i_filter_imitation.Proxy.Framing.Message.{
  split_line, read_decimal, read_length, or_else, note_field, note_line, read_head,
}
use i_filter_imitation.Proxy.Framing.Head.{IsInline, IsInline-append, read_head-line}

digit-IsInline : (d : ℕ) → d < 10 → IsInline (digit d)
unfolding digit
digit-IsInline d h = ground (arith, h)

digits-IsInline : (fuel n : ℕ) (s : Text) → All IsInline s → All IsInline (digits 10 fuel n s)
unfolding digits
digits-IsInline zero n s h = h
digits-IsInline (suc fuel) n s h =
    let more : All IsInline (digit (n % 10) ∷ s) = (digit-IsInline (n % 10) (omega arith), h) in
    elim (Bool-cases (n / 10 == 0)) [
      | inl e ↦ rw e more
      | inr e ↦ rw e (digits-IsInline fuel (n / 10) (digit (n % 10) ∷ s) more)
    ]

pub print_number-IsInline : (n : ℕ) → All IsInline (print_number 10 n)
unfolding print_number
print_number-IsInline n = digits-IsInline (n + 1) n [] tt

read_decimal-digit :
    (v d : ℕ) (s : Text) → d < 10 → read_decimal v (digit d ∷ s) ≡ read_decimal (v * 10 + d) s
unfolding read_decimal digit
read_decimal-digit v d s h = ground (arith, h)

read_decimal-digits :
    (fuel n : ℕ) (s : Text) → n < fuel → read_decimal 0 (digits 10 fuel n s) ≡ read_decimal n s
unfolding digits
read_decimal-digits zero n s h = absurd (omega arith)
read_decimal-digits (suc fuel) n s h = elim (Bool-cases (n / 10 == 0)) [
  | inl e ↦
      rw e (read_decimal-digit 0 (n % 10) s (omega arith) ∙ ap (λ k. read_decimal k s) (small n e))
  | inr e ↦ rw e (
      read_decimal-digits fuel (n / 10) (digit (n % 10) ∷ s) (ground arith)
      ∙ read_decimal-digit (n / 10) (n % 10) s (omega arith)
      ∙ ap (λ k. read_decimal k s) (whole n))
]
  where
    small : (n : ℕ) → (n / 10 == 0) ≡ true → 0 * 10 + n % 10 ≡ n
    small n e = ground arith

    whole : (n : ℕ) → n / 10 * 10 + n % 10 ≡ n
    whole n = omega arith

read_decimal-print_number : (n : ℕ) → read_decimal 0 (print_number 10 n) ≡ some n
unfolding print_number read_decimal
read_decimal-print_number n = read_decimal-digits (n + 1) n [] (omega arith)

abbrev pub length_line : ℕ → Text
length_line n = codes "Content-Length: " ++ print_number 10 n

note_line-length : (n : ℕ) (f : BodyFraming) → note_line (length_line n) f ≡ by_length n
unfolding note_line split_line note_field text_eq read_length
note_line-length n f = ap (λ o. or_else o f) (read_decimal-print_number n) ∙ refl

-- The line of a known length says it.
pub read_head-length :
    (n : ℕ) (f : BodyFraming) (s : Text)
    → read_head f [] (length_line n ++ (crlf ++ s)) ≡ read_head (by_length n) [] s
read_head-length n f s =
    read_head-line f b'C' (codes "ontent-Length: " ++ print_number 10 n) s (
      IsInline-append (codes "Content-Length: ") (print_number 10 n) name (print_number-IsInline n))
    ∙ ap (λ g. read_head g [] s) (note_line-length n f)
  where
    name : All IsInline (codes "Content-Length: ")
    name = ground arith

abbrev pub status_line : ℕ → Text → Text
status_line code text = codes "HTTP/1.1 " ++ print_number 10 code ++ codes " " ++ text

note_line-status_line :
    (code : ℕ) (text : Text) (f : BodyFraming) → note_line (status_line code text) f ≡ f
unfolding note_line split_line note_field text_eq
note_line-status_line code text f = refl

-- The status line says nothing of the body.
pub read_head-status_line :
    (code : ℕ) (text : Text) (f : BodyFraming) (s : Text)
    → All IsInline text
    → read_head f [] (status_line code text ++ (crlf ++ s)) ≡ read_head f [] s
read_head-status_line code text f s h =
    read_head-line f b'H' (codes "TTP/1.1 " ++ print_number 10 code ++ codes " " ++ text) s inline
    ∙ ap (λ g. read_head g [] s) (note_line-status_line code text f)
  where
    inline : All IsInline (status_line code text)
    inline =
        IsInline-append (codes "HTTP/1.1 " ++ print_number 10 code ++ codes " ") text
          (IsInline-append (codes "HTTP/1.1 " ++ print_number 10 code) (codes " ")
            (IsInline-append (codes "HTTP/1.1 ") (print_number 10 code) (ground arith)
              (print_number-IsInline code))
            (ground arith))
          h
