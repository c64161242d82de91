-- ===== src/Proxy/Chunked/Laws.antt =====
-- The chunked coding of RFC 9112, read back.
use i_filter_imitation.Common.{
  ℕ, zero, suc, ◌+◌, ◌-◌, ◌*◌, ◌/◌, ◌%◌, ◌≤◌, ◌<◌, List, [], ◌∷◌, ◌++◌, append_assoc, length, take,
  drop, true, false, Option, none, some, leb, ◌==◌, ◌&&◌, if◌then◌else◌, Text, ◌≡◌, refl, ap, ◌∙◌,
  arith, digit, digits, print_number, take_of_append, length-append, drop_of_append, Bool-cases,
  inl, inr,
}
use i_filter_imitation.Proxy.Chunked.{
  flatten, crlf, write_chunk, write_each, close_chunks, write_chunks,
}

pub digit_value : ℕ → Option ℕ
digit_value c =
    if leb b'0' c && leb c b'9'
    then some (c - b'0')
    else if leb b'a' c && leb c b'f'
    then some (c - b'a' + 10)
    else none

-- A line that ends as CRLF and holds a hexadecimal number, `v` so far, and what stands behind it.
pub read_size : ℕ → Text → Option (ℕ × Text)
read_size v [] = none
read_size v (c ∷ s) = elim (digit_value c) [
  | some d ↦ read_size (v * 16 + d) s
  | none ↦ elim s [
    | [] ↦ none
    | e ∷ rest ↦ if c == b'\r' && e == b'\n' then some (v, rest) else none
  ]
]

pub drop_crlf : Text → Option Text
drop_crlf (c ∷ e ∷ s) = if c == b'\r' && e == b'\n' then some s else none
drop_crlf _ = none

-- The body of a message with the coding `chunked`, at most `fuel` chunks with the last one, and what
-- stands behind it.
pub decode : ℕ → Text → Option (Text × Text)
decode zero s = none
decode (suc fuel) s = elim (read_size 0 s) [
  | none ↦ none
  | some (n, rest) ↦
      if n == 0
      then elim (drop_crlf rest) [ none ↦ none | some t ↦ some ([], t) ]
      else elim (drop_crlf (drop n rest)) [
        | none ↦ none
        | some s' ↦ elim (decode fuel s') [
          | none ↦ none
          | some (body, t) ↦ some (take n rest ++ body, t)
        ]
      ]
]

digit_value-digit : (d : ℕ) → d < 16 → digit_value (digit d) ≡ some d
unfolding digit_value digit
digit_value-digit d h = ground arith

digits-append : (b fuel n : ℕ) (s t : Text) → digits b fuel n s ++ t ≡ digits b fuel n (s ++ t)
unfolding digits
digits-append b zero n s t = refl
digits-append b (suc fuel) n s t = elim (Bool-cases (n / b == 0)) [
  | inl e ↦ rw e refl
  | inr e ↦ rw e (digits-append b fuel (n / b) (digit (n % b) ∷ s) t)
]

read_size-digit :
    (v d : ℕ) (s : Text) → d < 16 → read_size v (digit d ∷ s) ≡ read_size (v * 16 + d) s
unfolding read_size
read_size-digit v d s h = rw (digit_value-digit d h, read_size) refl

read_size-digits :
    (fuel n : ℕ) (s : Text) → n < fuel → read_size 0 (digits 16 fuel n s) ≡ read_size n s
unfolding digits
read_size-digits zero n s h = absurd (omega arith)
read_size-digits (suc fuel) n s h = elim (Bool-cases (n / 16 == 0)) [
  | inl e ↦ rw e (read_size-digit 0 (n % 16) s (omega arith) ∙ ap (λ k. read_size k s) (small n e))
  | inr e ↦ rw e (
      read_size-digits fuel (n / 16) (digit (n % 16) ∷ s) (ground arith)
      ∙ read_size-digit (n / 16) (n % 16) s (omega arith)
      ∙ ap (λ k. read_size k s) (whole n))
]
  where
    small : (n : ℕ) → (n / 16 == 0) ≡ true → 0 * 16 + n % 16 ≡ n
    small n e = ground arith

    whole : (n : ℕ) → n / 16 * 16 + n % 16 ≡ n
    whole n = omega arith

read_size-crlf : (n : ℕ) (s : Text) → read_size n (crlf ++ s) ≡ some (n, s)
unfolding read_size digit_value
read_size-crlf n s = refl

read_size-print_number :
    (n : ℕ) (s : Text) → read_size 0 (print_number 16 n ++ (crlf ++ s)) ≡ some (n, s)
unfolding print_number
read_size-print_number n s =
    ap (read_size 0) (digits-append 16 (n + 1) n [] (crlf ++ s))
    ∙ read_size-digits (n + 1) n (crlf ++ s) (omega arith)
    ∙ read_size-crlf n s

-- One chunk whose size line has been read.
decode_sized :
    (fuel n : ℕ) (s rest more : Text) (body t : Text)
    → read_size 0 s ≡ some (n, rest)
    → (n == 0) ≡ false
    → drop_crlf (drop n rest) ≡ some more
    → decode fuel more ≡ some (body, t)
    → decode (suc fuel) s ≡ some (take n rest ++ body, t)
unfolding decode
decode_sized fuel n s rest more body t sized full ended e = rw (sized, full, ended, e, decode) refl

chunk_parts :
    (n c : ℕ) (p s : Text)
    → print_number 16 n ++ crlf ++ (c ∷ p) ++ crlf ++ s
      ≡ print_number 16 n ++ (crlf ++ ((c ∷ p) ++ (crlf ++ s)))
chunk_parts n c p s =
    append_assoc (print_number 16 n ++ crlf ++ (c ∷ p)) crlf s
    ∙ append_assoc (print_number 16 n ++ crlf) (c ∷ p) (crlf ++ s)
    ∙ append_assoc (print_number 16 n) crlf ((c ∷ p) ++ (crlf ++ s))

suc-zero : (n : ℕ) → (suc n == 0) ≡ false
suc-zero n = ground arith

drop_crlf-crlf : (s : Text) → drop_crlf (crlf ++ s) ≡ some s
unfolding drop_crlf
drop_crlf-crlf s = refl

decode_chunk :
    (fuel : ℕ) (c : ℕ) (p s : Text) (body t : Text)
    → decode fuel s ≡ some (body, t)
    → decode (suc fuel) (write_chunk (c ∷ p) ++ s) ≡ some ((c ∷ p) ++ body, t)
unfolding write_chunk
decode_chunk fuel c p s body t e =
    let n = length (c ∷ p) in
    decode_sized fuel n _ ((c ∷ p) ++ (crlf ++ s)) s body t
      (ap (read_size 0) (chunk_parts n c p s) ∙ read_size-print_number n ((c ∷ p) ++ (crlf ++ s)))
      (suc-zero (length p)) (ap drop_crlf (drop_of_append (c ∷ p) (crlf ++ s)) ∙ drop_crlf-crlf s) e
    ∙ ap (λ q. some (q ++ body, t)) (take_of_append (c ∷ p) (crlf ++ s))

decode-close_chunks : (fuel : ℕ) (t : Text) → decode (suc fuel) (close_chunks ++ t) ≡ some ([], t)
unfolding decode close_chunks read_size digit_value drop_crlf
decode-close_chunks fuel t = refl

write_chunk-nil : write_chunk [] ≡ []
unfolding write_chunk
write_chunk-nil = refl

-- What the writer sends for the reads of a body, read back as the coding says, is the bytes of the
-- body, and what stands behind it is untouched: more rounds of fuel than there are reads are enough.
pub decode-write_chunks :
    (fuel : ℕ) (ps : List Text) (t : Text)
    → length ps < fuel
    → decode fuel (write_chunks ps ++ t) ≡ some (flatten ps, t)
unfolding write_chunks write_each
decode-write_chunks zero ps t h = absurd (omega arith)
decode-write_chunks (suc fuel) [] t h = decode-close_chunks fuel t
decode-write_chunks (suc fuel) ([] ∷ ps) t h =
    ap (λ q. decode (suc fuel) (q ++ write_chunks ps ++ t)) write_chunk-nil
    ∙ decode-write_chunks (suc fuel) ps t (omega arith)
decode-write_chunks (suc fuel) ((c ∷ p) ∷ ps) t h =
    ap (decode (suc fuel)) (
      ap (λ s. s ++ t) (append_assoc (write_chunk (c ∷ p)) (write_each ps) close_chunks)
      ∙ append_assoc (write_chunk (c ∷ p)) (write_chunks ps) t)
    ∙ decode_chunk fuel c p (write_chunks ps ++ t) (flatten ps) t
        (decode-write_chunks fuel ps t (omega arith))

length-write_chunk : (p : Text) → length p ≤ length (write_chunk p)
unfolding write_chunk
length-write_chunk [] = omega arith
length-write_chunk (c ∷ p) = omega (
  arith,
  length-append (print_number 16 (length (c ∷ p)) ++ crlf ++ (c ∷ p)) crlf,
  length-append (print_number 16 (length (c ∷ p)) ++ crlf) (c ∷ p),
)

-- The coding of a body is longer than the body.
pub length-write_chunks : (ps : List Text) → length (flatten ps) + 5 ≤ length (write_chunks ps)
unfolding write_chunks write_each close_chunks
length-write_chunks [] = omega arith
length-write_chunks (p ∷ ps) = omega (
  arith,
  length-append p (flatten ps),
  length-append (write_chunk p ++ write_each ps) close_chunks,
  length-append (write_each ps) close_chunks,
  length-append (write_chunk p) (write_each ps),
  length-write_chunk p,
  length-write_chunks ps,
)
