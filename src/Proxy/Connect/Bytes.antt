-- ===== src/Proxy/Connect/Bytes.antt =====
-- The bytes of a connection, those that were read already first.
use i_filter_imitation.Common.{
  ℕ, ◌+◌, List, [], ◌∷◌, ◌++◌, Option, none, some, Text, length, length-append, take, drop, min,
  take-append-drop, append_assoc, ◌≡◌, refl, sym, ap, ◌∙◌, arith,
}
use i_filter_imitation.Proxy.Connect.{Conn, read, RequestMeta, count_read}

-- what the client sent and nobody has read
abbrev pub left : Conn → Text
left c = elim c.br [ none ↦ c.network | some buffered ↦ buffered ++ c.network ]

-- reads one after the other, each with its size and what has arrived
unfoldable pub read_all : List (ℕ × ℕ) → Conn → Text × Conn
unfolding read
read_all [] c = ([], c)
read_all ((size, arrived) ∷ rs) c =
    let (bytes, c') = read size arrived c in
    let (rest, c'') = read_all rs c' in (bytes ++ rest, c'')

read-left : (size arrived : ℕ) (c : Conn) → let r = read size arrived c in r.0 ++ left r.1 ≡ left c
unfolding read
read-left size arrived c = by_buffer c.br
  where
    by_buffer :
        (o : Option Text)
        → let r = read size arrived (record c { br = o }) in
          r.0 ++ left r.1 ≡ left (record c { br = o })
    by_buffer none = take-append-drop (min size arrived) c.network
    by_buffer (some []) = take-append-drop (min size arrived) c.network
    by_buffer (some (b ∷ buffered)) =
        sym (append_assoc (take size (b ∷ buffered)) (drop size (b ∷ buffered)) c.network)
        ∙ ap (λ x. x ++ c.network) (take-append-drop size (b ∷ buffered))

-- Whatever the sizes of the reads and however the bytes arrive, what is read, followed by what is left, is
-- what the server had buffered followed by what comes from the network: no byte is lost, changed, read
-- twice or out of order.
pub read_all-left :
    (rs : List (ℕ × ℕ)) (c : Conn) → let r = read_all rs c in r.0 ++ left r.1 ≡ left c
unfolding read_all
read_all-left [] c = refl
read_all-left ((size, arrived) ∷ rs) c =
    let (bytes, c') = read size arrived c in
    let (rest, c'') = read_all rs c' in
    append_assoc bytes rest (left c'')
    ∙ ap (λ x. bytes ++ x) (read_all-left rs c')
    ∙ read-left size arrived c

-- The count of the reads of a body is the number of its bytes.
unfoldable pub count_all : List Text → RequestMeta → RequestMeta
unfolding count_read
count_all [] meta = meta
count_all (bytes ∷ reads) meta = count_all reads (count_read bytes meta)

abbrev pub joined : List Text → Text
joined [] = []
joined (bytes ∷ reads) = bytes ++ joined reads

pub count_all-length :
    (reads : List Text) (meta : RequestMeta)
    → (count_all reads meta).bytes_sent ≡ meta.bytes_sent + length (joined reads)
unfolding count_all count_read
count_all-length [] meta = omega arith
count_all-length (bytes ∷ reads) meta =
    omega
      (arith, count_all-length reads (count_read bytes meta), length-append bytes (joined reads))
