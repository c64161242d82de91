-- ===== src/Proxy/Chunked/Tests.antt =====
-- The chunks of a body read in three parts.
use i_filter_imitation.Common.{[], ◌∷◌, List, Text, codes, ◌≡◌, refl, print_number, digits, digit}
use i_filter_imitation.Proxy.Chunked.{write_chunk, write_chunks, close_chunks}

abbrev parts : List Text
parts = codes "hello" ∷ [] ∷ codes ", world" ∷ []

write_chunks_hello : write_chunks parts ≡ codes "5\r\nhello\r\n7\r\n, world\r\n0\r\n\r\n"
unfolding write_chunks write_chunk close_chunks print_number digits digit
write_chunks_hello = refl

sixteen : print_number 16 256 ≡ codes "100"
unfolding print_number digits digit
sixteen = refl
