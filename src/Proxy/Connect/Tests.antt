-- ===== src/Proxy/Connect/Tests.antt =====
-- A connection whose first bytes were read already.
use i_filter_imitation.Common.{ℕ, List, [], ◌∷◌, ◌++◌, true, none, some, codes, ◌≡◌, refl}
use i_filter_imitation.Proxy.Connect.{Conn, read, handle_connect, tunnelled, timed_round_trip}
use i_filter_imitation.Proxy.Connect.Bytes.{left, read_all, read_all-left}

abbrev conn : Conn
conn = record { br = some (codes "hel"); network = codes "lo" }

abbrev sizes : List (ℕ × ℕ)
sizes = (2, 9) ∷ (2, 9) ∷ (1, 9) ∷ (9, 9) ∷ []

all_read : (read_all sizes conn).0 ≡ codes "hello"
unfolding read_all read
all_read = refl

read_all-left_example : let r = read_all sizes conn in r.0 ++ left r.1 ≡ left conn
read_all-left_example = read_all-left sizes conn

starts_buffered :
    handle_connect (some (codes "hel")) true (λ c. some c) (codes "a.com:443") (codes "lo")
    ≡ tunnelled (codes "a.com:443") (codes "HTTP/1.1 200 Connection established\r\n\r\n") conn
unfolding handle_connect
starts_buffered = refl

upgrade_uncounted : (timed_round_trip (some (101, [])) none).0 ≡ none
unfolding timed_round_trip
upgrade_uncounted = refl
