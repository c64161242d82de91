-- ===== src/Logger/Sender/Tests.antt =====
-- A channel for two records, to which three are sent.
use i_filter_imitation.Common.{ℕ, ◌≤◌, List, [], ◌∷◌, true, length, ◌≡◌, refl, arith}
use i_filter_imitation.Logger.Sender.{Sender, Network, new_sender, send, write, drain, close}
use i_filter_imitation.Logger.Sender.Delivery.{Event, sends, drains, step, run, taken, close-taken}

abbrev up : Network
up = record { dials = true; writes = true }

abbrev events : List (Event ℕ)
events = sends 1 ∷ sends 2 ∷ sends 3 ∷ drains up ∷ sends 4 ∷ []

abbrev behind : Sender ℕ
behind = run events (new_sender 2 true)

third_dropped : taken events (new_sender 2 true) ≡ 1 ∷ 2 ∷ 4 ∷ []
unfolding taken step new_sender send drain write
third_dropped = refl

two_left : length behind.ch ≤ length (up ∷ up ∷ [])
unfolding run step new_sender send drain write
two_left = omega arith

close-taken_example : (close (up ∷ up ∷ []) behind).written ≡ taken events (new_sender 2 true)
close-taken_example =
    close-taken events (up ∷ up ∷ []) 2 true (tt, (tt, (tt, ((refl, refl), (tt, tt)))))
      ((refl, refl), ((refl, refl), tt)) two_left
