-- ===== src/Proxy/HostPort/Tests.antt =====
-- Runs of `split_host_port`.
use i_filter_imitation.Common.{none, some, codes, ◌≡◌, refl}
use i_filter_imitation.Proxy.HostPort.{split_host_port}

name_and_port : split_host_port (codes "a.com:443") ≡ some (codes "a.com", codes "443")
unfolding split_host_port
name_and_port = refl

no_port : split_host_port (codes "a.com") ≡ none
unfolding split_host_port
no_port = refl

ipv6 : split_host_port (codes "[::1]:80") ≡ some (codes "::1", codes "80")
unfolding split_host_port
ipv6 = refl

too_many_colons : split_host_port (codes "::1") ≡ none
unfolding split_host_port
too_many_colons = refl
