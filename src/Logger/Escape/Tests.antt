-- ===== src/Logger/Escape/Tests.antt =====
-- A value with all three special bytes.
use i_filter_imitation.Common.{[], codes, ◌≡◌, refl}
use i_filter_imitation.Logger.Escape.{escape_syslog, replace_all, nilify, write_param}

write_param_empty : write_param (codes "host") [] ≡ codes " host=\"-\""
unfolding write_param escape_syslog replace_all nilify
write_param_empty = refl
