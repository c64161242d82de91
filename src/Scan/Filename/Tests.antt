-- ===== src/Scan/Filename/Tests.antt =====
-- Runs of `filename_from`.
use i_filter_imitation.Common.{[], codes, ◌≡◌, refl}
use i_filter_imitation.Scan.Filename.{filename_from}

quoted :
    filename_from (codes "attachment; FileName=\"a b.zip\"") (codes "/x/y.bin") ≡ codes "a b.zip"
unfolding filename_from
quoted = refl

last_segment : filename_from (codes "inline") (codes "/x/y.bin") ≡ codes "y.bin"
unfolding filename_from
last_segment = refl

no_name : filename_from [] (codes "/x/") ≡ codes "download"
unfolding filename_from
no_name = refl
