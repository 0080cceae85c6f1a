-- ===== src/Export/Examples.antt =====
-- Exports at concrete texts.
use asber.Base.{codes, false, some, ◌≡◌}
use asber.Export.{md, one_line}
use asber.Export.Escapes.{md_reads_back, read_plain}

md_reads_back_example :
    read_plain false (md (some (codes "[a](b)"))) ≡ some (one_line (codes "[a](b)"))
md_reads_back_example = md_reads_back (codes "[a](b)")
