-- ===== src/Wire/Tests.antt =====
-- The byte loops at concrete answers.
use pub_sub_crawl.Base.{[], ◌∷◌, codes}
use pub_sub_crawl.Wire.{Write, wrote, write_all}
use pub_sub_crawl.Wire.Lines.{Split, write_all-Split}

write_all-Split_example :
    Split (codes "abc") (write_all (wrote 2 ∷ Write.broken ∷ []) (codes "abc"))
write_all-Split_example = write_all-Split (wrote 2 ∷ Write.broken ∷ []) (codes "abc")
