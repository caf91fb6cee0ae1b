-- ===== src/Tests/Xml.antt =====
-- A title, written and read.
use swishxx.Common.{◌≡◌, refl, none, some, codes}
use swishxx.Filter.{find_first_of}
use swishxx.Xml.{replace_loop, escape, has_special, write_title}
use swishxx.Xml.RoundTrip.{char_data, char_data-write_title}

title_written : write_title (codes "R&D < 5") ≡ codes "R&amp;D &lt; 5"
unfolding write_title has_special escape replace_loop find_first_of
title_written = refl

title_kept : write_title (codes "A > B") ≡ codes "A > B"
unfolding write_title has_special find_first_of
title_kept = refl

char_data-write_title_example : char_data none (write_title (codes "a&<b")) ≡ some (codes "a&<b")
char_data-write_title_example = char_data-write_title (codes "a&<b")
