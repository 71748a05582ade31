-- ===== src/Core/Overlaps/Examples.antt =====
-- The theorems about overlapping resources at concrete inputs.
use agents_can_communicate.Base.{◌≡◌, ◌↔◌, true, codes}
use agents_can_communicate.Protocol.Resources.{split_slash}
use agents_can_communicate.Core.Overlaps.{is_within, overlaps, overlaps_comm}
use agents_can_communicate.Core.Overlaps.Segments.{IsSegmentPrefix, is_within_iff_segments}

is_within_iff_segments_example :
    (is_within (codes "a") (codes "ab/c") ≡ true)
    ↔ IsSegmentPrefix (split_slash (codes "a")) (split_slash (codes "ab/c"))
is_within_iff_segments_example = is_within_iff_segments (codes "a") (codes "ab/c")

overlaps_comm_example :
    overlaps (codes "file:src/**") (codes "file:src/a.mjs")
    ≡ overlaps (codes "file:src/a.mjs") (codes "file:src/**")
overlaps_comm_example = overlaps_comm (codes "file:src/**") (codes "file:src/a.mjs")
