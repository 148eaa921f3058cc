-- ===== src/Charset/Tests.antt =====
-- Membership in the sets of a range and of a few options.
use hammer.Prelude.{◌≡◌, ◌&&◌, arith, false, not, [], ◌∷◌, leb, if◌then◌else◌}
use hammer.Charset.{charset_isset, ch_range, in_or_not}
use hammer.Charset.Laws.{is_among, isset-ch_range, isset-in_or_not}

isset-ch_range_example : charset_isset (ch_range 0x61 0x7a) 0x6d ≡ (leb 0x61 0x6d && leb 0x6d 0x7a)
isset-ch_range_example = isset-ch_range 0x61 0x7a 0x6d (omega arith)

isset-in_or_not_example :
    charset_isset (in_or_not (0x30 ∷ 0x31 ∷ []) false) 0x31
    ≡ (if is_among 0x31 (0x30 ∷ 0x31 ∷ []) then false else not false)
isset-in_or_not_example =
    isset-in_or_not (0x30 ∷ 0x31 ∷ []) false 0x31 (omega arith, (omega arith, tt)) (omega arith)
