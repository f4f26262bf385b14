-- ===== src/Tests/VersionTheorems.antt =====
-- The theorem on versions at 0.5.34 and 0.6.1, and a version with a suffix.
use lanet.Base.{◌≡◌, refl, arith, codes, pos}
use lanet.Selfupdate.{
  compare_versions, parse_semver, scan_from, scan_byte, close_segment, compare_segments,
}
use lanet.Selfupdate.Order.{print_version, order_then, compare_versions-print_version}

compare_versions-print_version_example :
    compare_versions (print_version 0 5 34) (print_version 0 6 1)
    ≡ order_then 0 0 (order_then 5 6 (order_then 34 1 (pos 0)))
compare_versions-print_version_example =
    compare_versions-print_version 0 5 34 0 6 1 (omega arith) (omega arith) (omega arith)
      (omega arith) (omega arith) (omega arith)

-- The digits of a suffix are read into the last number.
suffix_is_newer : compare_versions (codes "1.2.0-rc1") (codes "1.2.0") ≡ pos 1
unfolding compare_versions parse_semver scan_from scan_byte close_segment compare_segments
suffix_is_newer = refl
