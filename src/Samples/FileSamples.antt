-- ===== src/Samples/FileSamples.antt =====
-- Patterns of file names.
use isched.Common.{◌≡◌, refl, Bool, true, ◌↔◌, some, codes}
use isched.Files.{wildcard_match_segment}
use isched.Files.Matching.{Matches}
use isched.Files.Search.{wildcard_match_segment-Matches}

wildcard_match_segment-Matches_example :
    (b : Bool) × (wildcard_match_segment (codes "a*b*.[ch]") (codes "axbbc.h") ≡ some b)
    × ((b ≡ true) ↔ Matches (some (codes "a*b*.[ch]")) (codes "axbbc.h"))
wildcard_match_segment-Matches_example =
    wildcard_match_segment-Matches (codes "a*b*.[ch]") (codes "axbbc.h")

backtracks : wildcard_match_segment (codes "*ab") (codes "aab") ≡ some true
unfolding wildcard_match_segment isched.Files.wildcard_loop isched.Files.enough isched.Files.choose
    isched.Files.hits isched.Files.after isched.Files.only_stars
backtracks = refl
