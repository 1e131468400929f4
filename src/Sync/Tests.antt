-- ===== src/Sync/Tests.antt =====
-- Runs of the guard and of the quoting, and their theorems at concrete inputs.
use devm.Base.{
  ℕ, ◌≡◌, refl, ◌↔◌, true, none, some, [], ◌∷◌, ◌++◌, nat_eq, bool_eq, pair_eq, codes, bytes_eq,
}
use devm.Base.Int.{pos, int_eq}
use devm.Sync.Quote.{posix_shell_quote, read_word, unquoted, read_word-posix_shell_quote}
use devm.Sync.Guard.{ScanSide, guard_check, no_reason, sizes_differ, IsReason, guard_check-IsReason}

quote_tests :
    (posix_shell_quote (codes "it's") ≡ codes "'it'\\''s'")
    × (read_word unquoted (codes "a;rm -rf /") ≡ none)
    × (read_word unquoted (codes "a\\ b") ≡ some (codes "a b", []))
unfolding posix_shell_quote read_word
quote_tests = (refl, refl, refl)

read_word-posix_shell_quote_example :
    read_word unquoted (posix_shell_quote (codes "$(rm x)'; y") ++ 10 ∷ codes "cd")
    ≡ some (codes "$(rm x)'; y", 10 ∷ codes "cd")
read_word-posix_shell_quote_example = read_word-posix_shell_quote (codes "$(rm x)'; y") (codes "cd")

abbrev side : ℕ → ℕ → ScanSide
side count size = record {
  count = pos count;
  size = pos size;
  top_hash = codes "ab";
  top_sample = [];
}

guard_tests :
    ((guard_check (side 3 9) (side 3 8)).reason ≡ sizes_differ (pos 9) (pos 8))
    × ((guard_check (side 3 9) (side 0 8)).accepted ≡ true)
unfolding guard_check
guard_tests = (refl, refl)

guard_check-IsReason_example :
    (((guard_check (side 3 9) (side 3 8)).reason ≡ sizes_differ (pos 9) (pos 8))
      ↔ IsReason (side 3 9) (side 3 8) (sizes_differ (pos 9) (pos 8)))
    × (((guard_check (side 3 9) (side 3 8)).accepted ≡ true)
        ↔ ((guard_check (side 3 9) (side 3 8)).reason ≡ no_reason))
guard_check-IsReason_example =
    guard_check-IsReason (side 3 9) (side 3 8) (sizes_differ (pos 9) (pos 8))
