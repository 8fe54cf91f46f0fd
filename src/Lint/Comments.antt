-- ===== src/Lint/Comments.antt =====
-- The removal of comments over several lines: `RemoveMultiLineComments`.
pub mod Passes
use simpledb.Prelude.{
  ℕ, zero, suc, ◌+◌, Bool, true, false, not, ◌&&◌, List, [], ◌∷◌, Option, none, some, ltb, leb,
  length, drop, if◌then◌else◌,
}
use simpledb.Prelude.Text.{Text, codes, starts_with, ends_with, find, strip}

absent : Option ℕ → Bool
absent none = true
absent (some _) = false

-- The test of `FindNextMultiLineCommentStart`: a comment that goes beyond its line.
unfoldable pub starts_comment : Text → Bool
unfolding strip starts_with find absent
starts_comment line =
    starts_with (codes "/*") (strip line) && absent (find (codes "*/") (drop 2 (strip line)))

-- The test of `FindNextMultiLineCommentEnd`.
unfoldable pub ends_comment : Text → Bool
unfolding strip ends_with
ends_comment line = ends_with (codes "*/") (strip line)

-- The number of lines in front of the first that passes the test.
unfoldable pub lines_before : (Text → Bool) → List Text → ℕ
lines_before test [] = 0
lines_before test (line ∷ lines) =
    let more = lines_before test lines in if test line then 0 else more + 1

-- `FindNextMultiLineCommentStart`, for a `lineix` up to the number of lines.
unfoldable pub find_next_start : List Text → ℕ → ℕ
find_next_start lines lineix = lineix + lines_before starts_comment (drop lineix lines)

-- `FindNextMultiLineCommentEnd`, likewise.
unfoldable pub find_next_end : List Text → ℕ → ℕ
find_next_end lines lineix = lineix + lines_before ends_comment (drop lineix lines)

abbrev pub dummy_comment : Text
dummy_comment = codes "/**/"

-- `RemoveMultiLineCommentsFromRange`
unfoldable pub remove_range : List Text → ℕ → ℕ → List Text
remove_range [] begin end = []
remove_range (line ∷ lines) begin zero = line ∷ lines
remove_range (line ∷ lines) zero (suc end) = dummy_comment ∷ remove_range lines zero end
remove_range (line ∷ lines) (suc begin) (suc end) = line ∷ remove_range lines begin end

-- The loop of `RemoveMultiLineComments` on fuel: the lines that it leaves, with the number of the
-- line for which it reports that the comment has no end.
unfoldable pub remove_loop : ℕ → List Text → ℕ → Option (List Text × Option ℕ)
unfolding find_next_start find_next_end remove_range
remove_loop zero lines lineix = none
remove_loop (suc fuel) lines lineix =
    let begin = find_next_start lines lineix in
    let end = find_next_end lines begin in
    let rest = remove_loop fuel (remove_range lines begin (end + 1)) (end + 1) in
    if not (ltb lineix (length lines))
    then some (lines, none)
    else if leb (length lines) begin
    then some (lines, none)
    else if leb (length lines) end
    then some (lines, some (begin + 1))
    else rest

-- Each round goes at least one line on.
unfoldable pub remove_multi_line_comments : List Text → Option (List Text × Option ℕ)
remove_multi_line_comments lines = remove_loop (length lines + 1) lines 0
