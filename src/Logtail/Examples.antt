-- ===== src/Logtail/Examples.antt =====
-- internal/logtail/tail.go on a file of three lines.
use frp_easy.Prelude.{◌≡◌, pos, some, ok, Text, codes, arith, drop}
use frp_easy.Logtail.{no_faults, split_lines, last_lines, tail_lines}
use frp_easy.Logtail.Tail.{tail_lines-last_lines}
use frp_easy.Logtail.Poll.{poll, poll_lem}

abbrev pub file : Text
file = codes "one\ntwo\r\nthree"

tail_lines-last_lines_example :
    tail_lines no_faults file (pos 2) ≡ some (ok (last_lines 2 (split_lines file)))
tail_lines-last_lines_example = tail_lines-last_lines file 2

poll_lem_example : poll 20 file (pos 4) ≡ drop 4 file
poll_lem_example = poll_lem 20 file 4 (omega arith) (omega arith)
