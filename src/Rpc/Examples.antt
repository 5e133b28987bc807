-- ===== src/Rpc/Examples.antt =====
-- A request for a method of a plugin whose id has a dot.
use u.Base.{◌≡◌, ◌↔◌, refl, some}
use u.Json.{string}
use u.Rpc.{read_target, split_last}
use u.Rpc.Target.{dotted, IsTarget, read_target_iff}

read_target_iff_example :
    (read_target (string "std.log.query") ≡ some ("std.log", "query"))
    ↔ (("std.log.query" ≡ dotted "std.log" "query") × IsTarget "std.log" "query")
read_target_iff_example = read_target_iff "std.log.query" "std.log" "query"

reads_query : read_target (string "std.log.query") ≡ some ("std.log", "query")
unfolding read_target split_last
reads_query = refl
