-- ===== src/Db/Log.antt =====
-- gateway/internal/db/db.go: the log of changes that clients read.
use cell_bridge.Db.{Change}
use cell_bridge.Base.{
  Text, ℕ, List, length, ◌∷◌, Option, ◌+◌, if◌then◌else◌, [], ◌++◌, ltb, ◌||◌, none, some, take,
}

-- `appendSyncLog`, on a log that nothing is deleted from: the number is the next one.
unfoldable pub append_sync_log : Text → Text → Text → List Change → List Change × ℕ
append_sync_log entity_type entity_id operation log =
    let seq = length log + 1 in
    (
      log
          ++ record {
            seq = seq;
            entity_type = entity_type;
            entity_id = entity_id;
            operation = operation;
          }
            ∷ [],
      seq,
    )

-- `WHERE seq > ?`.
unfoldable pub changes_after : ℕ → List Change → List Change
changes_after after [] = []
changes_after after (change ∷ log) =
    let rest = changes_after after log in if ltb after change.seq then change ∷ rest else rest

-- `Sync`: `none` is an error. Arguments below zero behave as zero does.
unfoldable pub sync : ℕ → ℕ → List Change → Option (List Change)
unfolding changes_after
sync after limit log =
    if ltb limit 1 || ltb 500 limit then none else some (take limit (changes_after after log))

-- The number of the last change of a page, from which the next page goes on.
abbrev pub last_seq : ℕ → List Change → ℕ
last_seq after [] = after
last_seq after (change ∷ page) = last_seq change.seq page
