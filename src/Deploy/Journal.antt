-- ===== src/Deploy/Journal.antt =====
-- What the journal of a deployment (dploydb/deploy.py) must never show: a restore of the database
-- after the hook that activates new traffic may have run.
use dploy_db.Base.{Bool, true, false, not, ◌&&◌, ◌||◌, none, some, List, [], ◌∷◌}
use dploy_db.Command.{activate_new, hook_may_have_run}
use dploy_db.World.{Call, hook, ran, restore}

-- The call may have sent traffic to the new release: its hook ran, or it ended in an exception.
unfoldable pub may_switch : Call → Bool
may_switch (hook activate_new none) = true
may_switch (hook activate_new (some r)) = hook_may_have_run r
may_switch _ = false

unfoldable pub is_database_restore : Call → Bool
is_database_restore (ran restore _) = true
is_database_restore _ = false

-- The journal is read newest call first.
unfoldable pub switched_in : List Call → Bool
switched_in [] = false
switched_in (c ∷ j) = may_switch c || switched_in j

unfoldable pub restores_before_switch : List Call → Bool
restores_before_switch [] = true
restores_before_switch (c ∷ j) =
    (not (is_database_restore c) || not (switched_in j)) && restores_before_switch j

-- The journal shows a restore of the database.
unfoldable pub restored_in : List Call → Bool
restored_in [] = false
restored_in (c ∷ j) = is_database_restore c || restored_in j
