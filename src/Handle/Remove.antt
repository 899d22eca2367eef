-- ===== src/Handle/Remove.antt =====
-- remove_handle_locked of kern/object/handle_table.cc in valid tables.
use project_dionysus.Base.{ℕ, ◌&&◌, none, ltb, if◌then◌else◌}
use project_dionysus.Handle.{Slots, Table, same_object}

-- The first table of entries when the rounds below `k` are done.
swept : Table → Slots → ℕ → ℕ → Slots
swept t s e k j = if ltb j k && same_object t e (s j) then none else s j
