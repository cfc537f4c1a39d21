-- ===== src/Aggregate/Count/Values.antt =====
-- The running aggregates of a window against the functions of the numbers that its events have
-- (internal/transform/aggregate/count.go).
use ggt.Prelude.Dict.{Dict}
use ggt.Value.{Value}
use ggt.Event.{Event}
