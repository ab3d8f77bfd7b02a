-- ===== src/Tests/Racing.antt =====
-- Two callers that count the same new name at the same time.
use Prim.Native.String.{String}
use chn_resolver_go.Prelude.{◌≡◌, refl, [], ◌∷◌}
use chn_resolver_go.Metrics.{has, insert_locked, count_known}
use chn_resolver_go.Metrics.Named.{value}
use chn_resolver_go.Metrics.Racing.{
  looking, missed, found, Shared, unused, enter, turn, insert, add, Step, Steps, begin, move,
}
use chn_resolver_go.Metrics.Overlaps.{IsCounted, Steps-IsCounted}

abbrev name : String
name = "timeout"

-- Both look before either inserts.
abbrev both_missed : Shared
both_missed =
    turn missed name ((missed, name) ∷ [])
      (turn missed name ((looking, name) ∷ []) (enter name (enter name unused)))

-- Both insert, and both add.
abbrev raced : Shared
raced = add name [] (
    add name ((found, name) ∷ [])
      (insert name ((found, name) ∷ []) (insert name ((missed, name) ∷ []) both_missed)))

race : Steps raced
unfolding unused enter turn insert add has insert_locked
race =
    move
      (move
        (move
          (move
            (move
              (move (move (move begin (Step.calls name)) (Step.calls name))
                (Step.misses name [] ((looking, name) ∷ []) refl refl))
              (Step.misses name ((missed, name) ∷ []) [] refl refl))
            (Step.inserts name [] ((missed, name) ∷ []) refl))
          (Step.inserts name ((found, name) ∷ []) [] refl))
        (Step.adds name [] ((found, name) ∷ []) refl))
      (Step.adds name [] [] refl)

Steps-IsCounted_example : IsCounted raced
Steps-IsCounted_example = Steps-IsCounted race

raced_run : value name raced.dst ≡ 2
unfolding value unused enter turn insert add has insert_locked count_known
raced_run = refl
