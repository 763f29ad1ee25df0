-- ===== src/Futures/Scenarios/Views.antt =====
-- Tests of the hypotheses, and instances of the theorems on them.
use zhigu.Base.{◌≡◌, ◌↔◌, refl, true, some, [], ◌∷◌, trim_space, count, ok, err, Error}
use zhigu.Futures.Hypothesis.{
  active, paused, HypothesisState, transition_hypothesis, expire_hypothesis, edit_hypothesis, null,
  text, number, Condition, fits_alone, fits_kind, validate_hypothesis_conditions,
}
use zhigu.Futures.Hypothesis.Versions.{
  start, then_, edits, transitions, expires, Onward, Changes-Onward, transition_hypothesis-once,
}
use zhigu.Futures.Hypothesis.Entries.{Sound, validate_hypothesis_conditions-Sound}

abbrev copper : HypothesisState
copper = record {
  version = 4;
  lifecycle = active;
  user_view = "undetermined";
  view_reason = "";
  reviewed_check_version = some 2;
  expires_at = 100;
  needs_review = true;
}

abbrev halted : HypothesisState
halted = record copper { lifecycle = paused; version = 5 }

halted_ok : transition_hypothesis copper "pause" 4 ≡ ok halted
unfolding transition_hypothesis
halted_ok = refl

transition_hypothesis-once_example :
    transition_hypothesis (expire_hypothesis halted 50) "close" 4 ≡ err Error.revision_conflict
transition_hypothesis-once_example =
    transition_hypothesis-once copper halted "pause" 4 halted_ok "close" 50

abbrev stocks_fall : Condition
stocks_fall = record {
  id = text "c1";
  role = text "validation";
  kind = text "consecutive_periods";
  instruction = text "库存连续下降";
  series_id = text "stocks";
  operator = text "lt";
  threshold = text "0";
  unit = text "t";
  periods = number 3;
}

abbrev by_hand : Condition
by_hand = record {
  id = text "c2";
  role = text "invalidation";
  kind = text "manual";
  instruction = text "矿山复产";
  series_id = null;
  operator = null;
  threshold = null;
  unit = null;
  periods = null;
}

accepted : validate_hypothesis_conditions (stocks_fall ∷ by_hand ∷ []) ≡ ok tt
unfolding validate_hypothesis_conditions fits_alone fits_kind trim_space count
accepted = refl

twice_refused : validate_hypothesis_conditions (by_hand ∷ by_hand ∷ []) ≡ err Error.invalid_input
unfolding validate_hypothesis_conditions fits_alone fits_kind trim_space count
twice_refused = refl

validate_hypothesis_conditions-Sound_example :
    (validate_hypothesis_conditions (stocks_fall ∷ by_hand ∷ []) ≡ ok tt)
    ↔ Sound (stocks_fall ∷ by_hand ∷ [])
validate_hypothesis_conditions-Sound_example =
    validate_hypothesis_conditions-Sound (stocks_fall ∷ by_hand ∷ [])

-- The pause goes up to version 5, the edit to version 6.
abbrev prolonged : HypothesisState
prolonged = record halted { expires_at = 300; version = 6 }

prolonged_ok :
    edit_hypothesis halted 5 (some "铜价上涨") (some 300) (stocks_fall ∷ by_hand ∷ []) 150
    ≡ ok prolonged
unfolding edit_hypothesis validate_hypothesis_conditions fits_alone fits_kind trim_space count
prolonged_ok = refl

Changes-Onward_example : Onward copper (expire_hypothesis prolonged 400)
Changes-Onward_example = Changes-Onward (
    then_
      (then_ (then_ start (transitions "pause" 4 halted_ok))
        (edits 5 (some "铜价上涨") (some 300) (stocks_fall ∷ by_hand ∷ []) 150 prolonged_ok))
      (expires 400 refl))
