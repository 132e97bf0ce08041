-- ===== src/MatchPreparation/Handler/Clearing.antt =====
-- What PATCH /match-preparation/:id of internal/match_preparation makes of a field that is given and blank.
use marco_api.Base.{
  ◌≡◌, ap, sym, ◌∙◌, arith, String, true, Option, none, some, List, str_eq, trim_space, Uuid, Time,
}
use marco_api.Base.Db.{and_then, Result, ok}
use marco_api.MatchPreparation.{PreparationRow}
use marco_api.MatchPreparation.Validation.{optional_text, clean_opponents}
use marco_api.MatchPreparation.Store.Editing.{UpdateParams, patched_row}
use marco_api.MatchPreparation.Handler.{
  UpdateRequest, update_params, checked_update, given, cleared, check_grade, check_match_log_id,
  check_played_at, keep_some, parsed_or,
}

-- What a request that passed the checks asks for.
record Passed (req : UpdateRequest) (partner grade : Result String (Option String))
    (played : Result String (Option Time)) (p : UpdateParams) : Type 0 where
  partner_name : partner ≡ ok p.partner_name
  plan_grade : grade ≡ ok p.plan_grade
  clear_grade : p.clear_grade ≡ cleared req.plan_grade
  played_at : played ≡ ok p.played_at
  clear_played : p.clear_played ≡ cleared req.played_at

checked_update-Passed :
    (user_id id : Uuid) (req : UpdateRequest) (r0 : Result String (Option Time))
    (r1 : Result String (Option (List String))) (r2 r3 r4 : Result String (Option String))
    (r5 : Result String (Option Uuid)) (r6 : Result String (Option String))
    (r7 : Result String (Option Time)) (p : UpdateParams)
    → checked_update user_id id req r0 r1 r2 r3 r4 r5 r6 r7 ≡ ok p
    → Passed req r2 r6 r7 p
unfolding checked_update and_then
checked_update-Passed user_id id req r0 r1 r2 r3 r4 r5 r6 r7 p h = record {
  partner_name = ground arith;
  plan_grade = ground arith;
  clear_grade = ground arith;
  played_at = ground arith;
  clear_played = ground arith;
}

module _ (parse_uuid : String → Option Uuid) (parse_time : String → Option Time) where
  blank_partner :
      (text : String) (out : Option String)
      → str_eq (trim_space text) "" ≡ true
      → optional_text 100 "partner_name must be 100 characters or fewer" (some text) ≡ ok out
      → out ≡ none
  unfolding optional_text
  blank_partner text out blank h = ground arith

  -- A request with a blank partner, an empty grade and an empty time of play that passes the checks: the row
  -- loses its grade and its time of play, and keeps its partner.
  pub blank_fields-patched_row :
      (now then_ : Time) (user_id id : Uuid) (req : UpdateRequest) (p : UpdateParams)
      (r : PreparationRow) (text : String)
      → update_params parse_uuid parse_time now user_id id req ≡ ok p
      → req.partner_name ≡ some text
      → str_eq (trim_space text) "" ≡ true
      → req.plan_grade ≡ some ""
      → req.played_at ≡ some ""
      → ((patched_row p then_ r).plan_grade ≡ none)
        × ((patched_row p then_ r).played_at ≡ none)
        × ((patched_row p then_ r).partner_name ≡ r.partner_name)
  unfolding update_params patched_row check_grade check_played_at
  blank_fields-patched_row now then_ user_id id req p r text h partner blank grade played =
      let c =
        checked_update-Passed user_id id req
          (given (λ t. parsed_or "scheduled_at must be RFC3339" (parse_time t)) req.scheduled_at)
          (given (λ o. keep_some (clean_opponents o)) req.opponents)
          (optional_text 100 "partner_name must be 100 characters or fewer" req.partner_name)
          (optional_text 50 "court must be 50 characters or fewer" req.court)
          (optional_text 200 "note must be 200 characters or fewer" req.note)
          (given (check_match_log_id parse_uuid parse_time) req.match_log_id)
          (given check_grade req.plan_grade)
          (given (check_played_at parse_uuid parse_time now) req.played_at) p h in
      let g = c.plan_grade in
      let cg = c.clear_grade in
      let t = c.played_at in
      let ct = c.clear_played in
      let kept = blank_partner text p.partner_name blank (
        ap (optional_text 100 "partner_name must be 100 characters or fewer") (sym partner)
        ∙ c.partner_name) in
      (ground arith, ground arith, ground arith)
