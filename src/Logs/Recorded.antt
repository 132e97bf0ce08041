-- ===== src/Logs/Recorded.antt =====
-- What the endpoints of internal/logs let into the table match_logs.
use marco_api.Base.{
  ◌≤◌, ◌≡◌, refl, arith, String, Bool, true, false, Option, none, some, List, [], ◌∷◌, All,
  All-append, ◌&&◌, ◌||◌, not, is_some, length, str_eq, if◌then◌else◌, Uuid, Time, update_where,
  find_first, Option-cases, ◌⊎◌, inl, inr, signed_in,
}
use marco_api.Base.Db.{Result, ok, err, and_then, World}
use marco_api.Base.Db.Keeps.{Keeps, Holds, Keeps-pure, Keeps-statement, Keeps-on_error}
use marco_api.MatchPreparation.Validation.{clean_opponents}
use marco_api.MatchPreparation.Validation.Bounds.{clean_opponents-trim}
use marco_api.Logs.{
  MatchLogRow, LogTables, CreateMatchParams, UpdateMatchParams, create_match, update_match,
  replaced, is_own, refers, fits_columns,
}
use marco_api.Logs.Handler.{
  CreateMatchRequest, MatchInput, check_result, validate_match_input, create_match_params,
  update_match_params, create_match_handler, update_match_handler, check_message,
}

abbrev pub is_result : Option String → Bool
is_result none = false
is_result (some r) = str_eq r "won" || (str_eq r "lost" || str_eq r "draw")

-- A match with a result and three opponents at most.
pub record IsRecorded (r : MatchLogRow) : Type 0 where
  pub result : is_result r.log.result ≡ true
  pub opponents : length r.log.opponents ≤ 3

abbrev pub AllRecorded : Uuid → LogTables → Type 0
AllRecorded _ s = All IsRecorded s.matches

Result-cases :
    {A : Type 0} (r : Result String A) → ((e : String) × (r ≡ err e)) ⊎ ((a : A) × (r ≡ ok a))
Result-cases (err e) = inl (e, refl)
Result-cases (ok a) = inr (a, refl)

check_result-is_result :
    (r : Option String) (u : Unit {0}) → check_result r ≡ ok u → is_result r ≡ true
unfolding check_result
check_result-is_result none u h = ground arith
check_result-is_result (some r) u h = ground arith

All-if :
    (P : MatchLogRow → Type 0) (b : Bool) (x y : MatchLogRow) → P x → P y → P (if b then x else y)
All-if P true x y p q = p
All-if P false x y p q = q

All-update_where :
    (hit : MatchLogRow → Bool) (f : MatchLogRow → MatchLogRow)
    → ((r : MatchLogRow) → IsRecorded (f r))
    → (rows : List MatchLogRow) → All IsRecorded rows
    → All IsRecorded (update_where hit f rows)
unfolding update_where
All-update_where hit f k [] h = tt
All-update_where hit f k (r ∷ rows) (p, h) =
    (All-if IsRecorded (hit r) (f r) r (k r) p, All-update_where hit f k rows h)

AllRecorded-if :
    {A : Type 0} (b : Bool) (x y : A × LogTables)
    → All IsRecorded x.1.matches
    → All IsRecorded y.1.matches
    → All IsRecorded (if b then x else y).1.matches
AllRecorded-if true x y p q = p
AllRecorded-if false x y p q = q

create_match-Keeps :
    (p : CreateMatchParams)
    → is_result p.result ≡ true
    → length p.opponents ≤ 3
    → Keeps AllRecorded (create_match p)
unfolding create_match
create_match-Keeps p good few = Keeps-statement _ λ now id s h.
    AllRecorded-if
      (fits_columns p.result p.feeling p.partner_name && refers p.message_id s.message_ids) _ _
      (All-append IsRecorded s.matches _ h (record { result = good; opponents = few }, tt)) h

update_match-Keeps :
    (p : UpdateMatchParams)
    → is_result p.result ≡ true
    → length p.opponents ≤ 3
    → Keeps AllRecorded (update_match p)
unfolding update_match
update_match-Keeps p good few = Keeps-statement _ λ now id s h.
    AllRecorded-if
      (fits_columns p.result p.feeling p.partner_name
        || not (is_some (find_first (is_own p.user_id p.match_id) s.matches)))
      _ _
      (All-update_where (is_own p.user_id p.match_id) (replaced p)
        (λ r. record { result = good; opponents = few }) s.matches h)
      h

-- A request that changes the logs, whoever sends it.
pub data LogRequest : Type 0 where
  create_request : Option Uuid → Option CreateMatchRequest → LogRequest
  update_request : Option Uuid → String → Option CreateMatchRequest → LogRequest

module _ (parse_uuid : String → Option Uuid) (parse_date : String → Option Time) where
  -- What a body that passed holds.
  validate_match_input-parts :
      (req : CreateMatchRequest) (input : MatchInput)
      → validate_match_input parse_uuid parse_date req ≡ ok input
      → (check_result req.result ≡ ok tt) × (clean_opponents req.opponents ≡ ok input.opponents)
  unfolding validate_match_input and_then
  validate_match_input-parts req input h = (ground arith, ground arith)

  IsGood : MatchInput → CreateMatchRequest → Type 0
  IsGood input req = (is_result req.result ≡ true) × (length input.opponents ≤ 3)

  validate_match_input-IsGood :
      (req : CreateMatchRequest) (input : MatchInput)
      → validate_match_input parse_uuid parse_date req ≡ ok input
      → IsGood input req
  unfolding IsGood
  validate_match_input-IsGood req input h =
      let (result, opponents) = validate_match_input-parts req input h in
      (
        check_result-is_result req.result tt result,
        (clean_opponents-trim req.opponents input.opponents opponents).1,
      )

  create_match_handler-Keeps :
      (user : Option Uuid) (body : Option CreateMatchRequest)
      → Keeps AllRecorded (create_match_handler parse_uuid parse_date user body)
  unfolding create_match_handler IsGood
  create_match_handler-Keeps user none = elim (Option-cases (signed_in user)) [
    | inl e ↦ rw (e, create_match_handler) (Keeps-pure _)
    | inr (user_id, e) ↦ rw (e, create_match_handler) (Keeps-pure _)
  ]
  create_match_handler-Keeps user (some req) = elim (Option-cases (signed_in user)) [
    | inl e ↦ rw (e, create_match_handler) (Keeps-pure _)
    | inr (user_id, e) ↦ elim (Result-cases (validate_match_input parse_uuid parse_date req)) [
      | inl (m, k) ↦ rw (e, k, create_match_handler) (Keeps-pure _)
      | inr (input, k) ↦
          let (good, few) = validate_match_input-IsGood req input k in
          elim (Result-cases (check_message parse_uuid parse_date req.message_id)) [
            | inl (m, j) ↦ rw (e, k, j, create_match_handler) (Keeps-pure _)
            | inr (id, j) ↦
                rw (e, k, j, create_match_handler)
                  (Keeps-on_error _ _ _
                    (create_match-Keeps
                      (create_match_params parse_uuid parse_date user_id req input id) good few)
                    (λ _. Keeps-pure _) (λ _. Keeps-pure _))
          ]
    ]
  ]

  update_match_handler-Keeps :
      (user : Option Uuid) (id_param : String) (body : Option CreateMatchRequest)
      → Keeps AllRecorded (update_match_handler parse_uuid parse_date user id_param body)
  unfolding update_match_handler IsGood
  update_match_handler-Keeps user id_param body = elim (Option-cases (signed_in user)) [
    | inl e ↦ rw (e, update_match_handler) (Keeps-pure _)
    | inr (user_id, e) ↦ elim (Option-cases (parse_uuid id_param)) [
      | inl i ↦ rw (e, i, update_match_handler) (Keeps-pure _)
      | inr (match_id, i) ↦ elim (Option-cases body) [
        | inl b ↦ rw (e, i, b, update_match_handler) (Keeps-pure _)
        | inr (req, b) ↦ elim (Result-cases (validate_match_input parse_uuid parse_date req)) [
          | inl (m, k) ↦ rw (e, i, b, k, update_match_handler) (Keeps-pure _)
          | inr (input, k) ↦
              let (good, few) = validate_match_input-IsGood req input k in
              rw (e, i, b, k, update_match_handler)
                (Keeps-on_error _ _ _
                  (update_match-Keeps
                    (update_match_params parse_uuid parse_date user_id match_id req input) good few)
                  (λ _. Keeps-pure _) (λ _. Keeps-pure _))
        ]
      ]
    ]
  ]

  abbrev pub serve : List LogRequest → World LogTables → World LogTables
  serve [] w = w
  serve (create_request user body ∷ rs) w =
      serve rs (create_match_handler parse_uuid parse_date user body w).1
  serve (update_request user id_param body ∷ rs) w =
      serve rs (update_match_handler parse_uuid parse_date user id_param body w).1

  -- Where every match in the table has a result of won, lost or draw and three opponents at most, this stays so,
  -- whatever requests are served, in any order, and whichever statements fail.
  pub serve-AllRecorded :
      (rs : List LogRequest) (w : World LogTables)
      → Holds AllRecorded w
      → Holds AllRecorded (serve rs w)
  serve-AllRecorded [] w h = h
  serve-AllRecorded (create_request user body ∷ rs) w h =
      serve-AllRecorded rs (create_match_handler parse_uuid parse_date user body w).1
        ((create_match_handler-Keeps user body).after w h)
  serve-AllRecorded (update_request user id_param body ∷ rs) w h =
      serve-AllRecorded rs (update_match_handler parse_uuid parse_date user id_param body w).1
        ((update_match_handler-Keeps user id_param body).after w h)
