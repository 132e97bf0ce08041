-- ===== src/Logs/Tests.antt =====
-- Tests of the match logs, and the theorem at a table of one match.
use marco_api.Base.{
  ◌≡◌, refl, arith, String, Bool, true, Option, none, some, List, [], ◌∷◌, All, Uuid, Time, Reply,
  problem, status,
}
use marco_api.Base.Db.{Result, ok, err, World}
use marco_api.Base.Db.Keeps.{Holds}
use marco_api.Logs.{MatchLog, MatchLogRow, LogTables, PartnerSuggestion, list_partners}
use marco_api.Logs.Handler.{CreateMatchRequest, create_match_handler}
use marco_api.Logs.Recorded.{
  LogRequest, create_request, update_request, serve, AllRecorded, serve-AllRecorded,
}

abbrev played : Uuid → Option String → MatchLogRow
played id partner = record {
  log = record {
    id = id;
    user_id = 7;
    played = true;
    result = some "won";
    feeling = none;
    note = none;
    partner_name = partner;
    opponents = "Ana" ∷ [];
    played_on = 100;
    created_at = 101;
  };
  message_id = none;
}

abbrev world : World LogTables
world = record {
  tables = record {
    matches = played 1 (some "Luis") ∷ played 2 (some " ") ∷ played 3 (some "Luis") ∷ [];
    message_ids = [];
  };
  now = 500;
  next_id = 30;
  faults = [];
}

abbrev read_uuid : String → Option Uuid
read_uuid text = some 1

abbrev read_date : String → Option Time
read_date text = some 200

abbrev request : Option String → CreateMatchRequest
request partner = record {
  played_on = "2026-06-01";
  result = some "lost";
  feeling = none;
  note = none;
  partner_name = partner;
  opponents = [];
  message_id = none;
}

list_partners_test :
    (list_partners 7 world).0 ≡ ok (record { partner_name = "Luis"; match_count = 2 } ∷ [])
unfolding list_partners marco_api.Base.Db.statement marco_api.Base.take marco_api.Base.order_by
list_partners_test = refl

create_test :
    status
      (create_match_handler read_uuid read_date (some 7) (some (request (some " Eva "))) world).0
    ≡ 201
unfolding create_match_handler marco_api.Base.trim_space marco_api.Base.Db.on_error
    marco_api.Logs.create_match marco_api.Base.Db.statement marco_api.Base.Db.pure
create_test = refl

-- A partner whose name is longer than the column passes the checks, and the request ends in a 500.
long_partner_test :
    create_match_handler read_uuid read_date
      (some 7)
      (some (
        request (
          some
            "01234567890123456789012345678901234567890123456789012345678901234567890123456789012345678901234567890")))
      world
    ≡ (problem 500 "failed to create match log", record world { next_id = 31 })
unfolding create_match_handler marco_api.Base.trim_space marco_api.Base.Db.on_error
    marco_api.Logs.create_match marco_api.Base.Db.statement marco_api.Base.Db.pure
long_partner_test = refl

abbrev requests : List LogRequest
requests =
    create_request (some 7) (some (request none))
    ∷ update_request (some 7) "1" (some (request (some "Eva")))
    ∷ update_request (some 8) "1" (some (request (some "Eva")))
    ∷ create_request none none
    ∷ []

all_recorded : Holds AllRecorded world
all_recorded = (
  record { result = refl; opponents = omega arith },
  (
    record { result = refl; opponents = omega arith },
    (record { result = refl; opponents = omega arith }, tt),
  ),
)

serve-AllRecorded_example : Holds AllRecorded (serve read_uuid read_date requests world)
serve-AllRecorded_example = serve-AllRecorded read_uuid read_date requests world all_recorded
